-- ===== src/Tests/Zones.antt =====
-- Zones of fixed offsets, and a civil time that counts the seconds in its field of hours.
use odbc.Prelude.{ℕ, zero, suc, ◌≡◌, refl, inl, false, none}
use odbc.Prelude.Int.{ℤ, pos, ◌+ℤ◌, ◌-ℤ◌, ◌*ℤ◌}
use odbc.Outcome.{ok}
use odbc.Nanodbc.{Date, instant}
use odbc.Params.{Zones}
use odbc.Clock.{quot}
use odbc.Bind.{as_timestamp}
use odbc.Zoned.{FixedZones, offset_as_double}
use odbc.Zoned.RoundTrip.{bound_offset, offset_as_double-as_timestamp}
use odbc.Tests.Results.{opened}

-- The zone 0 is UTC, and each other one an hour east of it.
abbrev east_of_utc : ℕ → ℤ
east_of_utc zero = pos 0
east_of_utc (suc n) = pos 3600

abbrev epoch : Date
epoch = record { year = pos 1970; month = 1; day = 1 }

abbrev zones : Zones
zones = record {
  utc = 0;
  load_time_zone = λ t. none;
  lookup = λ z v.
      (epoch, (record { hour = v +ℤ east_of_utc z; min = pos 0; sec = pos 0 }, east_of_utc z));
  convert = λ z date time. time.hour -ℤ east_of_utc z;
}

abbrev fixed : FixedZones ℕ
fixed = record { fixed_time_zone = λ offset d. ((2, false), d) }

offset_as_double-as_timestamp_example :
    let r = as_timestamp zones 3 1 (pos 5000000000) in
    (offset_as_double zones 0 fixed (bound_offset r) opened).0
    ≡ ok (instant (quot (pos 5000000000) 1000000000) r.0.fract)
unfolding quot ◌+ℤ◌ ◌-ℤ◌ ◌*ℤ◌
offset_as_double-as_timestamp_example =
    offset_as_double-as_timestamp zones fixed 1 0 3 (pos 5000000000) (pos 60) opened
      (record {
        offset = pos 3600;
        zone = 2;
        d' = 5;
        is_offset = refl;
        unique = refl;
        in_utc = refl;
        found = refl;
        shifted = refl;
      })
      refl (inl refl)
