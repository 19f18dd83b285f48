-- ===== src/Zoned.antt =====
-- The functions `as_double` of src/odbc_result.cpp: a fetched date or timestamp as seconds since 1970.
pub mod RoundTrip
use odbc.Prelude.{ℕ, zero, suc, Bool, true, false, ◌&&◌, if◌then◌else◌}
use odbc.Prelude.Int.{ℤ, pos, negsuc, ◌-ℤ◌}
use odbc.Outcome.{Outcome, ok, M, pure}
use odbc.Nanodbc.{Date, Time, Timestamp, TimestampOffset, Double, seconds, instant}
use odbc.Session.{Session, notify, unable_to_locate_tz}
use odbc.Params.{Zones}
use odbc.Clock.{offset_seconds}

-- `cctz::fixed_time_zone`: the zone, and whether something was written to `std::clog`.
pub record FixedZones (D : Type 0) : Type 0 where
  pub fixed_time_zone : ℤ → D → (ℕ × Bool) × D

abbrev pub is_zero : ℤ → Bool
is_zero (pos zero) = true
is_zero (pos (suc n)) = false
is_zero (negsuc n) = false

-- The first second of a day.
abbrev pub midnight : Time
midnight = record { hour = pos 0; min = pos 0; sec = pos 0 }

-- `timezone` is the connection's time zone.
module _ (zones : Zones) (timezone : ℕ) where
  unfoldable pub stamp_as_double : Timestamp → Double
  stamp_as_double ts = instant (zones.convert timezone ts.date ts.time) ts.fract

  unfoldable pub date_as_double : Date → Double
  date_as_double dt = seconds (zones.convert zones.utc dt midnight)

  module _ {D : Type 0} (fixed : FixedZones D) where
    -- The value in the zone of its offset, or with a warning in the connection's.
    in_fixed_zone : TimestampOffset → (ℕ × Bool) × D → M (Session D) Double
    in_fixed_zone tso ((tz, true), d) s =
        (ok (stamp_as_double tso.stamp), (notify unable_to_locate_tz (record s { driver = d })).1)
    in_fixed_zone tso ((tz, false), d) s = (
      ok (instant (zones.convert tz tso.stamp.date tso.stamp.time) tso.stamp.fract),
      record s { driver = d },
    )

    unfoldable pub offset_as_double : TimestampOffset → M (Session D) Double
    unfolding in_fixed_zone
    offset_as_double tso s =
        let offset = offset_seconds tso.offset_hour tso.offset_minute in
        if is_zero tso.offset_hour && is_zero tso.offset_minute
        then pure (stamp_as_double tso.stamp) s
        else in_fixed_zone tso (fixed.fixed_time_zone (pos 0 -ℤ offset) s.driver) s
