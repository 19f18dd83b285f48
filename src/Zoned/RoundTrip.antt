-- ===== src/Zoned/RoundTrip.antt =====
-- An instant that was bound as a timestampoffset, and is fetched again.
use odbc.Prelude.{
  ℕ, zero, suc, ◌≡◌, refl, sym, ap, ◌∙◌, ◌⊎◌, inl, inr, true, false, ◌&&◌, arith, Bool-cases,
}
use odbc.Prelude.Int.{ℤ, pos, negsuc, ◌+ℤ◌, ◌-ℤ◌, ◌*ℤ◌}
use odbc.Outcome.{ok}
use odbc.Nanodbc.{Timestamp, TimestampOffset, instant}
use odbc.Session.{Session}
use odbc.Params.{Zones}
use odbc.Clock.{quot, offset_hour, offset_minute, offset_seconds}
use odbc.Clock.RoundTrip.{offset_seconds-fields}
use odbc.Bind.{as_timestamp}
use odbc.Zoned.{FixedZones, is_zero, stamp_as_double, offset_as_double}

-- What cctz documents of a moment `v` and of its civil time in the zone `tz`: the civil time is of
-- that moment only, it is that of UTC plus the offset of the zone, and the zone of a fixed offset,
-- where it is found, takes the offset off again.
pub record Civil {D : Type 0} (zones : Zones) (fixed : FixedZones D) (tz : ℕ) (v : ℤ) (d : D)
    : Type 0 where
  pub offset : ℤ
  pub zone : ℕ
  pub d' : D
  pub is_offset : (zones.lookup tz v).1.1 ≡ offset
  pub unique : zones.convert tz (zones.lookup tz v).0 (zones.lookup tz v).1.0 ≡ v
  pub in_utc : zones.convert zones.utc (zones.lookup tz v).0 (zones.lookup tz v).1.0 ≡ v +ℤ offset
  pub found : fixed.fixed_time_zone (pos 0 -ℤ offset) d ≡ ((zone, false), d')
  pub shifted :
      zones.convert zone (zones.lookup tz v).0 (zones.lookup tz v).1.0
      ≡ zones.convert zones.utc (zones.lookup tz v).0 (zones.lookup tz v).1.0 -ℤ offset

add-sub : (a b : ℤ) → (a +ℤ b) -ℤ b ≡ a
unfolding ◌+ℤ◌ ◌-ℤ◌
add-sub (pos a) (pos b) = ground arith
add-sub (pos a) (negsuc b) = ground arith
add-sub (negsuc a) (pos b) = ground arith
add-sub (negsuc a) (negsuc b) = ground arith

-- The timestampoffset that `bind_datetime` binds.
abbrev pub bound_offset : Timestamp × ℤ → TimestampOffset
bound_offset r = record {
  stamp = r.0;
  offset_hour = offset_hour r.1;
  offset_minute = offset_minute r.1;
}

no_offset :
    (hour minute : ℤ) → (is_zero hour && is_zero minute) ≡ true → offset_seconds hour minute ≡ pos 0
unfolding offset_seconds ◌+ℤ◌ ◌*ℤ◌
no_offset (pos zero) (pos zero) e = refl
no_offset (pos zero) (pos (suc n)) e = ground arith
no_offset (pos zero) (negsuc n) e = ground arith
no_offset (pos (suc n)) minute e = ground arith
no_offset (negsuc n) minute e = ground arith

no_minutes : (minutes : ℤ) → minutes *ℤ 60 ≡ pos 0 → is_zero minutes ≡ true
unfolding ◌*ℤ◌
no_minutes (pos zero) e = refl
no_minutes (pos (suc n)) e = ground arith
no_minutes (negsuc n) e = ground arith

-- `tz` is the zone in which an instant is bound, and `timezone` that of the connection.
module _ {D : Type 0} (zones : Zones) (fixed : FixedZones D) (tz timezone : ℕ) where
  -- A civil time in the zone `tz`, with the fields of its offset.
  read_back :
      (ts : Timestamp) (v off minutes : ℤ) (zone : ℕ) (d' : D) (s : Session D)
      → off ≡ minutes *ℤ 60
      → (is_zero minutes ≡ false) ⊎ (timezone ≡ tz)
      → zones.convert tz ts.date ts.time ≡ v
      → fixed.fixed_time_zone (pos 0 -ℤ off) s.driver ≡ ((zone, false), d')
      → zones.convert zone ts.date ts.time ≡ v
      → (offset_as_double zones timezone fixed (bound_offset (ts, off)) s).0
        ≡ ok (instant v ts.fract)
  unfolding offset_as_double stamp_as_double
  read_back ts v off minutes zone d' s whole where_ unique found shifted =
      elim (Bool-cases (is_zero (offset_hour off) && is_zero (offset_minute off))) [
        | inl e ↦ rw (e, own_zone e, unique) refl
        | inr e ↦ rw (e, again, found, shifted) refl
      ]
    where
      again : offset_seconds (offset_hour off) (offset_minute off) ≡ off
      again = rw whole (offset_seconds-fields minutes).2

      same : (is_zero minutes ≡ false) ⊎ (timezone ≡ tz) → is_zero minutes ≡ true → timezone ≡ tz
      same (inl f) e = absurd (ground (arith, f, e))
      same (inr f) e = f

      own_zone : (is_zero (offset_hour off) && is_zero (offset_minute off)) ≡ true → timezone ≡ tz
      own_zone e = same where_ (
          no_minutes minutes
            (sym whole ∙ sym again ∙ no_offset (offset_hour off) (offset_minute off) e))

  -- An instant that is bound as a timestampoffset in a time zone, at an offset of whole minutes, and
  -- fetched again is the same number of seconds, with the fraction that was bound, whatever time zone
  -- the connection has, unless the offset is 0: then the zone is to be the connection's. Given is
  -- what cctz documents of a moment whose civil time in its zone is not repeated, and that the zone
  -- of the fixed offset is found.
  pub offset_as_double-as_timestamp :
      (precision : ℕ) (n minutes : ℤ) (s : Session D)
      (c : Civil zones fixed tz (quot n 1000000000) s.driver)
      → c.offset ≡ minutes *ℤ 60
      → (is_zero minutes ≡ false) ⊎ (timezone ≡ tz)
      → let r = as_timestamp zones precision tz n in
        (offset_as_double zones timezone fixed (bound_offset r) s).0
        ≡ ok (instant (quot n 1000000000) r.0.fract)
  unfolding as_timestamp
  offset_as_double-as_timestamp precision n minutes s c whole where_ =
      read_back (as_timestamp zones precision tz n).0 (quot n 1000000000)
        (zones.lookup tz (quot n 1000000000)).1.1 minutes c.zone c.d' s (c.is_offset ∙ whole) where_
        c.unique (rw c.is_offset c.found)
        (c.shifted ∙ ap (λ x. x -ℤ c.offset) c.in_utc ∙ add-sub (quot n 1000000000) c.offset)
