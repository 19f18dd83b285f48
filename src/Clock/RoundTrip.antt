-- ===== src/Clock/RoundTrip.antt =====
-- Times and offsets that are bound and fetched again.
use odbc.Prelude.{ℕ, suc, ◌+◌, ◌*◌, ◌^◌, ◌≤◌, ◌<◌, ◌≡◌, refl, ap, ap₂, ◌∙◌, ◌%◌, min, some, arith}
use odbc.Prelude.Int.{ℤ, pos, negsuc, pos_part, neg_part, ◌+ℤ◌, ◌-ℤ◌, ◌*ℤ◌, ◌≤ℤ◌}
use odbc.Nanodbc.{seconds}
use odbc.Fetch.{time_cell, real}
use odbc.Clock.{as_signed, quot, rem, as_time, offset_hour, offset_minute, offset_seconds}

-- The value fits the signed integer.
record Within (half : ℕ) (v : ℤ) : Type 0 where
  above : pos_part v < half
  below : neg_part v ≤ half

as_signed-Within :
    (half : ℕ)
    → ((m : ℕ) → m < 2 * half → m % (2 * half) ≡ m)
    → (v : ℤ) → Within half v
    → as_signed half v ≡ v
unfolding as_signed
as_signed-Within half same (pos n) w =
    let above : n < half = w.above in rw (same n (omega arith)) (ground arith)
as_signed-Within half same (negsuc n) w =
    let below : suc n ≤ half = w.below in rw (same n (omega arith)) (ground arith)

in_16 : (v : ℤ) → Within (2 ^ 15) v → as_signed (2 ^ 15) v ≡ v
in_16 = as_signed-Within (2 ^ 15) (λ m h. omega arith)

in_32 : (v : ℤ) → Within (2 ^ 31) v → as_signed (2 ^ 31) v ≡ v
in_32 = as_signed-Within (2 ^ 31) (λ m h. omega arith)

hours-Within :
    (v : ℤ) → pos_part v < 32768 * 3600 → neg_part v < 32768 * 3600 → Within (2 ^ 15) (quot v 3600)
unfolding quot
hours-Within (pos n) h g = record { above = omega arith; below = omega arith }
hours-Within (negsuc n) h g = record { above = ground arith; below = ground arith }

minutes-Within : (v : ℤ) → Within (2 ^ 15) (quot (rem v 3600) 60)
unfolding quot rem
minutes-Within (pos n) = record { above = omega arith; below = omega arith }
minutes-Within (negsuc n) = record { above = ground arith; below = ground arith }

seconds-Within : (v : ℤ) → Within (2 ^ 15) (rem (rem v 3600) 60)
unfolding rem
seconds-Within (pos n) = record { above = omega arith; below = omega arith }
seconds-Within (negsuc n) = record { above = ground arith; below = ground arith }

abbrev in_seconds : ℤ → ℤ → ℤ → ℤ
in_seconds hour min sec = hour *ℤ 3600 +ℤ min *ℤ 60 +ℤ sec

fields-again : (v : ℤ) → in_seconds (quot v 3600) (quot (rem v 3600) 60) (rem (rem v 3600) 60) ≡ v
unfolding quot rem ◌+ℤ◌ ◌*ℤ◌
fields-again (pos n) = ground arith
fields-again (negsuc n) = ground arith

-- A whole number of seconds of less than 32768 hours, of either sign, that is bound as a time and
-- fetched again is the same.
pub time_cell-as_time :
    (value : ℤ)
    → pos_part value < 32768 * 3600
    → neg_part value < 32768 * 3600
    → time_cell (some (as_time value)) ≡ real (seconds value)
unfolding time_cell as_time
time_cell-as_time value h g =
    ap (λ v. real (seconds v))
      (ap₂
          (λ a r.
            in_seconds a (as_signed (2 ^ 15) (quot (rem r 3600) 60))
              (as_signed (2 ^ 15) (rem (rem r 3600) 60)))
          (in_16 (quot value 3600) (hours-Within value h g))
          (in_32 value (record { above = omega arith; below = omega arith }))
        ∙ ap₂ (in_seconds (quot value 3600)) (in_16 _ (minutes-Within value))
            (in_16 _ (seconds-Within value))
        ∙ fields-again value)

-- What the fields of an offset say.
record Fields (offset_sec : ℤ) : Type 0 where
  not_negative : pos 0 ≤ℤ offset_minute offset_sec
  below_hour : offset_minute offset_sec ≤ℤ pos 59
  again : offset_seconds (offset_hour offset_sec) (offset_minute offset_sec) ≡ offset_sec

east : (n : ℕ) → Fields (pos (n * 60))
unfolding offset_minute offset_seconds ◌+ℤ◌ ◌-ℤ◌ ◌*ℤ◌
east n = record { not_negative = ground arith; below_hour = ground arith; again = ground arith }

west : (n m : ℕ) → m ≡ n * 60 + 59 → Fields (negsuc m)
unfolding offset_minute offset_seconds ◌+ℤ◌ ◌-ℤ◌ ◌*ℤ◌
west n m h = record { not_negative = ground arith; below_hour = ground arith; again = ground arith }

minutes-east : (n : ℕ) → pos n *ℤ 60 ≡ pos (n * 60)
unfolding ◌*ℤ◌
minutes-east n = ground arith

minutes-west : (n : ℕ) → negsuc n *ℤ 60 ≡ negsuc (n * 60 + 59)
unfolding ◌*ℤ◌
minutes-west n = ground arith

minutes-Fields : (minutes : ℤ) → Fields (minutes *ℤ 60)
minutes-Fields (pos n) = rw (minutes-east n) (east n)
minutes-Fields (negsuc n) = rw (minutes-west n) (west n (n * 60 + 59) refl)

-- The fields of an offset of whole minutes, of either sign: the minutes are at least 0 and below
-- 60, and the offset read from the fields is the one that was written.
pub offset_seconds-fields :
    (minutes : ℤ)
    → let offset_sec = minutes *ℤ 60 in
      (pos 0 ≤ℤ offset_minute offset_sec)
      × (offset_minute offset_sec ≤ℤ pos 59)
      × (offset_seconds (offset_hour offset_sec) (offset_minute offset_sec) ≡ offset_sec)
offset_seconds-fields minutes =
    let f = minutes-Fields minutes in (f.not_negative, f.below_hour, f.again)
