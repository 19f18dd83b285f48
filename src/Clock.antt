-- ===== src/Clock.antt =====
-- The arithmetic of times in src/odbc_result.cpp: `as_time`, and the fraction and the zone offset of
-- `as_timestamp` and `bind_datetime`. A double enters by its whole part and its billionths.
pub mod RoundTrip
use odbc.Prelude.{
  ℕ, zero, suc, ◌+◌, ◌-◌, ◌*◌, ◌/◌, ◌%◌, ◌^◌, ◌==◌, ltb, Bool, true, false, if◌then◌else◌, min,
}
use odbc.Prelude.Int.{ℤ, pos, negsuc, sub_ℕ, ◌+ℤ◌, ◌-ℤ◌, ◌*ℤ◌}
use odbc.Nanodbc.{Time, Timestamp, TimestampOffset}

abbrev pub negated : ℕ → ℤ
negated n = sub_ℕ 0 n

-- C++'s division and remainder of integers, towards zero.
unfoldable pub quot : ℤ → ℕ → ℤ
quot (pos n) k = pos (n / k)
quot (negsuc n) k = negated (suc n / k)

unfoldable pub rem : ℤ → ℕ → ℤ
rem (pos n) k = pos (n % k)
rem (negsuc n) k = negated (suc n % k)

-- `std::floor` of a quotient.
unfoldable pub floor_div : ℤ → ℕ → ℤ
floor_div (pos n) k = pos (n / k)
floor_div (negsuc n) k = negsuc (n / k)

-- A number as a signed integer whose values are from -half to half - 1.
abbrev signed_from : ℕ → ℕ → ℤ
signed_from half m = if ltb m half then pos m else negsuc (2 * half - 1 - m)

unfoldable pub as_signed : ℕ → ℤ → ℤ
as_signed half (pos n) = signed_from half (n % (2 * half))
as_signed half (negsuc n) = signed_from half (2 * half - 1 - n % (2 * half))

-- `as_time`, on the whole part of a number of seconds: the fields are of 16 bits, and the value is
-- cast to an `int` for the remainder. Out of their range C++ leaves the conversion of a double
-- undefined, where the model wraps around.
unfoldable pub as_time : ℤ → Time
unfolding quot rem as_signed
as_time value =
    let remainder = rem (as_signed (2 ^ 31) value) 3600 in
    record {
      hour = as_signed (2 ^ 15) (quot value 3600);
      min = as_signed (2 ^ 15) (quot remainder 60);
      sec = as_signed (2 ^ 15) (rem remainder 60);
    }

-- The offset of the zone, in the two fields of a timestampoffset.
unfoldable pub offset_hour : ℤ → ℤ
unfolding floor_div
offset_hour offset_sec = floor_div offset_sec 3600

unfoldable pub offset_minute : ℤ → ℤ
unfolding offset_hour
offset_minute offset_sec = floor_div (offset_sec -ℤ offset_hour offset_sec *ℤ 3600) 60

-- The offset that `as_double` reads from those fields.
unfoldable pub offset_seconds : ℤ → ℤ → ℤ
offset_seconds hour minute = hour *ℤ 3600 +ℤ minute *ℤ 60

-- `(std::int32_t)(frac * factor) * pad`, for a fraction of `nanos` billionths and of the sign of the
-- value; `precision` is at most 7.
unfoldable pub fraction : Bool → ℕ → ℕ → ℤ
fraction is_negative precision nanos =
    let size = nanos * 10 ^ precision / 10 ^ 9 * 10 ^ (9 - precision) in
    if is_negative then negated size else pos size

-- `std::min<short>(precision, 7)`
unfoldable pub scrubbed : ℕ → ℕ
scrubbed precision = min precision 7
