-- ===== src/Bind.antt =====
-- The functions `bind_*` and `bind_columns` of src/odbc_result.cpp on vectors.
pub mod Vectors
pub mod Frames
pub mod Rounds
pub mod Meaning
pub mod Contract
pub mod Correct
pub mod Instants
pub mod Faithful
pub mod All
pub mod Executes
pub mod Whole
pub mod Refines
pub mod Hazards
pub mod Ends
pub mod Stable
pub mod Atomic
pub mod Tables
use odbc.Prelude.{
  ℕ, zero, suc, ◌+◌, ◌*◌, ◌%◌, ◌^◌, Bool, true, false, Option, none, some, List, [], ◌∷◌, ◌++◌, map,
  ◌==◌, length, take, drop, if◌then◌else◌,
}
use odbc.Prelude.Int.{ℤ, pos, negsuc, is_negative, ◌*ℤ◌}
use odbc.Outcome.{
  M, Error, database_error, r_stop, other_error, not_implemented, ok, pure, throw, fault, ◌>>=◌,
  ◌>>◌, try_catch, Outcome,
}
use odbc.Nanodbc.{Reply, Text, Date, Time, Timestamp, TimestampOffset}
use odbc.Session.{Session, Notice, unknown_precision, unknown_time_zone, call, notify}
use odbc.Types.{
  RType, logical_t, integer_t, integer64_t, double_t, date_int_t, date_double_t, datetime_int_t,
  datetime_double_t, time_t, string_t, ustring_t, raw_t, dataframe_t, SqlType,
  sql_ss_timestampoffset,
}
use odbc.Clock.{quot, as_time, offset_hour, offset_minute, fraction, scrubbed}
use odbc.Fetch.{na_integer}
use odbc.Params.{
  Real, na_number, billionths, is_na, Vector, logicals, integers, doubles, strings, raws, raw_bytes,
  Class, ParamData, put, Bound, ints, reals, texts, blobs, times, dates, timestamps,
  timestampoffsets, Target, Binder, Zones, Memory, slice, magnitude,
}

-- The session, and the two members that hold buffers.
pub record Binding (D : Type 0) : Type 0 where
  pub session : Session D
  pub buffers : ParamData
  pub tvp_buffers : ℕ → ParamData

-- Which of the buffers a column is written to.
pub data Buffers : Type 0 where
  own : Buffers
  tvp : ℕ → Buffers

abbrev pub empty_data : ParamData
empty_data = record {
  strings = λ i. [];
  raws = λ i. [];
  times = λ i. [];
  timestamps = λ i. [];
  timestampoffsets = λ i. [];
  dates = λ i. [];
  nulls = λ i. [];
}

module _ {D : Type 0} where
  abbrev pub in_session {ℓ} : {A : Type ℓ} → M (Session D) A → M (Binding D) A
  in_session m s = let r = m s.session in (r.0, record s { session = r.1 })

  abbrev pub read_buffers : Buffers → Binding D → ParamData
  read_buffers own s = s.buffers
  read_buffers (tvp i) s = s.tvp_buffers i

  abbrev pub write_buffers : Buffers → ParamData → Binding D → Binding D
  write_buffers own p s = record s { buffers = p }
  write_buffers (tvp i) p s = record s { tvp_buffers = put s.tvp_buffers i p }

  abbrev pub put_buffers : Buffers → ParamData → M (Binding D) (Unit {0})
  put_buffers b p s = (ok tt, write_buffers b p s)

  abbrev pub get_buffers : Buffers → M (Binding D) ParamData
  get_buffers b s = (ok (read_buffers b s), s)

  -- A read beyond the end of a vector is a fault.
  abbrev pub in_range {ℓ} : {A : Type ℓ} → Option A → M (Binding D) A
  in_range none s = fault s
  in_range (some a) s = (ok a, s)

  unfoldable pub clear_buffers : M (Binding D) (Unit {0})
  clear_buffers s = (ok tt, record s { buffers = empty_data; tvp_buffers = λ i. empty_data })

  -- R's error where a vector has another type.
  abbrev pub wrong_vector {ℓ} : {A : Type ℓ} → M (Binding D) A
  wrong_vector = throw (other_error 0)

-- `vector[start + i] == NA_INTEGER`; NA_LOGICAL is the same number.
unfoldable pub is_na_integer : ℤ → Bool
is_na_integer (pos n) = false
is_na_integer (negsuc n) = n == 2147483647

abbrev pub is_null {ℓ} : {A : Type ℓ} → Option A → Bool
is_null none = true
is_null (some a) = false

-- `CHAR(value)`: the characters of NA_STRING are "NA".
abbrev pub char_of : Option Text → Text
char_of none = b'N' ∷ b'A' ∷ []
char_of (some s) = s

abbrev pub raw_of : Option (List ℕ) → List ℕ
raw_of none = []
raw_of (some b) = b

-- The types `int` and `double` of the parameter `SourceType`.
pub data SourceType : Type 0 where
  int_source double_source : SourceType

-- An int as a double.
abbrev pub real_of : ℤ → Real
real_of n = billionths (n *ℤ 1000000000)

abbrev pub memory_slice : (ℕ → Real) → ℕ → ℕ → List Real
memory_slice f start zero = []
memory_slice f start (suc n) = f start ∷ memory_slice f (start + 1) n

-- `(SourceType*)DATAPTR_RO(data[column])`, read as doubles from `start` on, so many.
unfoldable pub source_slice : Memory → SourceType → Vector → ℕ → ℕ → Option (List Real)
source_slice mem int_source (integers xs) start size = slice start size (map real_of xs)
source_slice mem double_source (doubles xs) start size = slice start size xs
source_slice mem t v start size = some (memory_slice (mem.real_at v) start size)

abbrev pub times_day : Real → Real
times_day na_number = na_number
times_day (billionths n) = billionths (n *ℤ 86400)

abbrev pub stamp_of : TimestampOffset → Timestamp
stamp_of ts = ts.stamp

module _ (zones : Zones) where
  -- `as_date`
  unfoldable pub as_date : ℤ → Date
  as_date n = (zones.lookup zones.utc (quot n 1000000000)).0

  -- `as_timestamp`: the time stamp and the offset of the zone.
  unfoldable pub as_timestamp : ℕ → ℕ → ℤ → Timestamp × ℤ
  as_timestamp precision tz n =
      let res = zones.lookup tz (quot n 1000000000) in
      (
        record {
          date = res.0;
          time = res.1.0;
          fract = fraction (is_negative n) precision (magnitude n % 10 ^ 9);
        },
        res.1.1,
      )

  -- One round of the loop of `bind_date`: `dt` keeps its value at a null.
  unfoldable pub next_date : Date → Real → Date
  unfolding as_date
  next_date dt na_number = dt
  next_date dt (billionths n) = as_date n

  unfoldable pub date_loop : Date → List Real → List Date
  unfolding next_date
  date_loop dt [] = []
  date_loop dt (x ∷ xs) = next_date dt (times_day x) ∷ date_loop (next_date dt (times_day x)) xs

  unfoldable pub next_stamp : ℕ → ℕ → TimestampOffset → Real → TimestampOffset
  unfolding as_timestamp
  next_stamp precision tz tso na_number = tso
  next_stamp precision tz tso (billionths n) =
      let r = as_timestamp precision tz n in
      record { stamp = r.0; offset_hour = offset_hour r.1; offset_minute = offset_minute r.1 }

  unfoldable pub stamp_loop : ℕ → ℕ → TimestampOffset → List Real → List TimestampOffset
  unfolding next_stamp
  stamp_loop precision tz tso [] = []
  stamp_loop precision tz tso (x ∷ xs) =
      next_stamp precision tz tso x ∷ stamp_loop precision tz (next_stamp precision tz tso x) xs

unfoldable pub next_time : Time → Real → Time
next_time ts na_number = ts
next_time ts (billionths n) = as_time (quot n 1000000000)

unfoldable pub time_loop : Time → List Real → List Time
unfolding next_time
time_loop ts [] = []
time_loop ts (x ∷ xs) = next_time ts x ∷ time_loop (next_time ts x) xs
