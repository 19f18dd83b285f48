-- ===== src/Bind/Meaning.antt =====
-- What a driver reads of a column that is bound, and what the vector of R says.
use odbc.Prelude.{ℕ, ◌≡◌, refl, ap, Bool, true, false, Option, none, some, List, [], ◌∷◌, map}
use odbc.Prelude.Int.{ℤ, ◌*ℤ◌}
use odbc.Nanodbc.{Text, Date, Time, Timestamp, TimestampOffset}
use odbc.Types.{
  RType, logical_t, integer_t, double_t, date_double_t, datetime_double_t, time_t, string_t, raw_t,
}
use odbc.Clock.{quot, as_time, offset_hour, offset_minute}
use odbc.Params.{
  Real, na_number, billionths, is_na, Vector, logicals, integers, doubles, strings, raws, Bound,
  ints, reals, texts, blobs, times, dates, timestamps, timestampoffsets, Zones,
}
use odbc.Bind.{
  is_na_integer, is_null, char_of, raw_of, times_day, as_date, next_date, date_loop, next_time,
  time_loop, next_stamp, stamp_loop, as_timestamp, stamp_of,
}

-- An element of a column.
pub data Value : Type 0 where
  null : Value
  int : ℤ → Value
  real : Real → Value
  text : Text → Value
  blob : List ℕ → Value
  time : Time → Value
  date : Date → Value
  timestamp : Timestamp → Value
  timestampoffset : TimestampOffset → Value

abbrev pub or_null : Bool → Value → Value
or_null true v = null
or_null false v = v

abbrev pub read_with : {A : Type 0} → (A → Value) → List A → List Bool → List Value
read_with f [] bs = []
read_with f (x ∷ xs) [] = []
read_with f (x ∷ xs) (b ∷ bs) = or_null b (f x) ∷ read_with f xs bs

-- The values of a bound column, in which a null flag hides the value.
abbrev pub readback : Bound → List Value
readback (ints xs bs) = read_with int xs bs
readback (reals xs bs) = read_with real xs bs
readback (texts xs bs) = read_with text xs bs
readback (blobs xs bs) = read_with blob xs bs
readback (times xs bs) = read_with time xs bs
readback (dates xs bs) = read_with date xs bs
readback (timestamps xs bs) = read_with timestamp xs bs
readback (timestampoffsets xs bs) = read_with timestampoffset xs bs

-- What the elements of R's vectors mean.
abbrev pub int_value : ℤ → Value
int_value n = or_null (is_na_integer n) (int n)

abbrev pub real_value : (ℤ → Value) → Real → Value
real_value f na_number = null
real_value f (billionths n) = f n

abbrev pub number_value : Real → Value
number_value = real_value λ n. real (billionths n)

abbrev pub text_value : Option Text → Value
text_value none = null
text_value (some s) = text s

abbrev pub blob_value : Option (List ℕ) → Value
blob_value none = null
blob_value (some b) = blob b

pub read_with-int : (xs : List ℤ) → read_with int xs (map is_na_integer xs) ≡ map int_value xs
read_with-int [] = refl
read_with-int (x ∷ xs) = ap (◌∷◌ (int_value x)) (read_with-int xs)

pub read_with-real : (xs : List Real) → read_with real xs (map is_na xs) ≡ map number_value xs
read_with-real [] = refl
read_with-real (na_number ∷ xs) = ap (◌∷◌ null) (read_with-real xs)
read_with-real (billionths n ∷ xs) = ap (◌∷◌ (real (billionths n))) (read_with-real xs)

pub read_with-text :
    (xs : List (Option Text)) → read_with text (map char_of xs) (map is_null xs) ≡ map text_value xs
read_with-text [] = refl
read_with-text (none ∷ xs) = ap (◌∷◌ null) (read_with-text xs)
read_with-text (some s ∷ xs) = ap (◌∷◌ (text s)) (read_with-text xs)

pub read_with-blob :
    (xs : List (Option (List ℕ)))
    → read_with blob (map raw_of xs) (map is_null xs) ≡ map blob_value xs
read_with-blob [] = refl
read_with-blob (none ∷ xs) = ap (◌∷◌ null) (read_with-blob xs)
read_with-blob (some b ∷ xs) = ap (◌∷◌ (blob b)) (read_with-blob xs)

abbrev pub time_value : Real → Value
time_value = real_value λ n. time (as_time (quot n 1000000000))

pub read_with-time :
    (ts : Time) (xs : List Real)
    → read_with time (time_loop ts xs) (map is_na xs) ≡ map time_value xs
unfolding time_loop
read_with-time ts [] = refl
read_with-time ts (na_number ∷ xs) = ap (◌∷◌ null) (read_with-time ts xs)
read_with-time ts (billionths n ∷ xs) =
    ap (◌∷◌ (time_value (billionths n))) (read_with-time (next_time ts (billionths n)) xs)

module _ (zones : Zones) where
  abbrev pub date_value : Real → Value
  date_value = real_value λ n. date (as_date zones (n *ℤ 86400))

  pub read_with-date :
      (dt : Date) (xs : List Real)
      → read_with date (date_loop zones dt xs) (map is_na xs) ≡ map date_value xs
  unfolding date_loop
  read_with-date dt [] = refl
  read_with-date dt (na_number ∷ xs) = ap (◌∷◌ null) (read_with-date dt xs)
  read_with-date dt (billionths n ∷ xs) =
      ap (◌∷◌ (date_value (billionths n)))
        (read_with-date (next_date zones dt (times_day (billionths n))) xs)

  abbrev offset_stamp : ℕ → ℕ → ℤ → TimestampOffset
  offset_stamp precision tz n =
      let r = as_timestamp zones precision tz n in
      record { stamp = r.0; offset_hour = offset_hour r.1; offset_minute = offset_minute r.1 }

  -- An instant with or without the offset of its zone.
  abbrev pub stamp_value : Bool → ℕ → ℕ → Real → Value
  stamp_value true precision tz = real_value λ n. timestampoffset (offset_stamp precision tz n)
  stamp_value false precision tz = real_value λ n. timestamp (as_timestamp zones precision tz n).0

  pub read_with-offset :
      (precision tz : ℕ) (tso : TimestampOffset) (xs : List Real)
      → read_with timestampoffset (stamp_loop zones precision tz tso xs) (map is_na xs)
        ≡ map (stamp_value true precision tz) xs
  unfolding stamp_loop
  read_with-offset precision tz tso [] = refl
  read_with-offset precision tz tso (na_number ∷ xs) =
      ap (◌∷◌ null) (read_with-offset precision tz tso xs)
  read_with-offset precision tz tso (billionths n ∷ xs) =
      ap (◌∷◌ (stamp_value true precision tz (billionths n)))
        (read_with-offset precision tz (next_stamp zones precision tz tso (billionths n)) xs)

  pub read_with-stamp :
      (precision tz : ℕ) (tso : TimestampOffset) (xs : List Real)
      → read_with timestamp (map stamp_of (stamp_loop zones precision tz tso xs)) (map is_na xs)
        ≡ map (stamp_value false precision tz) xs
  unfolding stamp_loop
  read_with-stamp precision tz tso [] = refl
  read_with-stamp precision tz tso (na_number ∷ xs) =
      ap (◌∷◌ null) (read_with-stamp precision tz tso xs)
  read_with-stamp precision tz tso (billionths n ∷ xs) =
      ap (◌∷◌ (stamp_value false precision tz (billionths n)))
        (read_with-stamp precision tz (next_stamp zones precision tz tso (billionths n)) xs)

  -- What the elements of a vector that is bound under a type mean, where `info` says whether
  -- offsets are bound, and the zone.
  unfoldable pub meaning : Bool × ℕ → ℕ → RType → Vector → List Value
  meaning info precision logical_t (logicals xs) = map int_value xs
  meaning info precision integer_t (integers xs) = map int_value xs
  meaning info precision double_t (doubles xs) = map number_value xs
  meaning info precision string_t (strings xs) = map text_value xs
  meaning info precision raw_t (raws xs) = map blob_value xs
  meaning info precision time_t (doubles xs) = map time_value xs
  meaning info precision date_double_t (doubles xs) = map date_value xs
  meaning info precision datetime_double_t (doubles xs) =
      map (stamp_value info.0 precision info.1) xs
  meaning info precision _ _ = []

-- The vectors whose elements `bind_columns` binds as they are meant: dates and instants in
-- vectors of integers are not among them.
abbrev pub Fits : RType → Vector → Type 0
Fits logical_t (logicals xs) = Unit {0}
Fits integer_t (integers xs) = Unit {0}
Fits double_t (doubles xs) = Unit {0}
Fits string_t (strings xs) = Unit {0}
Fits raw_t (raws xs) = Unit {0}
Fits time_t (doubles xs) = Unit {0}
Fits date_double_t (doubles xs) = Unit {0}
Fits datetime_double_t (doubles xs) = Unit {0}
Fits _ _ = ⊥
