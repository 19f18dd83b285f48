-- ===== src/Bind/Correct.antt =====
-- `bind_columns` binds the elements of a vector as they are meant.
use odbc.Prelude.{
  ℕ, zero, suc, ◌+◌, ◌≤◌, ◌≡◌, refl, ap, ◌∙◌, Option, some, List, [], ◌∷◌, ◌++◌, map, length, take,
  drop, arith,
}
use odbc.Prelude.Int.{ℤ}
use odbc.Outcome.{Sat, Outcome}
use odbc.Nanodbc.{Text, Date, Time, TimestampOffset}
use odbc.Params.{
  Real, is_na, logicals, integers, doubles, strings, raws, Target, Binder, Zones, Memory, slice,
}
use odbc.Bind.{
  Binding, Buffers, read_buffers, is_null, char_of, raw_of, double_source, source_slice, date_loop,
  next_date, time_loop, next_time, stamp_loop, next_stamp, times_day,
}
use odbc.Bind.Vectors.{
  bind_logical, bind_integer, bind_double, bind_string, bind_raw, bind_date, bind_time,
}
use odbc.Bind.Meaning.{
  Value, number_value, int_value, text_value, blob_value, time_value, date_value, read_with-int,
  read_with-real, read_with-text, read_with-blob, read_with-time, read_with-date, read_with, text,
  blob, time, date,
}
use odbc.Bind.Contract.{Contract, IsClear, Binds, bind-Binds}

module _ {A B : Type 0} where
  pub map-slice :
      (f : A → B) (start size : ℕ) (xs : List A)
      → map f (take size (drop start xs)) ≡ take size (drop start (map f xs))
  map-slice f zero zero xs = refl
  map-slice f zero (suc n) [] = refl
  map-slice f zero (suc n) (x ∷ xs) = ap (◌∷◌ (f x)) (map-slice f zero n xs)
  map-slice f (suc m) zero [] = refl
  map-slice f (suc m) (suc n) [] = refl
  map-slice f (suc m) n (x ∷ xs) = map-slice f m n xs

module _ {A : Type 0} where
  pub slice-eq-some :
      (start size : ℕ) (xs : List A)
      → start + size ≤ length xs
      → slice start size xs ≡ some (take size (drop start xs))
  slice-eq-some start size xs h = ground arith

  pub length-slice :
      (start size : ℕ) (xs : List A)
      → start + size ≤ length xs
      → length (take size (drop start xs)) ≡ size
  length-slice zero zero xs h = refl
  length-slice zero (suc n) [] h = absurd (omega arith)
  length-slice zero (suc n) (x ∷ xs) h = omega (arith, length-slice zero n xs)
  length-slice (suc m) zero [] h = refl
  length-slice (suc m) (suc n) [] h = absurd (omega arith)
  length-slice (suc m) n (x ∷ xs) h = length-slice m n xs (omega arith)

  pub take_all : (n : ℕ) (xs : List A) → length xs ≡ n → take n xs ≡ xs
  take_all zero [] h = refl
  take_all zero (x ∷ xs) h = absurd (omega arith)
  take_all (suc n) [] h = absurd (omega arith)
  take_all (suc n) (x ∷ xs) h = ap (◌∷◌ x) (take_all n xs (omega arith))

length-time_loop : (ts : Time) (xs : List Real) → length (time_loop ts xs) ≡ length xs
unfolding time_loop
length-time_loop ts [] = refl
length-time_loop ts (x ∷ xs) = ap suc (length-time_loop (next_time ts x) xs)

pub length-date_loop :
    (zones : Zones) (dt : Date) (xs : List Real) → length (date_loop zones dt xs) ≡ length xs
unfolding date_loop
length-date_loop zones dt [] = refl
length-date_loop zones dt (x ∷ xs) =
    ap suc (length-date_loop zones (next_date zones dt (times_day x)) xs)

pub length-stamp_loop :
    (zones : Zones) (precision tz : ℕ) (tso : TimestampOffset) (xs : List Real)
    → length (stamp_loop zones precision tz tso xs) ≡ length xs
unfolding stamp_loop
length-stamp_loop zones precision tz tso [] = refl
length-stamp_loop zones precision tz tso (x ∷ xs) =
    ap suc (length-stamp_loop zones precision tz (next_stamp zones precision tz tso x) xs)

-- The first elements of a buffer that was empty before.
pub take-fresh :
    {A : Type 0} (size : ℕ) (old new : List A)
    → old ≡ []
    → length new ≡ size
    → take size (old ++ new) ≡ new
take-fresh size old new e h = rw e (take_all size new h)

module _ {D : Type 0} {binder : Binder D} (k : Contract binder) (zones : Zones) (mem : Memory)
    (timezone : ℕ) (obj : Target) (to : Buffers) where
  abbrev pub Correct : ℕ → List Value → Binding D → Outcome (Unit {0}) × Binding D → Type 0
  Correct col vs s = Sat (λ _ s'. Binds k obj to col vs s s') (λ _ _. ⊥)

  pub logical-Correct :
      (xs : List ℤ) (col start size : ℕ) (s : Binding D)
      → start + size ≤ length xs
      → IsClear col (read_buffers to s)
      → Correct col
          (take size (drop start (map int_value xs)))
          s
          (bind_logical binder zones mem timezone obj to (logicals xs) col start size s)
  unfolding bind_logical
  logical-Correct xs col start size s h clear =
      let v = take size (drop start xs) in
      rw (slice-eq-some start size xs h) (
        bind-Binds k obj to col _ _ _ s (read_with-int v ∙ map-slice int_value start size xs)
          (λ i ne c. c))

  pub integer-Correct :
      (xs : List ℤ) (col start size : ℕ) (s : Binding D)
      → start + size ≤ length xs
      → IsClear col (read_buffers to s)
      → Correct col
          (take size (drop start (map int_value xs)))
          s
          (bind_integer binder zones mem timezone obj to (integers xs) col start size s)
  unfolding bind_integer
  integer-Correct xs col start size s h clear =
      let v = take size (drop start xs) in
      rw (slice-eq-some start size xs h) (
        bind-Binds k obj to col _ _ _ s (read_with-int v ∙ map-slice int_value start size xs)
          (λ i ne c. c))

  pub double-Correct :
      (xs : List Real) (col start size : ℕ) (s : Binding D)
      → start + size ≤ length xs
      → IsClear col (read_buffers to s)
      → Correct col
          (take size (drop start (map number_value xs)))
          s
          (bind_double binder zones mem timezone obj to (doubles xs) col start size s)
  unfolding bind_double
  double-Correct xs col start size s h clear =
      let v = take size (drop start xs) in
      rw (slice-eq-some start size xs h) (
        bind-Binds k obj to col _ _ _ s (read_with-real v ∙ map-slice number_value start size xs)
          (λ i ne c. c))

  pub string-Correct :
      (xs : List (Option Text)) (col start size : ℕ) (s : Binding D)
      → start + size ≤ length xs
      → IsClear col (read_buffers to s)
      → Correct col
          (take size (drop start (map text_value xs)))
          s
          (bind_string binder zones mem timezone obj to (strings xs) col start size s)
  unfolding bind_string
  string-Correct xs col start size s h clear =
      let v = take size (drop start xs) in
      rw (slice-eq-some start size xs h) (
        bind-Binds k obj to col _ _ _ s
          (ap (λ z. read_with text (z ++ map char_of v) (map is_null v)) clear.0
            ∙ read_with-text v
            ∙ map-slice text_value start size xs)
          (λ i ne c. ground arith))

  pub raw-Correct :
      (xs : List (Option (List ℕ))) (col start size : ℕ) (s : Binding D)
      → start + size ≤ length xs
      → IsClear col (read_buffers to s)
      → Correct col
          (take size (drop start (map blob_value xs)))
          s
          (bind_raw binder zones mem timezone obj to (raws xs) col start size s)
  unfolding bind_raw
  raw-Correct xs col start size s h clear =
      let v = take size (drop start xs) in
      rw (slice-eq-some start size xs h) (
        bind-Binds k obj to col _ _ _ s
          (ap (λ z. read_with blob (z ++ map raw_of v) (map is_null v)) clear.1
            ∙ read_with-blob v
            ∙ map-slice blob_value start size xs)
          (λ i ne c. ground arith))

  pub time-Correct :
      (xs : List Real) (col start size : ℕ) (s : Binding D)
      → start + size ≤ length xs
      → IsClear col (read_buffers to s)
      → Correct col
          (take size (drop start (map time_value xs)))
          s
          (bind_time binder zones mem timezone obj to (doubles xs) col start size s)
  unfolding bind_time
  time-Correct xs col start size s h clear =
      let v = take size (drop start xs) in
      rw (slice-eq-some start size xs h) (
        bind-Binds k obj to col _ _ _ s
          (ap (λ z. read_with time z (map is_na v))
              (take-fresh size _ (time_loop mem.time v) clear.2
                (length-time_loop mem.time v ∙ length-slice start size xs h))
            ∙ read_with-time mem.time v
            ∙ map-slice time_value start size xs)
          (λ i ne c. ground arith))

  pub date-Correct :
      (xs : List Real) (col start size : ℕ) (s : Binding D)
      → start + size ≤ length xs
      → IsClear col (read_buffers to s)
      → Correct col
          (take size (drop start (map (date_value zones) xs)))
          s
          (bind_date binder zones mem timezone obj to double_source (doubles xs) col start size s)
  unfolding bind_date source_slice
  date-Correct xs col start size s h clear =
      let v = take size (drop start xs) in
      rw (slice-eq-some start size xs h) (
        bind-Binds k obj to col _ _ _ s
          (ap (λ z. read_with date z (map is_na v))
              (take-fresh size _ (date_loop zones mem.date v) clear.5
                (length-date_loop zones mem.date v ∙ length-slice start size xs h))
            ∙ read_with-date zones mem.date v
            ∙ map-slice (date_value zones) start size xs)
          (λ i ne c. ground arith))
