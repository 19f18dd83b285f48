-- ===== src/Bind/Whole.antt =====
-- `bind_list` as a whole.
use odbc.Prelude.{
  ℕ, zero, suc, ◌+◌, ◌-◌, ◌≤◌, ◌<◌, ◌≡◌, refl, sym, ap, ap₂, ◌∙◌, Bool, Option, none, some, List,
  [], ◌∷◌, ◌++◌, length, length-map, arith,
}
use odbc.Nanodbc.{Nanodbc}
use odbc.Types.{
  RType, logical_t, integer_t, double_t, date_double_t, datetime_double_t, time_t, string_t, raw_t,
}
use odbc.Batches.{get_parameter_rows}
use odbc.Batches.Cover.{rounds, pieces, pieces-rounds}
use odbc.Params.{
  vector_length, Vector, logicals, integers, doubles, strings, raws, Class, Param, column, frame,
  Params, nil, cons, Bound, statement, Binder, Zones, Memory,
}
use odbc.Bind.Rounds.{extents}
use odbc.Bind.Meaning.{
  Value, readback, meaning, Fits, int_value, number_value, text_value, blob_value, time_value,
  date_value, stamp_value,
}
use odbc.Bind.Contract.{Contract, Entry, began, committed, ran}
use odbc.Bind.All.{AllFit, meaning_at}
use odbc.Bind.Executes.{Executes, Ran, AllIn}

abbrev pub values_of : Option Bound → List Value
values_of none = []
values_of (some b) = readback b

-- What a statement that is run reads from a column, over all its runs.
abbrev pub readings : ℕ → List Entry → List Value
readings col [] = []
readings col (began ∷ es) = readings col es
readings col (committed ∷ es) = readings col es
readings col (ran n row ∷ es) = values_of (row col) ++ readings col es

pub rounds-AllIn :
    (n fuel b start rest : ℕ) → (0 < rest → start + rest ≤ n) → AllIn n (rounds fuel b start rest)
rounds-AllIn n zero b start rest h = tt
rounds-AllIn n (suc fuel) b start zero h = tt
rounds-AllIn n (suc fuel) b start (suc rest) h =
    let g : start + suc rest ≤ n = h (omega arith) in
    (omega arith, rounds-AllIn n fuel b (start + b) (suc rest - b) (λ p. omega arith))

length-meaning :
    (zones : Zones) (info : Bool × ℕ) (precision : ℕ) (t : RType) (v : Vector)
    → Fits t v
    → length (meaning zones info precision t v) ≡ vector_length v
unfolding meaning
length-meaning zones info precision logical_t (logicals xs) f = length-map xs int_value
length-meaning zones info precision integer_t (integers xs) f = length-map xs int_value
length-meaning zones info precision double_t (doubles xs) f = length-map xs number_value
length-meaning zones info precision string_t (strings xs) f = length-map xs text_value
length-meaning zones info precision raw_t (raws xs) f = length-map xs blob_value
length-meaning zones info precision time_t (doubles xs) f = length-map xs time_value
length-meaning zones info precision date_double_t (doubles xs) f = length-map xs (date_value zones)
length-meaning zones info precision datetime_double_t (doubles xs) f =
    length-map xs (stamp_value zones info.0 precision info.1)
length-meaning zones info precision _ _ f = absurd f

pub rows_of :
    (n : ℕ) (ts : List RType) (x : Param) (xs : Params)
    → AllFit n ts (cons x xs)
    → get_parameter_rows (extents (cons x xs)) ≡ n
unfolding get_parameter_rows
rows_of n [] x xs f = absurd f
rows_of n (t ∷ ts) (frame ys) xs f = absurd f
rows_of n (t ∷ ts) (column v c) xs f = f.1

module _ {D : Type 0} {drv : Nanodbc D} {binder : Binder D} {k : Contract binder} {st : ℕ}
    (e : Executes drv k st) (zones : Zones) (mem : Memory) (timezone this : ℕ) where
  abbrev pub means : ℕ → RType → Vector → Class → List Value
  means = meaning_at k zones mem timezone (statement st)

  -- The statement has read each parameter as a whole.
  abbrev pub AllHeld : List RType → Params → ℕ → List Entry → Type 0
  AllHeld [] xs col es = Unit {0}
  AllHeld (t ∷ ts) nil col es = Unit {0}
  AllHeld (t ∷ ts) (cons (frame ys) xs) col es = ⊥
  AllHeld (t ∷ ts) (cons (column v c) xs) col es =
      (readings col es ≡ means col t v c) × AllHeld ts xs (col + 1) es

  abbrev pub AllRan : List RType → Params → ℕ → List (ℕ × ℕ) → List Entry → Type 0
  AllRan = Ran e zones mem timezone this

  first_column :
      (t : RType) (ts : List RType) (v : Vector) (c : Class) (xs : Params) (col : ℕ)
      (bs : List (ℕ × ℕ)) (es : List Entry)
      → AllRan (t ∷ ts) (cons (column v c) xs) col bs es
      → readings col es ≡ pieces bs (means col t v c)
  first_column t ts v c xs col [] [] h = refl
  first_column t ts v c xs col [] (x ∷ es) h = absurd h
  first_column t ts v c xs col (b ∷ bs) [] h = absurd h
  first_column t ts v c xs col (b ∷ bs) (began ∷ es) h = absurd h
  first_column t ts v c xs col (b ∷ bs) (committed ∷ es) h = absurd h
  first_column t ts v c xs col ((start, size) ∷ bs) (ran m row ∷ es) (q, ((what, p, r), a), h) =
      ap₂ (λ x y. x ++ y) (ap values_of p ∙ r) (first_column t ts v c xs col bs es h)

  other_columns :
      (t : RType) (ts : List RType) (v : Vector) (c : Class) (xs : Params) (col : ℕ)
      (bs : List (ℕ × ℕ)) (es : List Entry)
      → AllRan (t ∷ ts) (cons (column v c) xs) col bs es
      → AllRan ts xs (col + 1) bs es
  other_columns t ts v c xs col [] [] h = tt
  other_columns t ts v c xs col [] (x ∷ es) h = absurd h
  other_columns t ts v c xs col (b ∷ bs) [] h = absurd h
  other_columns t ts v c xs col (b ∷ bs) (began ∷ es) h = absurd h
  other_columns t ts v c xs col (b ∷ bs) (committed ∷ es) h = absurd h
  other_columns t ts v c xs col ((start, size) ∷ bs) (ran m row ∷ es) (q, (u, a), h) =
      (q, a, other_columns t ts v c xs col bs es h)

  pub Ran-AllHeld :
      (n b : ℕ) (ts : List RType) (xs : Params) (col : ℕ) (es : List Entry)
      → 0 < b
      → AllFit n ts xs
      → AllRan ts xs col (rounds (suc n) b 0 n) es
      → AllHeld ts xs col es
  Ran-AllHeld n b [] xs col es p f h = tt
  Ran-AllHeld n b (t ∷ ts) nil col es p f h = tt
  Ran-AllHeld n b (t ∷ ts) (cons (frame ys) xs) col es p f h = absurd f
  Ran-AllHeld n b (t ∷ ts) (cons (column v c) xs) col es p f h =
      let vs = means col t v c in
      let m : length vs ≡ n = length-meaning zones _ _ t v f.0 ∙ f.1 in
      (
        first_column t ts v c xs col (rounds (suc n) b 0 n) es h
            ∙ ap (λ r. pieces (rounds (suc r) b 0 r) vs) (sym m)
            ∙ pieces-rounds b vs p,
        Ran-AllHeld n b ts xs (col + 1) es p f.2
            (other_columns t ts v c xs col (rounds (suc n) b 0 n) es h),
      )

  -- The statement has run once for each batch of so many rows, for as many rows as the batch has and
  -- on those, with nothing else between the runs, which have read each parameter as a whole.
  abbrev pub Batched : ℕ → ℕ → List RType → Params → List Entry → Type 0
  Batched n b ts xs es = AllRan ts xs 0 (rounds (suc n) b 0 n) es × AllHeld ts xs 0 es
