-- ===== src/Fetch/Chunks.antt =====
-- Two fetches, one after the other: the second goes on where the first left the cursor.
use odbc.Prelude.{
  ℕ, ◌+◌, ◌^◌, ◌≤◌, ◌<◌, min, ◌≡◌, refl, sym, subst, ap, inr, true, List, [], ◌∷◌, ◌++◌, arith,
  length, length-drop, take, drop, take-append-drop,
}
use odbc.Prelude.Int.{pos, negsuc}
use odbc.Outcome.{M, Sat, Sat-mono, bind-Sat, pure, ◌>>=◌}
use odbc.Nanodbc.{Rows}
use odbc.Types.{RType}
use odbc.Fetch.{Cursor, Column}
use odbc.Fetch.Contract.{Contract}
use odbc.Fetch.Advance.{Reads}
use odbc.Fetch.Room.{AllReadable}
use odbc.Fetch.Held.{AllHold}
use odbc.Fetch.Loop.{result_to_dataframe}
use odbc.Fetch.Round.{later_sets}
use odbc.Fetch.Whole.{Awaits, result_to_dataframe_lem}

take-length : {A : Type 0} (xs : List A) → take (length xs) xs ≡ xs
take-length [] = refl
take-length (x ∷ xs) = ap (λ ys. x ∷ ys) (take-length xs)

drop-length : {A : Type 0} (xs : List A) → drop (length xs) xs ≡ []
drop-length [] = refl
drop-length (x ∷ xs) = drop-length xs

-- `fetch(a)`, and then all that is left.
abbrev pub in_two :
    {D : Type 0} → Rows D → ℕ → ℕ → List RType → ℕ → M (Cursor D) (List Column × List Column)
in_two rows r fuel types a = do
  first ← result_to_dataframe rows r fuel types (pos a)
  rest ← result_to_dataframe rows r fuel types (negsuc 0)
  pure (first, rest)

module _ {D : Type 0} {rows : Rows D} {r : ℕ} {R : Type 0} (k : Contract rows r R)
    (types : List RType) (readable : AllReadable types) where
  at_end : (xs : List R) (c : Cursor D) → xs ≡ [] → Reads k xs c → c.complete ≡ true
  at_end [] c e h = h
  at_end (x ∷ xs) c e h = absurd (ground (arith, e))

  abbrev Whole : List R → ℕ → Cursor D → List Column × List Column → Cursor D → Type 0
  Whole us m c out c' =
      AllHold k types 0 (take m us) out.0
      × AllHold k types 0 (drop m us) out.1
      × (take m us ++ drop m us ≡ us)
      × (c'.complete ≡ true)
      × (c'.rows_fetched ≡ c.rows_fetched + length us)

  two_calls :
      (us : List R) (fuel a : ℕ) (c : Cursor D)
      → Awaits k types readable us c
      → 0 < a
      → 0 < length us
      → length us + later_sets k types readable c < fuel
      → length us ≤ 2 ^ 30
      → Sat (Whole us (min a (length us)) c) (λ _ _. ⊥) (in_two rows r fuel types a c)
  two_calls us fuel a c waits some_asked some_left enough few =
      bind-Sat
        (λ out c1.
          AllHold k types 0 (take m us) out
          × Reads k (drop m us) c1
          × (c1.rows_fetched ≡ c.rows_fetched + m)
          × (later_sets k types readable c1 ≤ later_sets k types readable c))
        (Whole us m c) (λ _ _. ⊥) (result_to_dataframe rows r fuel types (pos a)) _ c
        (result_to_dataframe_lem k types readable us fuel (pos a) c waits some_asked enough
          (λ _. few))
        λ out c1 h.
          bind-Sat
            (λ out' c2.
              AllHold k types 0 (take (length left) left) out'
              × Reads k (drop (length left) left) c2
              × (c2.rows_fetched ≡ c1.rows_fetched + length left)
              × (later_sets k types readable c2 ≤ later_sets k types readable c1))
            (Whole us m c) (λ _ _. ⊥) (result_to_dataframe rows r fuel types (negsuc 0)) _ c1
            (result_to_dataframe_lem k types readable left fuel (negsuc 0) c1
              (inr (omega (arith, h.2, some_asked, some_left), h.1)) (omega arith)
              (omega (arith, enough, h.3, length-drop m us))
              (λ _. omega (arith, length-drop m us, few)))
            λ out' c2 g. (
              h.0,
              rw⁻¹ (take-length left) g.0,
              take-append-drop m us,
              at_end (drop (length left) left) c2 (drop-length left) g.1,
              omega (arith, g.2, h.2, length-drop m us),
            )
    where
      m : ℕ
      m = min a (length us)

      left : List R
      left = drop (min a (length us)) us

  one_call :
      (us : List R) (fuel : ℕ) (c : Cursor D)
      → Awaits k types readable us c
      → length us + later_sets k types readable c < fuel
      → length us ≤ 2 ^ 30
      → Sat
          (λ out c'.
            AllHold k types 0 us out
            × (c'.complete ≡ true)
            × (c'.rows_fetched ≡ c.rows_fetched + length us))
          (λ _ _. ⊥)
          (result_to_dataframe rows r fuel types (negsuc 0) c)
  one_call us fuel c waits enough few =
      Sat-mono _ _ (λ _ _. ⊥) (λ _ _. ⊥) (result_to_dataframe rows r fuel types (negsuc 0) c)
        (result_to_dataframe_lem k types readable us fuel (negsuc 0) c waits (omega arith) enough
          (λ _. few))
        (λ out c' h.
          (rw⁻¹ (take-length us) h.0, at_end (drop (length us) us) c' (drop-length us) h.1, h.2))
        (λ _ _ b. b)

  -- Over a cursor that behaves as documented, where the user does not interrupt and from one to
  -- 2 ^ 30 rows are awaited, a call for so many rows, of which one may be returned, and a call for all
  -- rows after it return: their data frames hold the first rows and those after them, which are one
  -- after the other the rows that one call for all rows holds in the same state. In both cases the
  -- result is then complete and every row is counted. The fuel suffices that one call needs.
  pub in_two-AllHold :
      (us : List R) (fuel a : ℕ) (c : Cursor D)
      → Awaits k types readable us c
      → 0 < a
      → 0 < length us
      → length us + later_sets k types readable c < fuel
      → length us ≤ 2 ^ 30
      → let m = min a (length us) in
        Sat
          (λ out c'.
            AllHold k types 0 (take m us) out.0
            × AllHold k types 0 (drop m us) out.1
            × (take m us ++ drop m us ≡ us)
            × (c'.complete ≡ true)
            × (c'.rows_fetched ≡ c.rows_fetched + length us))
          (λ _ _. ⊥)
          (in_two rows r fuel types a c)
        × Sat
            (λ out c'.
              AllHold k types 0 (take m us ++ drop m us) out
              × (c'.complete ≡ true)
              × (c'.rows_fetched ≡ c.rows_fetched + length us))
            (λ _ _. ⊥)
            (result_to_dataframe rows r fuel types (negsuc 0) c)
  in_two-AllHold us fuel a c waits some_asked some_left enough few = (
    two_calls us fuel a c waits some_asked some_left enough few,
    subst
        (λ xs.
          Sat
            (λ out c'.
              AllHold k types 0 xs out
              × (c'.complete ≡ true)
              × (c'.rows_fetched ≡ c.rows_fetched + length us))
            (λ _ _. ⊥) (result_to_dataframe rows r fuel types (negsuc 0) c))
        (sym (take-append-drop (min a (length us)) us)) (one_call us fuel c waits enough few),
  )
