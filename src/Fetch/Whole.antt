-- ===== src/Fetch/Whole.antt =====
-- `result_to_dataframe` as a whole: which rows it returns, and where it leaves the cursor.
use odbc.Prelude.{
  ℕ, ◌+◌, ◌^◌, ◌≤◌, ◌<◌, min, ◌≡◌, refl, ◌⊎◌, inl, inr, Bool, true, false, ◌&&◌, List, [],
  if◌then◌else◌, arith, length, take, drop, ltb, Bool-cases, ◌==◌,
}
use odbc.Prelude.Int.{ℤ, is_negative, pos_part}
use odbc.Outcome.{Outcome, Sat, Sat-mono, bind-Sat, pure}
use odbc.Nanodbc.{Rows}
use odbc.Types.{RType}
use odbc.Fetch.{Cursor, Column, create_dataframe, add_classes}
use odbc.Fetch.Contract.{Contract}
use odbc.Fetch.Advance.{upcoming, Reads, first_row-Advanced}
use odbc.Fetch.Room.{AllReadable}
use odbc.Fetch.Frame.{create-AllFilled}
use odbc.Fetch.Held.{AllHold, full-AllHold, trim-AllFilled}
use odbc.Fetch.Loop.{Loop, fetch_loop, initial_size, trim, start, first_row, result_to_dataframe}
use odbc.Fetch.Round.{Holding, later_sets}
use odbc.Fetch.Rounds.{Finished, fetch_loop-Finished}

module _ {D : Type 0} {rows : Rows D} {r : ℕ} {R : Type 0} (k : Contract rows r R)
    (types : List RType) (readable : AllReadable types) where
  -- How many of the rows `us` a call returns.
  abbrev pub request : ℤ → List R → ℕ
  request n_max us = if is_negative n_max then length us else min (pos_part n_max) (length us)

  -- The rows `us` are to be returned: none has been, and the cursor is before them; or the last
  -- call left it on the first of them.
  abbrev pub Awaits : List R → Cursor D → Type 0
  Awaits us c =
      ((c.rows_fetched ≡ 0) × (upcoming (k.view c.driver) ≡ us))
      ⊎ ((0 < c.rows_fetched) × Reads k us c)

  abbrev Started : List R → Cursor D → Outcome (Unit {0}) × Cursor D → Type 0
  Started us c =
      Sat
        (λ _ c'.
          Reads k us c'
          × (c'.rows_fetched ≡ c.rows_fetched)
          × (later_sets k types readable c' ≤ later_sets k types readable c))
        (λ _ _. ⊥)

  start-Started :
      (us : List R) (fuel n : ℕ) (c : Cursor D)
      → Awaits us c
      → 0 < n
      → later_sets k types readable c < fuel
      → Started us c (start rows r fuel n c)
  unfolding start
  start-Started us fuel n c (inl (e, p)) pos enough =
      pick_run (c.rows_fetched == 0 && ltb 0 n) (ground arith) (
        rw (← p) (
          first_row-Advanced k fuel (k.view c.driver).pending (k.view c.driver).later c refl refl
            enough))
    where
      pick_run :
          (b : Bool)
          → b ≡ true
          → Started us c (first_row rows r fuel c)
          → Started us c ((if b then first_row rows r fuel else pure tt) c)
      pick_run true e h = h
      pick_run false e h = cc
  start-Started us fuel n c (inr (e, p)) pos enough =
      pick_skip (c.rows_fetched == 0 && ltb 0 n) (ground arith)
    where
      pick_skip :
          (b : Bool) → b ≡ false → Started us c ((if b then first_row rows r fuel else pure tt) c)
      pick_skip true e = cc
      pick_skip false e = (p, refl, omega arith)

  trimmed :
      (vs : List R) (v : Loop)
      → Holding k types readable vs v
      → AllHold k types 0 vs (add_classes (trim v) types)
  trimmed vs v h = elim (Bool-cases (ltb v.row v.n)) [
    | inl e ↦ rw e (
        full-AllHold k types 0 vs _ (rw h.counted (trim-AllFilled k types 0 v.n vs v.out h.filled)))
    | inr e ↦
        let n_eq : length vs ≡ v.n = ground (arith, h.counted, h.fits) in
        rw e (full-AllHold k types 0 vs v.out (rw n_eq h.filled))
  ]

  pub result_to_dataframe_lem :
      (us : List R) (fuel : ℕ) (n_max : ℤ) (c : Cursor D)
      → Awaits us c
      → 0 < initial_size n_max
      → length us + later_sets k types readable c < fuel
      → (is_negative n_max ≡ true → length us ≤ 2 ^ 30)
      → Sat
          (λ out c'.
            AllHold k types 0 (take (request n_max us) us) out
            × Reads k (drop (request n_max us) us) c'
            × (c'.rows_fetched ≡ c.rows_fetched + request n_max us)
            × (later_sets k types readable c' ≤ later_sets k types readable c))
          (λ _ _. ⊥)
          (result_to_dataframe rows r fuel types n_max c)
  unfolding result_to_dataframe
  result_to_dataframe_lem us fuel n_max c waits pos enough few =
      let n = initial_size n_max in
      let v0 : Loop = record { row = 0; n = n; out = create_dataframe types n } in
      bind-Sat
        (λ _ c'.
          Reads k us c'
          × (c'.rows_fetched ≡ c.rows_fetched)
          × (later_sets k types readable c' ≤ later_sets k types readable c))
        Goal (λ _ _. ⊥) (start rows r fuel n) _ c
        (start-Started us fuel n c waits pos (omega arith))
        (λ _ c' s.
          bind-Sat
            (λ v c''.
              Finished k types readable [] us (request n_max us) n
                (c'.rows_fetched + request n_max us) (later_sets k types readable c') v c'')
            Goal (λ _ _. ⊥) (fetch_loop rows r fuel types n_max v0) _ c'
            (fetch_loop-Finished k types readable us fuel n_max [] v0 c' (request n_max us)
              (record { filled = create-AllFilled k types 0 n; counted = refl; fits = omega arith })
              (inl pos) s.0 (omega (arith, s.2)) (ground arith) (λ g. omega (arith, few g)))
            (λ v c'' f. (
              trimmed _ v f.holding,
              f.reads,
              omega (arith, f.count, s.1),
              omega (arith, f.fewer, s.2),
            )))
    where
      Goal : List Column → Cursor D → Type 0
      Goal out c' =
          AllHold k types 0 (take (request n_max us) us) out
          × Reads k (drop (request n_max us) us) c'
          × (c'.rows_fetched ≡ c.rows_fetched + request n_max us)
          × (later_sets k types readable c' ≤ later_sets k types readable c)

  -- Over a cursor that behaves as documented, where the user does not interrupt and the rows `us`
  -- are awaited, at most 2 ^ 30 of them if the call is for all, a call that may return a row returns the next rows, as many as were asked for, with
  -- a cell for each column and row, the vector and the class of the column's type; the cursor is
  -- left on the first row that was not returned, or the result is complete; and the rows are
  -- counted. The fuel suffices if it exceeds the rows and result sets that are left.
  pub result_to_dataframe-AllHold :
      (us : List R) (fuel : ℕ) (n_max : ℤ) (c : Cursor D)
      → Awaits us c
      → 0 < initial_size n_max
      → length us + later_sets k types readable c < fuel
      → (is_negative n_max ≡ true → length us ≤ 2 ^ 30)
      → Sat
          (λ out c'.
            AllHold k types 0 (take (request n_max us) us) out
            × Reads k (drop (request n_max us) us) c'
            × (c'.rows_fetched ≡ c.rows_fetched + request n_max us))
          (λ _ _. ⊥)
          (result_to_dataframe rows r fuel types n_max c)
  result_to_dataframe-AllHold us fuel n_max c waits pos enough few =
      Sat-mono
        (λ out c'.
          AllHold k types 0 (take (request n_max us) us) out
          × Reads k (drop (request n_max us) us) c'
          × (c'.rows_fetched ≡ c.rows_fetched + request n_max us)
          × (later_sets k types readable c' ≤ later_sets k types readable c))
        (λ out c'.
          AllHold k types 0 (take (request n_max us) us) out
          × Reads k (drop (request n_max us) us) c'
          × (c'.rows_fetched ≡ c.rows_fetched + request n_max us))
        (λ _ _. ⊥) (λ _ _. ⊥) (result_to_dataframe rows r fuel types n_max c)
        (result_to_dataframe_lem us fuel n_max c waits pos enough few) (λ _ _ h. (h.0, h.1, h.2))
        (λ _ _ b. b)
