-- ===== src/Fetch/Advance.antt =====
-- How the cursor moves: `nextResultSet`, and what happens between two rows.
use odbc.Prelude.{
  ℕ, zero, suc, ◌+◌, ◌≤◌, ◌<◌, ◌≡◌, refl, Bool, true, false, not, List, [], ◌∷◌, ◌++◌,
  if◌then◌else◌, arith, ◌==◌, length,
}
use odbc.Outcome.{Outcome, Sat, bind-Sat, ◌>>=◌}
use odbc.Nanodbc.{Rows}
use odbc.Fetch.{Cursor, set_complete}
use odbc.Fetch.Contract.{Contract, View}
use odbc.Fetch.Cells.{On}
use odbc.Fetch.Loop.{next_result_set, first_row, advance}

module _ {R : Type 0} where
  -- The rows of the result sets that have columns.
  abbrev pub rows_of : List (ℕ × List R) → List R
  rows_of [] = []
  rows_of ((w, xs) ∷ sets) = if w == 0 then rows_of sets else xs ++ rows_of sets

  -- The rows that are still to come.
  abbrev pub upcoming : View R → List R
  upcoming v = v.pending ++ rows_of v.later

module _ {D : Type 0} {rows : Rows D} {r : ℕ} {R : Type 0} (k : Contract rows r R) where
  -- `nextResultSet` has found the first of the rows `us`, or there are none.
  abbrev pub Found : List R → Bool → Cursor D → Type 0
  Found [] b c = b ≡ false
  Found (x ∷ us) b c = (b ≡ true) × On k x c × (upcoming (k.view c.driver) ≡ us)

  -- What nothing but a row's end changes, and the result sets left.
  abbrev pub Later : Cursor D → ℕ → Type 0
  Later c n = length (k.view c.driver).later ≤ n

  abbrev Search : List R → Cursor D → ℕ → Outcome Bool × Cursor D → Type 0
  Search us c n =
      Sat (λ b c'. Found us b c' × (c'.rows_fetched ≡ c.rows_fetched) × Later c' n) (λ _ _. ⊥)

  pub next_result_set-Found :
      (fuel : ℕ) (sets : List (ℕ × List R)) (c : Cursor D)
      → (k.view c.driver).later ≡ sets
      → length sets < fuel
      → Search (rows_of sets) c (length sets) (next_result_set rows r fuel c)
  unfolding next_result_set
  next_result_set-Found zero sets c e h = absurd (omega arith)
  next_result_set-Found (suc fuel) [] c e h = ground (arith, k.next_result_done c.driver)
  next_result_set-Found (suc fuel) ((w, []) ∷ sets) c e h =
      let d1 = (rows.next_result r c.driver).1 in
      let d2 = (rows.result_columns r d1).1 in
      let d3 = (rows.next r d2).1 in
      ground (
        arith,
        k.next_result_done c.driver,
        k.columns_done d1,
        k.next_done d2,
        next_result_set-Found fuel sets (record c { driver = d2 }),
        next_result_set-Found fuel sets (record c { driver = d3 }),
      )
  next_result_set-Found (suc fuel) ((w, y ∷ ys) ∷ sets) c e h =
      let d1 = (rows.next_result r c.driver).1 in
      let d2 = (rows.result_columns r d1).1 in
      let d3 = (rows.next r d2).1 in
      ground (
        arith,
        k.next_result_done c.driver,
        k.columns_done d1,
        k.next_done d2,
        next_result_set-Found fuel sets (record c { driver = d2 }),
        next_result_set-Found fuel sets (record c { driver = d3 }),
      )

  -- The rows `us` are still to be returned: the cursor is on the first of them.
  abbrev pub Reads : List R → Cursor D → Type 0
  Reads [] c = c.complete ≡ true
  Reads (x ∷ us) c = (c.complete ≡ false) × On k x c × (upcoming (k.view c.driver) ≡ us)

  -- Between two rows: one more row is counted, and the cursor goes on to the next row of the result
  -- set, or of a later one.
  abbrev pub Advanced : List R → Cursor D → ℕ → Outcome (Unit {0}) × Cursor D → Type 0
  Advanced us c counted =
      Sat
        (λ _ c'.
          Reads us c' × (c'.rows_fetched ≡ counted) × Later c' (length (k.view c.driver).later))
        (λ _ _. ⊥)

  found_or_not :
      (us : List R) (counted n fuel : ℕ) (c : Cursor D)
      → Search us c n (next_result_set rows r fuel c)
      → c.rows_fetched ≡ counted
      → Sat
          (λ _ c'. Reads us c' × (c'.rows_fetched ≡ counted) × Later c' n)
          (λ _ _. ⊥)
          ((do more ← next_result_set rows r fuel; set_complete (not more)) c)
  found_or_not us counted n fuel c h e =
      bind-Sat (λ b c'. Found us b c' × (c'.rows_fetched ≡ c.rows_fetched) × Later c' n)
        (λ _ c'. Reads us c' × (c'.rows_fetched ≡ counted) × Later c' n) (λ _ _. ⊥)
        (next_result_set rows r fuel) (λ more. set_complete (not more)) c h
        (λ more c' f. reads us more c' f)
    where
      reads :
          (us : List R) (more : Bool) (c' : Cursor D)
          → Found us more c' × (c'.rows_fetched ≡ c.rows_fetched) × Later c' n
          → Reads us (record c' { complete = not more }) × (c'.rows_fetched ≡ counted) × Later c' n
      reads [] more c' f = ground arith
      reads (x ∷ us) more c' f = ground arith

  pub advance-Advanced :
      (fuel : ℕ) (ps : List R) (sets : List (ℕ × List R)) (c : Cursor D)
      → (k.view c.driver).pending ≡ ps
      → (k.view c.driver).later ≡ sets
      → length sets < fuel
      → Advanced (ps ++ rows_of sets) c (c.rows_fetched + 1) (advance rows r fuel c)
  unfolding advance
  advance-Advanced fuel [] sets c e f h =
      let d1 = (rows.next r c.driver).1 in
      let d2 = (rows.check_user_interrupt d1).1 in
      let c1 = record c { driver = d1; rows_fetched = c.rows_fetched + 1; complete = true } in
      let c2 = record c1 { driver = d2 } in
      let n = length sets in
      ground (
        arith,
        k.next_done c.driver,
        k.uninterrupted d1,
        found_or_not (rows_of sets) (c.rows_fetched + 1) n fuel c1
            (next_result_set-Found fuel sets c1 (ground (arith, k.next_done c.driver)) h) refl,
        found_or_not (rows_of sets) (c.rows_fetched + 1) n fuel c2
            (next_result_set-Found fuel sets c2
              (ground (arith, k.next_done c.driver, k.uninterrupted d1)) h)
            refl,
      )
  advance-Advanced fuel (x ∷ ps) sets c e f h =
      ground (arith, k.next_done c.driver, k.uninterrupted (rows.next r c.driver).1)

  pub first_row-Advanced :
      (fuel : ℕ) (ps : List R) (sets : List (ℕ × List R)) (c : Cursor D)
      → (k.view c.driver).pending ≡ ps
      → (k.view c.driver).later ≡ sets
      → length sets < fuel
      → Advanced (ps ++ rows_of sets) c c.rows_fetched (first_row rows r fuel c)
  unfolding first_row
  first_row-Advanced fuel [] sets c e f h =
      let d1 = (rows.next r c.driver).1 in
      let c1 = record c { driver = d1 } in
      ground (
        arith,
        k.next_done c.driver,
        found_or_not (rows_of sets) c.rows_fetched (length sets) fuel c1
            (next_result_set-Found fuel sets c1 (ground (arith, k.next_done c.driver)) h) refl,
      )
  first_row-Advanced fuel (x ∷ ps) sets c e f h = ground (arith, k.next_done c.driver)
