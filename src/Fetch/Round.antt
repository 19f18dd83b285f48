-- ===== src/Fetch/Round.antt =====
-- One round of the loop of `result_to_dataframe`: more room, and a row.
use odbc.Prelude.{
  ℕ, ◌+◌, ◌*◌, ◌≤◌, ◌<◌, ◌≡◌, refl, sym, ◌∙◌, ap, inl, inr, List, [], ◌∷◌, ◌++◌, arith, length,
  length-append, leb, Bool-cases,
}
use odbc.Outcome.{Sat, bind-Sat}
use odbc.Nanodbc.{Rows}
use odbc.Types.{RType}
use odbc.Fetch.{Cursor, Column, assign_row}
use odbc.Fetch.Contract.{Contract}
use odbc.Fetch.Cells.{Unmoved}
use odbc.Fetch.Advance.{upcoming, Reads, Later, advance-Advanced}
use odbc.Fetch.Room.{AllReadable}
use odbc.Fetch.Frame.{AllFilled, put_row, assign_row-Gives, put_row-AllFilled, resize-AllFilled}
use odbc.Fetch.Loop.{Loop, advance, grow, one_row}

module _ {D : Type 0} {rows : Rows D} {r : ℕ} {R : Type 0} (k : Contract rows r R)
    (types : List RType) (readable : AllReadable types) where
  -- The frame holds the rows `vs`, and the counter agrees.
  pub record Holding (vs : List R) (v : Loop) : Type 0 where
    pub filled : AllFilled k types 0 vs v.n v.out
    pub counted : v.row ≡ length vs
    pub fits : v.row ≤ v.n

  pub grow-Holding : (vs : List R) (v : Loop) → Holding vs v → Holding vs (grow v)
  grow-Holding vs v h = elim (Bool-cases (leb v.n v.row)) [
    | inl e ↦ rw e (record {
      filled = resize-AllFilled k types 0 v.n (v.n * 2) vs v.out (omega arith) h.filled;
      counted = h.counted;
      fits = omega (arith, h.fits);
    })
    | inr e ↦ rw e h
  ]

  abbrev pub later_sets : Cursor D → ℕ
  later_sets c = length (k.view c.driver).later

  pub one_row-Holding :
      (fuel : ℕ) (vs us : List R) (x : R) (v : Loop) (c : Cursor D)
      → Holding vs v
      → v.row < v.n
      → Reads k (x ∷ us) c
      → later_sets c < fuel
      → Sat
          (λ v' c'.
            (Holding (vs ++ (x ∷ [])) v' × (v'.n ≡ v.n))
            × Reads k us c'
            × (c'.rows_fetched ≡ c.rows_fetched + 1)
            × (later_sets c' ≤ later_sets c))
          (λ _ _. ⊥)
          (one_row rows r fuel types v c)
  unfolding one_row
  one_row-Holding fuel vs us x v c h room reads enough =
      bind-Sat (λ out c'. (out ≡ put_row k types 0 x v.row v.out) × Unmoved k c c') Goal (λ _ _. ⊥)
        (assign_row rows r types 0 v.row v.out) _ c
        (assign_row-Gives k types 0 v.row x v.out c reads.1)
        (λ out c' g.
          bind-Sat
            (λ _ c''.
              Reads k us c''
              × (c''.rows_fetched ≡ c'.rows_fetched + 1)
              × Later k c'' (later_sets c'))
            Goal (λ _ _. ⊥) (advance rows r fuel) _ c'
            (rw (sym (behind c' g.1)) (
              advance-Advanced k fuel (k.view c'.driver).pending (k.view c'.driver).later c' refl
                refl (omega (arith, ap (λ w. length w.later) g.1.same_view))))
            (λ _ c'' a. (
              (next_row out g.0, refl),
              a.0,
              a.1 ∙ ap (λ m. m + 1) g.1.same_count,
              omega (arith, a.2, ap (λ w. length w.later) g.1.same_view),
            )))
    where
      Goal : Loop → Cursor D → Type 0
      Goal v' c' =
          (Holding (vs ++ (x ∷ [])) v' × (v'.n ≡ v.n))
          × Reads k us c'
          × (c'.rows_fetched ≡ c.rows_fetched + 1)
          × (later_sets c' ≤ later_sets c)

      behind : (c' : Cursor D) → Unmoved k c c' → upcoming (k.view c'.driver) ≡ us
      behind c' u = ap upcoming u.same_view ∙ reads.2

      next_row :
          (out : List Column)
          → out ≡ put_row k types 0 x v.row v.out
          → Holding (vs ++ (x ∷ [])) (record v { row = v.row + 1; out = out })
      next_row out e = record {
        filled = rw (e ∙ ap (λ m. put_row k types 0 x m v.out) h.counted) (
            put_row-AllFilled k types 0 v.n vs x v.out readable (omega (arith, h.counted))
              h.filled);
        counted = omega (arith, length-append vs (x ∷ []), h.counted);
        fits = omega arith;
      }
