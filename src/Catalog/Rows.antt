-- ===== src/Catalog/Rows.antt =====
-- The rows of a catalog's result, and the loop over them.
use odbc.Prelude.{
  ℕ, zero, suc, ◌<◌, ◌≡◌, refl, ◌∙◌, true, false, Option, some, List, [], ◌∷◌, length, arith,
}
use odbc.Prelude.Int.{ℤ}
use odbc.Outcome.{M, Sat, bind-Sat, ◌>>=◌}
use odbc.Nanodbc.{Reply, done, Text}
use odbc.Session.{Session, call}
use odbc.Catalog.{Catalog, TableText, ColumnText, ColumnNumber, while_next}

-- What nanodbc documents of the rows of a result: those ahead, and the one that it stands at.
pub record Listing {D : Type 0} (c : Catalog D) (h : ℕ) (Row : Type 0) : Type 0 where
  pub rows : D → List Row
  pub current : D → Option Row
  pub next_none : (d : D) → rows d ≡ [] → (d' : D) × (c.next_row h d ≡ (done false, d'))
  pub next_some :
      (d : D) (r : Row) (rs : List Row)
      → rows d ≡ r ∷ rs
      → (d' : D) × (c.next_row h d ≡ (done true, d')) × (current d' ≡ some r) × (rows d' ≡ rs)

-- The cells of a row, by their columns; a row of `columns` has texts and numbers.
abbrev pub TableRow : Type 0
TableRow = TableText → Text

pub record ColumnRow : Type 0 where
  pub texts : ColumnText → Text
  pub numbers : ColumnNumber → ℤ

module _ {D Row : Type 0} {c : Catalog D} {h : ℕ} (l : Listing c h Row) where
  -- The result stands at `r`, with `rs` ahead.
  abbrev pub At : Row → List Row → Session D → Type 0
  At r rs s = (l.current s.driver ≡ some r) × (l.rows s.driver ≡ rs)

  -- A call reads a cell of the current row, and stays there.
  abbrev pub Reads : {A : Type 0} → (D → Reply A × D) → (Row → A) → Type 0
  Reads f cell =
      (d : D) (r : Row)
      → l.current d ≡ some r
      → (d' : D) × (f d ≡ (done (cell r), d')) × (l.current d' ≡ some r) × (l.rows d' ≡ l.rows d)

  -- The rest of a row's reading, after one cell.
  pub read_then :
      {A V : Type 0} (f : D → Reply A × D) (cell : Row → A) (r : Row) (rs : List Row)
      (Q : V → Session D → Type 0) (rest : A → M (Session D) V)
      → Reads f cell
      → ((s : Session D) → At r rs s → Sat Q (λ _ _. ⊥) (rest (cell r) s))
      → (s : Session D) → At r rs s
      → Sat Q (λ _ _. ⊥) ((call f >>= rest) s)
  read_then f cell r rs Q rest reads k s at =
      let x = reads s.driver r at.0 in rw x.1 (k (record s { driver = x.0 }) (x.2, x.3 ∙ at.1))

-- All rows into the vectors.
abbrev pub push_rows : {V Row : Type 0} → (V → Row → V) → V → List Row → V
push_rows push v [] = v
push_rows push v (r ∷ rs) = push_rows push (push v r) rs

module _ {D Row V : Type 0} {c : Catalog D} {h : ℕ} (l : Listing c h Row)
    (body : V → M (Session D) V) (push : V → Row → V)
    (pushes : (v : V) (r : Row) (rs : List Row) (s : Session D)
      → At l r rs s
      → Sat (λ v' s'. (v' ≡ push v r) × (l.rows s'.driver ≡ rs)) (λ _ _. ⊥) (body v s)) where
  -- The loop pushes each row once, in order, and ends.
  pub while_next_lem :
      (fuel : ℕ) (v : V) (rs : List Row) (s : Session D)
      → l.rows s.driver ≡ rs
      → length rs < fuel
      → Sat (λ v' _. v' ≡ push_rows push v rs) (λ _ _. ⊥) (while_next c h body fuel v s)
  unfolding while_next
  while_next_lem zero v rs s e enough = absurd (omega (arith, enough))
  while_next_lem (suc fuel) v [] s e enough = let x = l.next_none s.driver e in rw x.1 refl
  while_next_lem (suc fuel) v (r ∷ rs) s e enough =
      let x = l.next_some s.driver r rs e in
      let s' = record s { driver = x.0 } in
      rw x.1 (
        bind-Sat (λ v' s''. (v' ≡ push v r) × (l.rows s''.driver ≡ rs))
          (λ v' _. v' ≡ push_rows push v (r ∷ rs)) (λ _ _. ⊥) (body v) (while_next c h body fuel) s'
          (pushes v r rs s' (x.2, x.3))
          (λ v' s'' k. rw k.0 (while_next_lem fuel (push v r) rs s'' k.1 (omega (arith, enough)))))
