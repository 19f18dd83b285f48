-- ===== src/Fetch/Frame.antt =====
-- The data frame while it is filled: the rows read so far, and room for more.
use odbc.Prelude.{
  ℕ, ◌+◌, ◌-◌, ◌≤◌, ◌<◌, ◌≡◌, refl, sym, ◌∙◌, ap, Option, none, some, List, [], ◌∷◌, ◌++◌, map,
  append_assoc, arith, length, length-append, set, replicate, length-replicate, length-map,
}
use mathlib.Core.List.{map-append}
use odbc.Nanodbc.{Rows}
use odbc.Types.{RType, storage, Reader, reader, no_class, raw_t}
use odbc.Fetch.{
  Cell, null, Column, Cursor, create_column, create_dataframe, resize_column, resize_dataframe,
  allocated, padding, read_cell, write_cell, assign_by, assign, assign_row,
}
use odbc.Fetch.Contract.{Contract}
use odbc.Fetch.Cells.{Unmoved-refl, Gives, On, On-Unmoved, then_Gives, cell_of, read_cell-Gives}
use odbc.Fetch.Room.{
  Blank, Blank-replicate, Blank-pad, Blank-tail, AllReadable, or_null, set-append, length_gets-pad,
}

module _ {D : Type 0} {rows : Rows D} {r : ℕ} {R : Type 0} (k : Contract rows r R) where
  -- What stands in the column `j`, of type `t`, for a row.
  abbrev pub cell_at : RType → ℕ → R → Cell
  cell_at t j x = elim (reader t) [ none ↦ null | some f ↦ or_null (cell_of k x j f) ]

  -- The column holds the rows `vs` and has room for `n`.
  pub record Filled (t : RType) (j : ℕ) (vs : List R) (n : ℕ) (c : Column) : Type 0 where
    pub rest : List Cell
    pub cells_eq : c.cells ≡ map (cell_at t j) vs ++ rest
    pub blank : Blank (storage t) rest
    pub room : length vs + length rest ≡ n
    pub kind_eq : c.kind ≡ storage t
    pub class_eq : c.class ≡ no_class

  abbrev pub AllFilled : List RType → ℕ → List R → ℕ → List Column → Type 0
  AllFilled [] j vs n [] = Unit {0}
  AllFilled [] j vs n (c ∷ cs) = ⊥
  AllFilled (t ∷ ts) j vs n [] = ⊥
  AllFilled (t ∷ ts) j vs n (c ∷ cs) = Filled t j vs n c × AllFilled ts (j + 1) vs n cs

  pub create-AllFilled : (ts : List RType) (j n : ℕ) → AllFilled ts j [] n (create_dataframe ts n)
  unfolding create_dataframe create_column
  create-AllFilled [] j n = tt
  create-AllFilled (t ∷ ts) j n = (
    record {
      rest = replicate n (allocated (storage t));
      cells_eq = refl;
      blank = Blank-replicate (storage t) n;
      room = omega (arith, length-replicate n (allocated (storage t)));
      kind_eq = refl;
      class_eq = refl;
    },
    create-AllFilled ts (j + 1) n,
  )

  -- The pure effect of the `assign_` functions on one column and on all.
  abbrev pub put_by : Option Reader → ℕ → R → ℕ → Column → Column
  put_by none j x row c = c
  put_by (some f) j x row c = write_cell rows r (cell_of k x j f) row c

  abbrev pub put_row : List RType → ℕ → R → ℕ → List Column → List Column
  put_row [] j x row cs = cs
  put_row (t ∷ ts) j x row [] = []
  put_row (t ∷ ts) j x row (c ∷ cs) = put_by (reader t) j x row c ∷ put_row ts (j + 1) x row cs

  assign_by-Gives :
      (o : Option Reader) (j row : ℕ) (x : R) (c : Column) (s : Cursor D)
      → On k x s
      → Gives k s (put_by o j x row c) (assign_by rows r o j row c s)
  unfolding assign_by
  assign_by-Gives none j row x c s h = (refl, Unmoved-refl k s)
  assign_by-Gives (some f) j row x c s h =
      then_Gives k s (cell_of k x j f) _ (read_cell rows r f j) _ (read_cell-Gives k x j f s h)
        (λ s' u. (refl, Unmoved-refl k s'))

  pub assign_row-Gives :
      (ts : List RType) (j row : ℕ) (x : R) (cs : List Column) (s : Cursor D)
      → On k x s
      → Gives k s (put_row ts j x row cs) (assign_row rows r ts j row cs s)
  unfolding assign_row assign
  assign_row-Gives [] j row x cs s h = (refl, Unmoved-refl k s)
  assign_row-Gives (t ∷ ts) j row x [] s h = (refl, Unmoved-refl k s)
  assign_row-Gives (t ∷ ts) j row x (c ∷ cs) s h =
      then_Gives k s (put_by (reader t) j x row c) _ (assign_by rows r (reader t) j row c) _
        (assign_by-Gives (reader t) j row x c s h)
        (λ s' u.
          then_Gives k s' (put_row ts (j + 1) x row cs) _ (assign_row rows r ts (j + 1) row cs) _
            (assign_row-Gives ts (j + 1) row x cs s' (On-Unmoved k x s s' h u))
            (λ s'' u'. (refl, Unmoved-refl k s'')))

  written_cells :
      (o : Option Cell) (xs ys : List Cell) (y : Cell) (c : Column)
      → c.cells ≡ xs ++ (y ∷ ys)
      → (o ≡ none → y ≡ null)
      → (write_cell rows r o (length xs) c).cells ≡ xs ++ (or_null o ∷ ys)
  written_cells none xs ys y c e h = e ∙ ap (λ z. xs ++ (z ∷ ys)) (h refl)
  written_cells (some v) xs ys y c e h = ap (λ l. set l (length xs) v) e ∙ set-append xs ys y v

  written_kind :
      (o : Option Cell) (row : ℕ) (c : Column)
      → ((write_cell rows r o row c).kind ≡ c.kind) × ((write_cell rows r o row c).class ≡ c.class)
  written_kind none row c = (refl, refl)
  written_kind (some v) row c = (refl, refl)

  -- Only NULL in a raw column is left unwritten, and there the place holds NULL.
  unwritten-null :
      (t : RType) (f : Reader) (j : ℕ) (x : R) (y : Cell) (ys : List Cell)
      → reader t ≡ some f
      → Blank (storage t) (y ∷ ys)
      → cell_of k x j f ≡ none
      → y ≡ null
  unfolding reader storage
  unwritten-null raw_t f j x y ys e b g = b.0
  unwritten-null t f j x y ys e b g = absurd (ground arith)

  cell_at-reader :
      (t : RType) (f : Reader) (j : ℕ) (x : R)
      → reader t ≡ some f
      → cell_at t j x ≡ or_null (cell_of k x j f)
  cell_at-reader t f j x e = rw (e, cell_at)

  -- A row put at the first free place fills it.
  put-Filled :
      (t : RType) (f : Reader) (j n : ℕ) (vs : List R) (x : R) (c : Column)
      → reader t ≡ some f
      → (rest : List Cell) → c.cells ≡ map (cell_at t j) vs ++ rest
      → Blank (storage t) rest
      → length vs + length rest ≡ n
      → c.kind ≡ storage t
      → c.class ≡ no_class
      → length vs < n
      → Filled t j (vs ++ (x ∷ [])) n (put_by (some f) j x (length vs) c)
  put-Filled t f j n vs x c e [] p b q kd cl h = absurd (omega arith)
  put-Filled t f j n vs x c e (y ∷ ys) p b q kd cl h = record {
    rest = ys;
    cells_eq =
        ap (λ m. (write_cell rows r (cell_of k x j f) m c).cells)
          (sym (length-map vs (cell_at t j)))
        ∙ written_cells (cell_of k x j f) (map (cell_at t j) vs) ys y c p
            (unwritten-null t f j x y ys e b)
        ∙ one_more;
    blank = Blank-tail (storage t) y ys b;
    room = omega (arith, length-append vs (x ∷ []));
    kind_eq = (written_kind (cell_of k x j f) (length vs) c).0 ∙ kd;
    class_eq = (written_kind (cell_of k x j f) (length vs) c).1 ∙ cl;
  }
    where
      one_more :
          map (cell_at t j) vs ++ (or_null (cell_of k x j f) ∷ ys)
          ≡ map (cell_at t j) (vs ++ (x ∷ [])) ++ ys
      one_more =
          simp (map-append, append_assoc)
            (ap (λ z. map (cell_at t j) vs ++ (z ∷ ys)) (sym (cell_at-reader t f j x e)))

  pub put_row-AllFilled :
      (ts : List RType) (j n : ℕ) (vs : List R) (x : R) (cs : List Column)
      → AllReadable ts
      → length vs < n
      → AllFilled ts j vs n cs
      → AllFilled ts j (vs ++ (x ∷ [])) n (put_row ts j x (length vs) cs)
  put_row-AllFilled [] j n vs x [] a h f = tt
  put_row-AllFilled [] j n vs x (c ∷ cs) a h f = f
  put_row-AllFilled (t ∷ ts) j n vs x [] a h f = f
  put_row-AllFilled (t ∷ ts) j n vs x (c ∷ cs) a h (f, fs) = (
    rw a.0.1 (
        put-Filled t a.0.0 j n vs x c a.0.1 f.rest f.cells_eq f.blank f.room f.kind_eq f.class_eq
          h),
    put_row-AllFilled ts (j + 1) n vs x cs a.1 h fs,
  )

  length-cells :
      (t : RType) (j n : ℕ) (vs : List R) (c : Column) → Filled t j vs n c → length c.cells ≡ n
  length-cells t j n vs c f = omega (
    arith,
    ap length f.cells_eq,
    length-append (map (cell_at t j) vs) f.rest,
    length-map vs (cell_at t j),
    f.room,
  )

  -- More room.
  resize-Filled :
      (t : RType) (j n m : ℕ) (vs : List R) (c : Column)
      → n ≤ m
      → Filled t j vs n c
      → Filled t j vs m (resize_column m c)
  unfolding resize_column
  resize-Filled t j n m vs c h f = record {
    rest = f.rest ++ replicate (m - length c.cells) (padding (storage t));
    cells_eq =
        length_gets-pad (padding c.kind) c.cells m (omega (arith, length-cells t j n vs c f))
        ∙ ap (λ l. l ++ replicate (m - length c.cells) (padding c.kind)) f.cells_eq
        ∙ append_assoc (map (cell_at t j) vs) f.rest _
        ∙ ap (λ q. map (cell_at t j) vs ++ (f.rest ++ replicate (m - length c.cells) (padding q)))
            f.kind_eq;
    blank = Blank-pad (storage t) f.rest (m - length c.cells) f.blank;
    room = omega (
      arith,
      length-cells t j n vs c f,
      length-append f.rest (replicate (m - length c.cells) (padding (storage t))),
      length-replicate (m - length c.cells) (padding (storage t)),
    );
    kind_eq = f.kind_eq;
    class_eq = f.class_eq;
  }

  pub resize-AllFilled :
      (ts : List RType) (j n m : ℕ) (vs : List R) (cs : List Column)
      → n ≤ m
      → AllFilled ts j vs n cs
      → AllFilled ts j vs m (resize_dataframe m cs)
  unfolding resize_dataframe
  resize-AllFilled [] j n m vs [] h f = tt
  resize-AllFilled [] j n m vs (c ∷ cs) h f = f
  resize-AllFilled (t ∷ ts) j n m vs [] h f = f
  resize-AllFilled (t ∷ ts) j n m vs (c ∷ cs) h (f, fs) =
      (resize-Filled t j n m vs c h f, resize-AllFilled ts (j + 1) n m vs cs h fs)
