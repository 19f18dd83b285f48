-- ===== src/Fetch/Held.antt =====
-- The data frame that the caller gets: cut to its rows, with its classes.
use odbc.Prelude.{
  ℕ, ◌+◌, ◌≡◌, refl, sym, ◌∙◌, ap, List, [], ◌∷◌, ◌++◌, map, append-nil, arith, length, length-map,
}
use odbc.Nanodbc.{Rows}
use odbc.Types.{RType, storage, column_class}
use odbc.Fetch.{Cell, Column, length_gets, resize_column, resize_dataframe, add_classes, padding}
use odbc.Fetch.Contract.{Contract}
use odbc.Fetch.Room.{Blank-nil, length_gets-append}
use odbc.Fetch.Frame.{cell_at, Filled, AllFilled}

module _ {D : Type 0} {rows : Rows D} {r : ℕ} {R : Type 0} (k : Contract rows r R) where
  -- The columns that the caller gets: the cells of the rows `vs`, and nothing else.
  pub record Holds (t : RType) (j : ℕ) (vs : List R) (c : Column) : Type 0 where
    pub cells_are : c.cells ≡ map (cell_at k t j) vs
    pub kind_is : c.kind ≡ storage t
    pub class_is : c.class ≡ column_class t

  abbrev pub AllHold : List RType → ℕ → List R → List Column → Type 0
  AllHold [] j vs [] = Unit {0}
  AllHold [] j vs (c ∷ cs) = ⊥
  AllHold (t ∷ ts) j vs [] = ⊥
  AllHold (t ∷ ts) j vs (c ∷ cs) = Holds t j vs c × AllHold ts (j + 1) vs cs

  full-Holds :
      (t : RType) (j : ℕ) (vs : List R) (c : Column) (rest : List Cell)
      → c.cells ≡ map (cell_at k t j) vs ++ rest
      → length vs + length rest ≡ length vs
      → c.kind ≡ storage t
      → Holds t j vs (record c { class = column_class t })
  full-Holds t j vs c [] e q g = record {
    cells_are = e ∙ append-nil _;
    kind_is = g;
    class_is = refl;
  }
  full-Holds t j vs c (y ∷ ys) e q g = absurd (omega arith)

  pub full-AllHold :
      (ts : List RType) (j : ℕ) (vs : List R) (cs : List Column)
      → AllFilled k ts j vs (length vs) cs
      → AllHold ts j vs (add_classes cs ts)
  unfolding add_classes
  full-AllHold [] j vs [] f = tt
  full-AllHold [] j vs (c ∷ cs) f = f
  full-AllHold (t ∷ ts) j vs [] f = f
  full-AllHold (t ∷ ts) j vs (c ∷ cs) (f, fs) =
      (full-Holds t j vs c f.rest f.cells_eq f.room f.kind_eq, full-AllHold ts (j + 1) vs cs fs)

  trim-Filled :
      (t : RType) (j n : ℕ) (vs : List R) (c : Column)
      → Filled k t j vs n c
      → Filled k t j vs (length vs) (resize_column (length vs) c)
  unfolding resize_column
  trim-Filled t j n vs c f = record {
    rest = [];
    cells_eq =
        ap (λ l. length_gets (padding c.kind) (length vs) l) f.cells_eq
        ∙ ap (λ m. length_gets (padding c.kind) m (map (cell_at k t j) vs ++ f.rest))
            (sym (length-map vs (cell_at k t j)))
        ∙ length_gets-append (padding c.kind) (map (cell_at k t j) vs) f.rest
        ∙ sym (append-nil _);
    blank = Blank-nil (storage t);
    room = omega arith;
    kind_eq = f.kind_eq;
    class_eq = f.class_eq;
  }

  pub trim-AllFilled :
      (ts : List RType) (j n : ℕ) (vs : List R) (cs : List Column)
      → AllFilled k ts j vs n cs
      → AllFilled k ts j vs (length vs) (resize_dataframe (length vs) cs)
  unfolding resize_dataframe
  trim-AllFilled [] j n vs [] f = tt
  trim-AllFilled [] j n vs (c ∷ cs) f = f
  trim-AllFilled (t ∷ ts) j n vs [] f = f
  trim-AllFilled (t ∷ ts) j n vs (c ∷ cs) (f, fs) =
      (trim-Filled t j n vs c f, trim-AllFilled ts (j + 1) n vs cs fs)
