-- ===== src/Fetch/Contract.antt =====
-- What the loop of `result_to_dataframe` relies on of a nanodbc::result, as nanodbc documents it:
-- a cursor over the rows of a sequence of result sets.
use odbc.Prelude.{ℕ, ◌≡◌, Bool, true, false, ◌&&◌, Option, none, some, List, [], ◌∷◌}
use odbc.Nanodbc.{done, Text, TimestampOffset, Double, CType, CValue, Rows}

-- Where the cursor stands: on a row or not, what its result set has behind it, the result sets that
-- follow, each with its number of columns, and the number of columns of its own.
pub record View (R : Type 0) : Type 0 where
  pub current : Option R
  pub pending : List R
  pub later : List (ℕ × List R)
  pub width : ℕ

abbrev pub any_left : {A : Type 0} → List A → Bool
any_left [] = false
any_left (x ∷ xs) = true

module _ {R : Type 0} where
  -- `next`: to the next row of the result set.
  abbrev pub shift : List R → View R → View R
  shift [] v = record v { current = none }
  shift (x ∷ xs) v = record v { current = some x; pending = xs }

  -- `next_result`: before the first row of the next result set.
  abbrev pub enter : List (ℕ × List R) → View R → View R
  enter [] v = v
  enter ((k, xs) ∷ sets) v = record { current = none; pending = xs; later = sets; width = k }

pub record Contract {D : Type 0} (rows : Rows D) (r : ℕ) (R : Type 0) : Type 0 where
  pub view : D → View R
  pub next_done :
      (d : D)
      → ((rows.next r d).0 ≡ done (any_left (view d).pending))
        × (view (rows.next r d).1 ≡ shift (view d).pending (view d))
  pub next_result_done :
      (d : D)
      → ((rows.next_result r d).0 ≡ done (any_left (view d).later))
        × (view (rows.next_result r d).1 ≡ enter (view d).later (view d))
  pub columns_done :
      (d : D)
      → ((rows.result_columns r d).0 ≡ done (view d).width)
        × (view (rows.result_columns r d).1 ≡ view d)
  -- The user does not interrupt.
  pub uninterrupted :
      (d : D)
      → ((rows.check_user_interrupt d).0 ≡ done tt)
        × (view (rows.check_user_interrupt d).1 ≡ view d)
  -- The fields of a row, by column.
  pub null : R → ℕ → Bool
  pub value : (t : CType) → R → ℕ → CValue t
  pub encoded : Text → Text
  pub time_value : TimestampOffset → Double
  -- Whether the null flag of a column is in place. Where a column is not bound, it is so only once the
  -- value has been asked for, and until then no null is reported.
  pub told : D → ℕ → Bool
  pub is_null_done :
      (d : D) (x : R) (col : ℕ)
      → (view d).current ≡ some x
      → ((rows.is_null r col d).0 ≡ done (null x col && told d col))
        × (view (rows.is_null r col d).1 ≡ view d)
        × (told (rows.is_null r col d).1 col ≡ told d col)
  -- What a null that is not reported yet is read as is left open.
  pub fetch_value_done :
      (d : D) (x : R) (t : CType) (col : ℕ)
      → (view d).current ≡ some x
      → (null x col && told d col) ≡ false
      → (v : CValue t) × ((rows.fetch_value t r col d).0 ≡ done v)
        × (null x col ≡ false → v ≡ value t x col)
        × (view (rows.fetch_value t r col d).1 ≡ view d)
        × (told (rows.fetch_value t r col d).1 col ≡ true)
  pub fetch_value_or_done :
      (d : D) (x : R) (t : CType) (col : ℕ) (fallback : CValue t)
      → (view d).current ≡ some x
      → (null x col && told d col) ≡ false
      → (v : CValue t) × ((rows.fetch_value_or t r col fallback d).0 ≡ done v)
        × (null x col ≡ false → v ≡ value t x col)
        × (view (rows.fetch_value_or t r col fallback d).1 ≡ view d)
        × (told (rows.fetch_value_or t r col fallback d).1 col ≡ true)
  pub fallback_done :
      (d : D) (x : R) (t : CType) (col : ℕ) (fallback : CValue t)
      → (view d).current ≡ some x
      → (null x col && told d col) ≡ true
      → ((rows.fetch_value_or t r col fallback d).0 ≡ done fallback)
        × (view (rows.fetch_value_or t r col fallback d).1 ≡ view d)
        × (told (rows.fetch_value_or t r col fallback d).1 col ≡ true)
  pub make_sexp_done :
      (d : D) (s : Text)
      → ((rows.make_sexp s d).0 ≡ done (encoded s)) × (view (rows.make_sexp s d).1 ≡ view d)
  pub time_of_done :
      (d : D) (t : TimestampOffset)
      → ((rows.time_of t d).0 ≡ done (time_value t)) × (view (rows.time_of t d).1 ≡ view d)
