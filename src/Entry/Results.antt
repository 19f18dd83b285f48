-- ===== src/Entry/Results.antt =====
-- The entry points of R for a result, src/result.cpp, through an external pointer to it.
use odbc.Prelude.{
  ℕ, zero, suc, ◌+◌, ◌-◌, ◌%◌, ◌^◌, ltb, Bool, false, Option, none, some, List, [], if◌then◌else◌,
}
use odbc.Prelude.Int.{ℤ, pos, negsuc}
use odbc.Outcome.{ok, out_of_fuel, r_stop, invalid_pointer, M, pure, throw, ◌>>=◌}
use odbc.Nanodbc.{Nanodbc, Text}
use odbc.Session.{Session, call, deref, object_at}
use odbc.Types.{SqlType}
use odbc.Catalog.{push_back}
use odbc.Encoder.{to_int}
use odbc.Result.{destroy, active, complete, rows_fetched}
use odbc.Result.Fetches.{Headers}

-- The external pointer: the object's address, or null after `release`.
pub record ResultHandle (D : Type 0) : Type 0 where
  pub address : Option ℕ
  pub session : Session D

-- The vectors of `result_column_info`.
pub record ColumnInfo : Type 0 where
  pub names : List Text
  pub field_type : List Text

-- A `long` as an `int`.
abbrev pub as_int : ℤ → ℤ
as_int (pos n) = to_int n
as_int (negsuc n) = to_int (2 ^ 32 - 1 - n % 2 ^ 32)

module _ {D : Type 0} where
  -- A call through `r->`, which stops where the pointer is null.
  unfoldable pub through_result : {A : Type 0} → (ℕ → M (Session D) A) → M (ResultHandle D) A
  through_result m p = elim p.address [
    | none ↦ throw (r_stop invalid_pointer) p
    | some this ↦ (let x = m this p.session in (x.0, record p { session = x.1 }))
  ]

  unfoldable pub result_active : ResultHandle D → Bool
  result_active p = elim p.address [ none ↦ false | some this ↦ active this p.session ]

  unfoldable pub result_completed : M (ResultHandle D) Bool
  result_completed = through_result λ this. do o ← object_at this; pure (complete o)

  unfoldable pub result_row_count : M (ResultHandle D) ℤ
  result_row_count = through_result λ this. do o ← object_at this; pure (to_int (rows_fetched o))

module _ {D : Type 0} (drv : Nanodbc D) where
  -- `r.release()` clears the pointer and deletes the object.
  unfoldable pub result_release : M (ResultHandle D) (Unit {0})
  result_release p = elim p.address [
    | none ↦ (ok tt, p)
    | some this ↦
        (let x = destroy drv this p.session in (x.0, record { address = none; session = x.1 }))
  ]

  affected : ℤ → ℕ → M (Session D) ℤ
  affected (pos (suc n)) r = do m ← call (drv.affected_rows r); pure (as_int m)
  affected n r = pure (pos 0)

  rows_affected : Option ℕ → M (Session D) ℤ
  rows_affected none = pure (pos 0)
  rows_affected (some r) = do n ← call (drv.affected_rows r); affected n r

  -- `res->affected_rows() > 0 ? res->affected_rows() : 0`, and 0 without a result.
  unfoldable pub result_rows_affected : M (ResultHandle D) ℤ
  unfolding rows_affected affected
  result_rows_affected = through_result λ this. do o ← object_at this; rows_affected o.result

module _ {D : Type 0} (drv : Nanodbc D) (headers : Headers D) (to_string : SqlType → Text) where
  push_info : ℕ → ℕ → ColumnInfo → M (Session D) ColumnInfo
  push_info r i v = do
    name ← call (headers.column_name r i)
    type ← call (headers.column_datatype r i)
    pure (record {
      names = push_back v.names name;
      field_type = push_back v.field_type (to_string type);
    })

  -- The loop, from the column `i` on: the number of columns is asked for before each of them.
  unfoldable pub info_from : ℕ → ℕ → ℕ → ColumnInfo → M (Session D) ColumnInfo
  unfolding push_info
  info_from zero r i v s = (out_of_fuel, s)
  info_from (suc fuel) r i v s =
      (do
        n ← call (drv.columns r)
        if ltb i n then (do v' ← push_info r i v; info_from fuel r (i + 1) v') else pure v)
        s

  -- `result` is not asked whether it is null.
  unfoldable pub result_column_info : ℕ → M (ResultHandle D) ColumnInfo
  result_column_info fuel = through_result λ this. do
    o ← object_at this
    r ← deref o.result
    info_from fuel r 0 (record { names = []; field_type = [] })
