-- ===== src/Result/Fetches.antt =====
-- `odbc_result::fetch`, with the types and the names of the columns, src/odbc_result.cpp.
use odbc.Prelude.{
  ℕ, zero, suc, ◌+◌, Bool, true, false, not, none, List, [], ◌∷◌, ◌==◌, if◌then◌else◌,
}
use odbc.Prelude.Int.{ℤ}
use odbc.Outcome.{M, r_stop, not_bound, pure, throw, ◌>>=◌, ◌>>◌, try_catch}
use odbc.Nanodbc.{Nanodbc, Rows, Reply, Text}
use odbc.Session.{Session, Object, call, deref, object_at, put_object, notify, unknown_field_type}
use odbc.Connection.{set_current_result}
use odbc.Types.{RType, BigintMap, SqlType, column_type}
use odbc.Fetch.{Column, Cursor}
use odbc.Fetch.Loop.{result_to_dataframe}
use odbc.Result.Unbind.{unbind_if_needed}

-- What is asked of a nanodbc::result about its columns, and `column_name_encoder_->makeString`.
pub record Headers (D : Type 0) : Type 0 where
  pub column_datatype : ℕ → ℕ → D → Reply SqlType × D
  pub column_name : ℕ → ℕ → D → Reply Text × D
  pub make_string : Text → D → Reply Text × D

-- The data frame that `fetch` returns; one without columns where the query has no result.
pub record Frame : Type 0 where
  pub names : List Text
  pub columns : List Column

module _ {D : Type 0} (drv : Nanodbc D) (rows : Rows D) (headers : Headers D)
    (mapping : BigintMap) where
  -- `signal_unknown_field_type(type, r.column_name(i))`
  unfoldable pub signal_unknown : Bool → ℕ → ℕ → M (Session D) (Unit {0})
  signal_unknown false r i = pure tt
  signal_unknown true r i = do name ← call (headers.column_name r i); notify unknown_field_type

  -- `column_types(r)`, for so many columns from `i` on.
  unfoldable pub column_types : ℕ → ℕ → ℕ → M (Session D) (List RType)
  unfolding signal_unknown
  column_types zero i r = pure []
  column_types (suc n) i r = do
    type ← call (headers.column_datatype r i)
    signal_unknown (column_type mapping type).1 r i
    types ← column_types n (i + 1) r
    pure ((column_type mapping type).0 ∷ types)

  unfoldable pub column_names : ℕ → ℕ → ℕ → M (Session D) (List Text)
  column_names zero i r = pure []
  column_names (suc n) i r = do
    name ← call (headers.column_name r i)
    encoded ← call (headers.make_string name)
    names ← column_names n (i + 1) r
    pure (encoded ∷ names)

  -- The members that the loop over the rows reads and writes.
  abbrev pub cursor_of : Object → Session D → Cursor D
  cursor_of o s = record { driver = s.driver; rows_fetched = o.rows_fetched; complete = o.complete }

  abbrev pub from_cursor : ℕ → Object → Session D → Cursor D → Session D
  from_cursor this o s c =
      (put_object this (record o { rows_fetched = c.rows_fetched; complete = c.complete })
        (record s { driver = c.driver })).1

  unfoldable pub in_cursor {ℓ} : {A : Type ℓ} → ℕ → M (Cursor D) A → M (Session D) A
  in_cursor this m = do
    o ← object_at this
    λ s. let x = m (cursor_of o s) in (x.0, from_cursor this o s x.1)

  -- `result_to_dataframe(*r_, n_max)`
  unfoldable pub read_frame : ℕ → ℕ → ℤ → M (Session D) Frame
  read_frame fuel this n_max = do
    o ← object_at this
    r ← deref o.result
    types ← column_types o.num_columns 0 r
    names ← column_names o.num_columns 0 r
    columns ← in_cursor this (result_to_dataframe rows r fuel types n_max)
    pure (record { names = names; columns = columns })

  unfoldable pub fetch_bound : ℕ → ℕ → ℤ → M (Session D) Frame
  fetch_bound fuel this n_max = do
    unbind_if_needed drv this
    try_catch (read_frame fuel this n_max) λ e. do set_current_result drv none; throw e

  unfoldable pub fetch : ℕ → ℕ → ℤ → M (Session D) Frame
  fetch fuel this n_max = do
    o ← object_at this
    if not o.bound
        then throw (r_stop not_bound)
        else if o.num_columns == 0
        then pure (record { names = []; columns = [] })
        else fetch_bound fuel this n_max
