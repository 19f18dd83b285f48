-- ===== src/Bind/Rounds.antt =====
-- `bind_list` and `describe_parameters`.
use odbc.Prelude.{
  ℕ, Bool, true, false, Option, none, some, List, [], ◌∷◌, map, ◌==◌, ltb, if◌then◌else◌,
}
use odbc.Prelude.Int.{ℤ, pos, ◌-ℤ◌}
use odbc.Outcome.{
  M, r_stop, no_parameters, wrong_parameter_count, pure, throw, ◌>>=◌, ◌>>◌, try_catch,
}
use odbc.Nanodbc.{Nanodbc}
use odbc.Session.{Session, Object, call, modify, deref, object_at, put_object}
use odbc.Connection.{supports_transactions}
use odbc.Types.{RType, parameter_types}
use odbc.Batches.{Extent, get_parameter_rows, batch_loop}
use odbc.Params.{Param, column, frame, Params, nil, cons, statement, Binder, Zones, Memory}
use odbc.Bind.{Binding, own, in_session, clear_buffers}
use odbc.Bind.Frames.{param_length, columns_of, shapes, of_outcome, bind_all}

abbrev pub extent_of : Param → Extent
extent_of (column v c) = record { is_frame = false; extent = param_length (column v c) }
extent_of (frame xs) = record { is_frame = true; extent = param_length (frame xs) }

abbrev pub extents : Params → List Extent
extents nil = []
extents (cons x xs) = extent_of x ∷ extents xs

-- The data frame that `describe_parameters` is given, by the columns that it reads, and the length
-- of its first column.
pub record Description : Type 0 where
  pub rows : ℕ
  pub param_index : List ℤ
  pub data_type : List ℤ
  pub column_size : List ℤ
  pub decimal_digits : List ℤ

module _ {D : Type 0} (drv : Nanodbc D) (binder : Binder D) (zones : Zones) (mem : Memory)
    (timezone this : ℕ) where
  abbrev pub modify_object : (Object → Object) → M (Session D) (Unit {0})
  modify_object f = do o ← object_at this; put_object this (f o)

  abbrev pub the_statement : M (Session D) ℕ
  the_statement = do o ← object_at this; deref o.statement

  abbrev pub drop_old : Option ℕ → M (Session D) (Unit {0})
  drop_old none = pure tt
  drop_old (some r) = modify λ s. record s { driver = drv.drop_result r s.driver }

  -- `r_ = ...; num_columns_ = r_->columns();`, for the rows that are bound.
  unfoldable pub execute_batch : ℕ → ℕ → M (Session D) (Unit {0})
  execute_batch st size = do
    r ← call (drv.execute st size)
    o ← object_at this
    put_object this (record o { result = some r })
    drop_old o.result
    n ← call (drv.columns r)
    modify_object λ o'. record o' { num_columns = n }

  -- The body of the loop.
  unfoldable pub bind_round : ℕ → List RType → Params → ℕ → ℕ → M (Binding D) (Unit {0})
  bind_round st types xs start size = do
    clear_buffers
    bind_all binder zones mem timezone st (statement st) own types xs 0 start size
    in_session (execute_batch st size)
    in_session (call binder.check_user_interrupt)

  abbrev pub open_transaction : Bool → M (Session D) (Option ℕ)
  open_transaction false = pure none
  open_transaction true = do t ← call drv.new_transaction; pure (some t)

  -- `use_transaction && c_->supports_transactions()`
  abbrev pub wants_transaction : Bool → M (Session D) Bool
  wants_transaction false = pure false
  wants_transaction true = supports_transactions drv

  abbrev pub commit_if : Option ℕ → M (Session D) (Unit {0})
  commit_if none = pure tt
  commit_if (some t) = call (drv.commit t)

  abbrev pub drop_if : Option ℕ → M (Session D) (Unit {0})
  drop_if none = pure tt
  drop_if (some t) = modify λ s. record s { driver = drv.drop_transaction t s.driver }

  -- What happens while the transaction lives. Its destructor, which rolls back what is not
  -- committed, runs on a return and on a throw.
  unfoldable pub in_transaction : Option ℕ → M (Binding D) (Unit {0}) → M (Binding D) (Unit {0})
  in_transaction t m = do
    try_catch
        (do m; in_session (commit_if t); in_session (modify_object λ o. record o { bound = true }))
        (λ e. do in_session (drop_if t); throw e)
    in_session (drop_if t)

  -- The message of `Rcpp::stop` asks for the number again.
  unfoldable pub check_count : ℕ → ℕ → M (Session D) (Unit {0})
  check_count st ncols = do
    n ← call (drv.parameters st)
    (if n == 0 then throw (r_stop no_parameters) else pure tt)
    m ← call (drv.parameters st)
    if m == ncols
        then pure tt
        else (do p ← call (drv.parameters st); throw (r_stop wrong_parameter_count))

  unfoldable pub bind_list : ℕ → Params → Bool → ℕ → M (Binding D) (Unit {0})
  bind_list fuel xs use_transaction batch_rows = do
    in_session (modify_object λ o. record o { complete = false; rows_fetched = 0 })
    types ← of_outcome (parameter_types (shapes xs))
    st ← in_session the_statement
    in_session (check_count st (columns_of xs))
    let nrows = get_parameter_rows (extents xs)
    wanted ← in_session (wants_transaction use_transaction)
    t ← in_session (open_transaction wanted)
    in_transaction t (batch_loop fuel nrows batch_rows (bind_round st types xs) 0)

  unfoldable pub describe_parameters : Description → M (Session D) (Unit {0})
  describe_parameters x = do
    st ← the_statement
    n ← call (drv.parameters st)
    if ltb n x.rows
        then (do m ← call (drv.parameters st); throw (r_stop wrong_parameter_count))
        else call (
            binder.describe_parameters st (map (λ i. i -ℤ pos 1) x.param_index) x.data_type
              x.column_size x.decimal_digits)
