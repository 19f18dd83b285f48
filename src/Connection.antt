-- ===== src/Connection.antt =====
-- The methods of odbc_connection, src/odbc_connection.cpp.
pub mod Transactions
pub mod Open
use odbc.Prelude.{
  ℕ, codes, Bool, true, false, not, ◌&&◌, ◌||◌, Option, none, some, [], ◌∷◌, ◌==◌, if◌then◌else◌,
}
use odbc.Outcome.{
  Error, database_error, r_stop, double_begin, commit_without_begin, rollback_without_begin, M,
  pure, throw, ◌>>=◌, ◌>>◌, try_catch,
}
use odbc.Nanodbc.{Nanodbc, Text}
use odbc.Session.{Session, call, modify, deref, object_at, same}

-- `dbms == "..."` on texts.
unfoldable pub text_eq : Text → Text → Bool
text_eq [] [] = true
text_eq [] (b ∷ bs) = false
text_eq (a ∷ xs) [] = false
text_eq (a ∷ xs) (b ∷ bs) = a == b && text_eq xs bs

-- A database error ends in `fallback`; anything else is thrown on.
abbrev pub on_database_error : {S A : Type 0} → A → Error → M S A
on_database_error fallback (database_error c) = pure fallback
on_database_error fallback e = throw e

abbrev pub set_current : {D : Type 0} → Option ℕ → M (Session D) (Unit {0})
set_current r = modify λ s. record s { current_result = r }

abbrev pub set_transaction : {D : Type 0} → Option ℕ → M (Session D) (Unit {0})
set_transaction t = modify λ s. record s { transaction = t }

-- `has_result` and `has_active_result`, which are one test.
unfoldable pub has_result : {D : Type 0} → Session D → Bool
has_result s = not (same s.current_result none)

unfoldable pub is_current_result : {D : Type 0} → ℕ → Session D → Bool
is_current_result r s = same s.current_result (some r)

module _ {D : Type 0} (drv : Nanodbc D) where
  -- `current_result_->statement()->cancel(); current_result_ = nullptr;`
  unfoldable pub cancel_through : ℕ → M (Session D) (Unit {0})
  cancel_through r = do
    o ← object_at r
    st ← deref o.statement
    call (drv.cancel st)
    set_current none

  unfoldable pub cancel_current_result : M (Session D) (Unit {0})
  cancel_current_result s = elim s.current_result [ none ↦ pure tt s | some r ↦ cancel_through r s ]

  unfoldable pub set_current_result : Option ℕ → M (Session D) (Unit {0})
  set_current_result r s =
      if same r s.current_result then pure tt s else (cancel_current_result >> set_current r) s

  unfoldable pub begin : M (Session D) (Unit {0})
  begin s = elim s.transaction [
    | some t ↦ throw (r_stop double_begin) s
    | none ↦ (do t ← call drv.new_transaction; set_transaction (some t)) s
  ]

  -- `t_.reset()`
  reset_transaction : ℕ → M (Session D) (Unit {0})
  reset_transaction t =
      modify λ s. record s { driver = drv.drop_transaction t s.driver; transaction = none }

  unfoldable pub commit : M (Session D) (Unit {0})
  unfolding reset_transaction
  commit s = elim s.transaction [
    | none ↦ throw (r_stop commit_without_begin) s
    | some t ↦ (do call (drv.commit t); reset_transaction t) s
  ]

  unfoldable pub rollback : M (Session D) (Unit {0})
  unfolding reset_transaction
  rollback s = elim s.transaction [
    | none ↦ throw (r_stop rollback_without_begin) s
    | some t ↦ (do call (drv.rollback t); reset_transaction t) s
  ]

  -- SQL_TC_NONE is 0.
  unfoldable pub supports_transactions : M (Session D) Bool
  supports_transactions =
      try_catch (do n ← call drv.txn_capable; pure (not (n == 0))) (on_database_error false)

unfoldable pub starts_with : Text → Text → Bool
starts_with [] s = true
starts_with (p ∷ ps) [] = false
starts_with (p ∷ ps) (c ∷ cs) = p == c && starts_with ps cs

-- `s.find(p) != std::string::npos`
unfoldable pub contains : Text → Text → Bool
contains p [] = starts_with p []
contains p (c ∷ cs) = starts_with p (c ∷ cs) || contains p cs

abbrev pub microsoft_sql_server : Text
microsoft_sql_server = codes "Microsoft SQL Server"

abbrev pub msodbcsql : Text
msodbcsql = codes "msodbcsql"

module _ {D : Type 0} (drv : Nanodbc D) where
  unfoldable pub get_data_any_order : M (Session D) Bool
  get_data_any_order =
      try_catch
        (do
          dbms ← call drv.dbms_name
          driver ← call drv.driver_name
          pure (not (text_eq dbms microsoft_sql_server && contains msodbcsql driver)))
        (on_database_error true)
