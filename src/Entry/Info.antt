-- ===== src/Entry/Info.antt =====
-- What `connection_info` says where the driver does not answer.
use odbc.Prelude.{ℕ, ◌≡◌, refl, Bool, true, false, arith}
use odbc.Outcome.{database_error, M, Outcome, ok, throws, crash, out_of_fuel, Sat, bind-Sat, ◌>>=◌}
use odbc.Nanodbc.{Nanodbc, Reply, done, fails, Text}
use odbc.Session.{Session}
use odbc.Connection.{supports_transactions}
use odbc.Connection.Transactions.{Kept}
use odbc.Entry.{
  Handle, Infos, TextInfo, NumberInfo, getdata_extensions, schema_usage, database_name, dbms_name,
  dbms_ver, user_name, data_source_name, server_name, driver_name, odbc_ver, driver_ver,
  driver_odbc_ver, catalog_name, through, get_info_or_empty, extensions, info_of_session,
  connection_info, ConnectionInfo,
}

-- A call throws nothing but a database error.
abbrev pub OnlyDatabase : {A : Type 0} → Reply A → Type 0
OnlyDatabase (done a) = Unit
OnlyDatabase (fails (database_error c)) = Unit
OnlyDatabase (fails e) = ⊥

-- What nanodbc documents of the errors of `get_info`.
pub record Reporting {D : Type 0} (drv : Nanodbc D) (infos : Infos D) : Type 0 where
  pub text_errors : (i : TextInfo) (d : D) → OnlyDatabase (infos.text_info i d).0
  pub number_errors : (i : NumberInfo) (d : D) → OnlyDatabase (infos.number_info i d).0
  pub txn_errors : (d : D) → OnlyDatabase (drv.txn_capable d).0

-- One of the two numbers is not answered.
abbrev pub fails_at : {A : Type 0} → Reply A → Bool
fails_at (done a) = false
fails_at (fails e) = true

abbrev pub unanswered_from : {D : Type 0} → Infos D → Reply ℕ × D → Bool
unanswered_from infos (fails e, d) = true
unanswered_from infos (done n, d) = fails_at (infos.number_info schema_usage d).0

abbrev pub unanswered : {D : Type 0} → Infos D → D → Bool
unanswered infos d = unanswered_from infos (infos.number_info getdata_extensions d)

-- What the list says, and what stays.
abbrev pub Informed : {D : Type 0} → Infos D → Session D → ConnectionInfo → Session D → Type 0
Informed infos s0 i s =
    Kept s0 s
    × (unanswered infos s0.driver ≡ true
        → (i.supports_schema ≡ false) × (i.any_column ≡ false) × (i.any_order ≡ false))

module _ {D : Type 0} (drv : Nanodbc D) (infos : Infos D) (reporting : Reporting drv infos)
    (s0 : Session D) where
  get_info_or_empty_lem :
      (i : TextInfo) (s : Session D)
      → Kept s0 s
      → Sat (λ _ s'. Kept s0 s') (λ _ _. ⊥) (get_info_or_empty infos i s)
  unfolding get_info_or_empty
  get_info_or_empty_lem i s k = ground (arith, reporting.text_errors i s.driver)

  supports_transactions_lem :
      (s : Session D)
      → Kept s0 s
      → Sat (λ _ s'. Kept s0 s') (λ _ _. ⊥) (supports_transactions drv s)
  unfolding supports_transactions
  supports_transactions_lem s k = ground (arith, reporting.txn_errors s.driver)

  extensions_lem :
      Sat
        (λ x s'. Kept s0 s' × (unanswered infos s0.driver ≡ true → x ≡ (0, 0)))
        (λ _ _. ⊥)
        (extensions infos s0)
  unfolding extensions
  extensions_lem = ground (
    arith,
    reporting.number_errors getdata_extensions s0.driver,
    reporting.number_errors schema_usage (infos.number_info getdata_extensions s0.driver).1,
  )

  -- The rest of the list, after one text of it.
  ask_then :
      (i : TextInfo) {A : Type 0} (Q : A → Session D → Type 0) (rest : Text → M (Session D) A)
      → ((t : Text) (s : Session D) → Kept s0 s → Sat Q (λ _ _. ⊥) (rest t s))
      → (s : Session D) → Kept s0 s
      → Sat Q (λ _ _. ⊥) ((get_info_or_empty infos i >>= rest) s)
  ask_then i Q rest next s k =
      bind-Sat (λ _ s'. Kept s0 s') Q (λ _ _. ⊥) (get_info_or_empty infos i) rest s
        (get_info_or_empty_lem i s k) next

  info_of_session_lem : Sat (Informed infos s0) (λ _ _. ⊥) (info_of_session drv infos s0)
  unfolding info_of_session
  info_of_session_lem =
      bind-Sat (λ x s'. Kept s0 s' × (unanswered infos s0.driver ≡ true → x ≡ (0, 0)))
        (Informed infos s0) (λ _ _. ⊥) (extensions infos) _ s0 extensions_lem
        λ ext s h.
          ask_then database_name (Informed infos s0) _
            (λ _. ask_then dbms_name (Informed infos s0) _ (λ _.
              ask_then dbms_ver (Informed infos s0) _ (λ _.
                ask_then user_name (Informed infos s0) _ (λ _.
                  ask_then data_source_name (Informed infos s0) _ (λ _.
                    ask_then server_name (Informed infos s0) _ (λ _.
                      ask_then driver_name (Informed infos s0) _ (λ _.
                        ask_then odbc_ver (Informed infos s0) _ (λ _.
                          ask_then driver_ver (Informed infos s0) _ (λ _.
                            ask_then driver_odbc_ver (Informed infos s0) _ (λ _ s' k.
                              bind-Sat (λ _ s''. Kept s0 s'') (Informed infos s0) (λ _ _. ⊥)
                                (supports_transactions drv) _ s' (supports_transactions_lem s' k)
                                λ _.
                                  ask_then catalog_name (Informed infos s0) _
                                    (λ _ s'' k'. (k', λ u. rw (h.1 u) (refl, refl, refl)))))))))))))
            s h.0

wrapped :
    {D A : Type 0} (Q : A → Session D → Type 0) (b : Bool) (r : Outcome A × Session D)
    → Sat Q (λ _ _. ⊥) r
    → Sat {S = Handle D}
        (λ a p'. (p'.valid ≡ b) × Q a p'.session)
        (λ _ _. ⊥)
        (r.0, record { valid = b; session = r.1 })
wrapped Q b (ok a, s) h = (refl, h)
wrapped Q b (throws e, s) h = h
wrapped Q b (crash, s) h = h
wrapped Q b (out_of_fuel, s) h = h

-- Where `get_info` throws nothing but database errors, `connection_info` through a valid pointer
-- returns, whatever the driver does not answer. The pointer stays valid, and the transaction, the
-- current result and the results stay as they are. Where the driver answers one of
-- SQL_GETDATA_EXTENSIONS and SQL_SCHEMA_USAGE with an error, the list says that schemas are not
-- supported, nor reading in any order or of any column.
pub connection_info_lem :
    {D : Type 0} (drv : Nanodbc D) (infos : Infos D)
    → Reporting drv infos
    → (p : Handle D) → p.valid ≡ true
    → Sat {S = Handle D}
        (λ i p'. (p'.valid ≡ true) × Informed infos p.session i p'.session)
        (λ _ _. ⊥)
        (connection_info drv infos p)
unfolding connection_info through
connection_info_lem drv infos reporting p v = rw v (
    wrapped (Informed infos p.session) true (info_of_session drv infos p.session)
      (info_of_session_lem drv infos reporting p.session))
