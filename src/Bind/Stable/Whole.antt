-- ===== src/Bind/Stable/Whole.antt =====
-- `bind_list` and `describe_parameters` keep what each single call keeps.
use odbc.Prelude.{
  ℕ, Bool, true, false, not, Option, none, some, List, map, ltb, ◌==◌, refl, inl, inr, Option-cases,
}
use odbc.Prelude.Int.{ℤ, pos, ◌-ℤ◌}
use odbc.Outcome.{M, Error, database_error, ok, throws}
use odbc.Nanodbc.{Nanodbc}
use odbc.Session.{Session, call, modify}
use odbc.Connection.{supports_transactions, on_database_error}
use odbc.Types.{parameter_types}
use odbc.Batches.{get_parameter_rows}
use odbc.Params.{Params, Binder, Zones, Memory}
use odbc.Bind.{Binding}
use odbc.Bind.Frames.{columns_of, shapes}
use odbc.Bind.Rounds.{
  Description, the_statement, open_transaction, wants_transaction, commit_if, drop_if,
  in_transaction, check_count, bind_list, describe_parameters, extents,
}
use odbc.Bind.Stable.{
  Keeps, Around, bind-Keeps, catch-Keeps, if-Keeps, same-Keeps, in_session-Keeps,
}
use odbc.Bind.Stable.Frames.{Framed}
use odbc.Bind.Stable.Rounds.{Steady, modify_object-Keeps, batch_loop-Keeps, bind_round-Keeps}

-- The number of the parameters of a statement is asked for.
pub record Asks {D : Type 0} (P : Session D → Type 0) (drv : Nanodbc D) : Type 0 where
  pub parameters : (st : ℕ) → Keeps P (call (drv.parameters st))

-- Each call around the loop keeps `P`.
pub record Encloses {D : Type 0} (P : Session D → Type 0) (drv : Nanodbc D) : Type 0 where
  pub asks : Asks P drv
  pub txn_capable : Keeps P (call drv.txn_capable)
  pub new_transaction : Keeps P (call drv.new_transaction)
  pub commit : (t : ℕ) → Keeps P (call (drv.commit t))
  pub drop_transaction :
      (t : ℕ) → Keeps P (modify λ s. record s { driver = drv.drop_transaction t s.driver })

module _ {D : Type 0} {P : Session D → Type 0} {drv : Nanodbc D} (asks : Asks P drv)
    (binder : Binder D) (zones : Zones) (mem : Memory) (timezone this : ℕ) where
  pub the_statement-Keeps : Keeps P (the_statement drv binder zones mem timezone this)
  the_statement-Keeps = record {
    after = λ s p. elim (Option-cases (s.objects this)) [
      | inl e ↦ rw e p
      | inr (o, e) ↦
          rw e (elim (Option-cases o.statement) [ inl f ↦ rw f p | inr (st, f) ↦ rw f p ])
    ];
  }

  pub check_count-Keeps :
      (st ncols : ℕ) → Keeps P (check_count drv binder zones mem timezone this st ncols)
  unfolding check_count
  check_count-Keeps st ncols = bind-Keeps (asks.parameters st) λ n.
      bind-Keeps (if-Keeps (n == 0) (same-Keeps _) (same-Keeps (ok tt))) λ _.
        bind-Keeps (asks.parameters st) λ m.
          if-Keeps (m == ncols) (same-Keeps (ok tt))
            (bind-Keeps (asks.parameters st) λ p. same-Keeps _)

  pub describe_parameters-Keeps :
      ((st : ℕ) (index type size digits : List ℤ)
        → Keeps P (call (binder.describe_parameters st index type size digits)))
      → (x : Description) → Keeps P (describe_parameters drv binder zones mem timezone this x)
  unfolding describe_parameters
  describe_parameters-Keeps h x = bind-Keeps the_statement-Keeps λ st.
      bind-Keeps (asks.parameters st) λ n.
        if-Keeps (ltb n x.rows) (bind-Keeps (asks.parameters st) λ m. same-Keeps _)
          (h st (map (λ i. i -ℤ pos 1) x.param_index) x.data_type x.column_size x.decimal_digits)

module _ {D : Type 0} {P : Session D → Type 0} {drv : Nanodbc D} {binder : Binder D} {this : ℕ}
    (k : Framed P binder) (q : Steady P drv this) (en : Encloses P drv) (zones : Zones)
    (mem : Memory) (timezone : ℕ) where
  on_database_error-Keeps : (e : Error) → Keeps P (on_database_error false e)
  on_database_error-Keeps (database_error c) = same-Keeps (ok false)
  on_database_error-Keeps e = record { after = λ s p. p }

  wants_transaction-Keeps :
      (b : Bool) → Keeps P (wants_transaction drv binder zones mem timezone this b)
  unfolding supports_transactions
  wants_transaction-Keeps false = same-Keeps (ok false)
  wants_transaction-Keeps true =
      catch-Keeps (bind-Keeps en.txn_capable λ n. same-Keeps (ok (not (n == 0))))
        on_database_error-Keeps

  open_transaction-Keeps :
      (b : Bool) → Keeps P (open_transaction drv binder zones mem timezone this b)
  open_transaction-Keeps false = same-Keeps (ok none)
  open_transaction-Keeps true = bind-Keeps en.new_transaction λ t. same-Keeps (ok (some t))

  commit_if-Keeps : (t : Option ℕ) → Keeps P (commit_if drv binder zones mem timezone this t)
  commit_if-Keeps none = same-Keeps (ok tt)
  commit_if-Keeps (some t) = en.commit t

  drop_if-Keeps : (t : Option ℕ) → Keeps P (drop_if drv binder zones mem timezone this t)
  drop_if-Keeps none = same-Keeps (ok tt)
  drop_if-Keeps (some t) = en.drop_transaction t

  in_transaction-Keeps :
      (t : Option ℕ) (m : M (Binding D) (Unit {0}))
      → Keeps (Around P) m
      → Keeps (Around P) (in_transaction drv binder zones mem timezone this t m)
  unfolding in_transaction
  in_transaction-Keeps t m h =
      bind-Keeps
        (catch-Keeps
          (bind-Keeps h λ _. bind-Keeps (in_session-Keeps _ (commit_if-Keeps t)) λ _.
            in_session-Keeps _ (
              modify_object-Keeps q.rewrites drv binder zones mem timezone
                (λ o. record o { bound = true }) (λ o. refl)))
          (λ e. bind-Keeps (in_session-Keeps _ (drop_if-Keeps t)) λ _. same-Keeps (throws e)))
        (λ _. in_session-Keeps _ (drop_if-Keeps t))

  pub bind_list-Keeps :
      (fuel : ℕ) (xs : Params) (use_transaction : Bool) (batch_rows : ℕ)
      → Keeps
          (Around P)
          (bind_list drv binder zones mem timezone this fuel xs use_transaction batch_rows)
  unfolding bind_list
  bind_list-Keeps fuel xs use_transaction batch_rows =
      bind-Keeps
        (in_session-Keeps _ (
          modify_object-Keeps q.rewrites drv binder zones mem timezone
            (λ o. record o { complete = false; rows_fetched = 0 }) (λ o. refl)))
        (λ _. bind-Keeps (same-Keeps (parameter_types (shapes xs))) λ types.
          bind-Keeps
            (in_session-Keeps _ (the_statement-Keeps en.asks binder zones mem timezone this))
            (λ st.
              bind-Keeps
                (in_session-Keeps _
                  (check_count-Keeps en.asks binder zones mem timezone this st (columns_of xs)))
                (λ _. bind-Keeps (in_session-Keeps _ (wants_transaction-Keeps use_transaction)) λ b.
                  bind-Keeps (in_session-Keeps _ (open_transaction-Keeps b)) λ t.
                    in_transaction-Keeps t _ (
                      batch_loop-Keeps fuel (get_parameter_rows (extents xs)) batch_rows _ 0
                        (bind_round-Keeps k q zones mem timezone st types xs)))))
