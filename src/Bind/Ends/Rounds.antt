-- ===== src/Bind/Ends/Rounds.antt =====
-- The rounds of `bind_list`, and all of it, end where the fuel is one more than the rows.
use odbc.Prelude.{
  ℕ, suc, ◌^◌, ◌<◌, ◌≤◌, Bool, true, false, not, inl, inr, Option-cases, none, some, Option, List,
  [], ◌∷◌, ◌==◌,
}
use odbc.Outcome.{
  M, Error, database_error, r_stop, no_parameters, wrong_parameter_count, ok, throws,
}
use odbc.Nanodbc.{Nanodbc}
use odbc.Session.{Session, Object, object_at, put_object}
use odbc.Connection.{supports_transactions, on_database_error}
use odbc.Types.{RType}
use odbc.Batches.{batch_loop, get_parameter_rows}
use odbc.Params.{Params, statement, Binder, Zones, Memory}
use odbc.Batches.Cover.{for_each, rounds, batch_loop-rounds}
use odbc.Bind.{Binding, own, clear_buffers}
use odbc.Bind.Frames.{columns_of, shapes}
use odbc.Bind.Rounds.{
  drop_old, modify_object, execute_batch, bind_round, the_statement, open_transaction,
  wants_transaction, commit_if, drop_if, in_transaction, check_count, bind_list, extents,
}
use odbc.Bind.Ends.{
  Ends, bind-Ends, catch-Ends, same-Ends, if-Ends, call-Ends, in_session-Ends,
  parameter_types-Ended,
}
use odbc.Bind.Ends.Frames.{bind_all-Ends}

module _ {S : Type 0} (nrows batch_rows : ℕ) (round : ℕ → ℕ → M S (Unit {0}))
    (h : (start size : ℕ) → Ends (round start size)) where
  for_each-Ends : (bs : List (ℕ × ℕ)) → Ends (for_each round bs)
  for_each-Ends [] = record { ends = λ s. tt }
  for_each-Ends ((start, size) ∷ bs) = bind-Ends (h start size) λ _. for_each-Ends bs

  batch_loop-Ends :
      0 < batch_rows
      → nrows ≤ 2 ^ 63
      → batch_rows < 2 ^ 64
      → Ends (batch_loop (suc nrows) nrows batch_rows round 0)
  batch_loop-Ends b n w = record {
    ends = λ s.
        rw (batch_loop-rounds round nrows batch_rows s b n w)
          ((for_each-Ends (rounds (suc nrows) batch_rows 0 nrows)).ends s);
  }

module _ {D : Type 0} (drv : Nanodbc D) (binder : Binder D) (zones : Zones) (mem : Memory)
    (timezone this : ℕ) where
  modify_object-Ends :
      (f : Object → Object) → Ends (modify_object drv binder zones mem timezone this f)
  modify_object-Ends f = record {
    ends = λ s. elim (Option-cases (s.objects this)) [ inl e ↦ rw e tt | inr (o, e) ↦ rw e tt ];
  }

  drop_old-Ends : (r : Option ℕ) → Ends (drop_old drv binder zones mem timezone this r)
  drop_old-Ends none = record { ends = λ s. tt }
  drop_old-Ends (some r) = record { ends = λ s. tt }

  object_at-Ends : Ends {S = Session D} (object_at this)
  object_at-Ends = record {
    ends = λ s. elim (Option-cases (s.objects this)) [ inl e ↦ rw e tt | inr (o, e) ↦ rw e tt ];
  }

  put_object-Ends : (o : Object) → Ends {S = Session D} (put_object this o)
  put_object-Ends o = record { ends = λ s. tt }

  execute_batch-Ends :
      (st size : ℕ) → Ends (execute_batch drv binder zones mem timezone this st size)
  unfolding execute_batch
  execute_batch-Ends st size = bind-Ends (call-Ends (drv.execute st size)) λ r.
      bind-Ends object_at-Ends λ o. bind-Ends (put_object-Ends (record o { result = some r })) λ _.
        bind-Ends (drop_old-Ends o.result) λ _.
          bind-Ends (call-Ends (drv.columns r))
            λ n. modify_object-Ends λ o'. record o' { num_columns = n }

  clear_buffers-Ends : Ends {S = Binding D} clear_buffers
  unfolding clear_buffers
  clear_buffers-Ends = record { ends = λ s. tt }

  bind_round-Ends :
      (st : ℕ) (types : List RType) (xs : Params) (start size : ℕ)
      → Ends (bind_round drv binder zones mem timezone this st types xs start size)
  unfolding bind_round
  bind_round-Ends st types xs start size = bind-Ends clear_buffers-Ends λ _.
      bind-Ends
        (bind_all-Ends binder zones mem timezone st (statement st) own types xs 0 start size)
        λ _.
          bind-Ends (in_session-Ends _ (execute_batch-Ends st size))
            λ _. in_session-Ends _ (call-Ends _)

  the_statement-Ends : Ends (the_statement drv binder zones mem timezone this)
  the_statement-Ends = record {
    ends = λ s. elim (Option-cases (s.objects this)) [
      | inl e ↦ rw e tt
      | inr (o, e) ↦
          rw e (elim (Option-cases o.statement) [ inl f ↦ rw f tt | inr (st, f) ↦ rw f tt ])
    ];
  }

  check_count-Ends : (st ncols : ℕ) → Ends (check_count drv binder zones mem timezone this st ncols)
  unfolding check_count
  check_count-Ends st ncols = bind-Ends (call-Ends (drv.parameters st)) λ n.
      bind-Ends
        (if-Ends (n == 0) (same-Ends (throws (r_stop no_parameters)) tt) (same-Ends (ok tt) tt))
        λ _. bind-Ends (call-Ends (drv.parameters st)) λ m.
          if-Ends (m == ncols) (same-Ends (ok tt) tt) (
            bind-Ends (call-Ends (drv.parameters st))
              λ p. same-Ends (throws (r_stop wrong_parameter_count)) tt)

  on_database_error-Ends : (e : Error) → Ends {S = Session D} (on_database_error false e)
  on_database_error-Ends (database_error c) = record { ends = λ s. tt }
  on_database_error-Ends e = record { ends = λ s. tt }

  wants_transaction-Ends :
      (b : Bool) → Ends (wants_transaction drv binder zones mem timezone this b)
  unfolding supports_transactions
  wants_transaction-Ends false = record { ends = λ s. tt }
  wants_transaction-Ends true =
      catch-Ends (bind-Ends (call-Ends drv.txn_capable) λ n. same-Ends (ok (not (n == 0))) tt)
        on_database_error-Ends

  open_transaction-Ends : (b : Bool) → Ends (open_transaction drv binder zones mem timezone this b)
  open_transaction-Ends false = record { ends = λ s. tt }
  open_transaction-Ends true = bind-Ends (call-Ends _) λ t. same-Ends (ok (some t)) tt

  commit_if-Ends : (t : Option ℕ) → Ends (commit_if drv binder zones mem timezone this t)
  commit_if-Ends none = record { ends = λ s. tt }
  commit_if-Ends (some t) = call-Ends _

  drop_if-Ends : (t : Option ℕ) → Ends (drop_if drv binder zones mem timezone this t)
  drop_if-Ends none = record { ends = λ s. tt }
  drop_if-Ends (some t) = record { ends = λ s. tt }

  in_transaction-Ends :
      (t : Option ℕ) (m : M (Binding D) (Unit {0}))
      → Ends m
      → Ends (in_transaction drv binder zones mem timezone this t m)
  unfolding in_transaction
  in_transaction-Ends t m h =
      bind-Ends
        (catch-Ends
          (bind-Ends h λ _.
            bind-Ends (in_session-Ends _ (commit_if-Ends t))
              λ _. in_session-Ends _ (modify_object-Ends _))
          (λ e. bind-Ends (in_session-Ends _ (drop_if-Ends t)) λ _. same-Ends (throws e) tt))
        (λ _. in_session-Ends _ (drop_if-Ends t))

  -- With one unit of fuel more than rows.
  pub bind_list-Ends :
      (xs : Params) (use_transaction : Bool) (batch_rows : ℕ)
      → 0 < batch_rows
      → get_parameter_rows (extents xs) ≤ 2 ^ 63
      → batch_rows < 2 ^ 64
      → Ends (
          bind_list drv binder zones mem timezone this
            (suc (get_parameter_rows (extents xs)))
            xs
            use_transaction
            batch_rows)
  unfolding bind_list
  bind_list-Ends xs use_transaction batch_rows b n w =
      bind-Ends (in_session-Ends _ (modify_object-Ends _)) λ _.
        bind-Ends (same-Ends _ (parameter_types-Ended (shapes xs))) λ types.
          bind-Ends (in_session-Ends _ the_statement-Ends) λ st.
            bind-Ends (in_session-Ends _ (check_count-Ends st (columns_of xs))) λ _.
              bind-Ends (in_session-Ends _ (wants_transaction-Ends use_transaction)) λ c.
                bind-Ends (in_session-Ends _ (open_transaction-Ends c)) λ t.
                  in_transaction-Ends t _ (
                    batch_loop-Ends (get_parameter_rows (extents xs)) batch_rows _
                      (bind_round-Ends st types xs) b n w)
