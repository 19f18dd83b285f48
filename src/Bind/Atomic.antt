-- ===== src/Bind/Atomic.antt =====
-- `bind_list` in a transaction: either all of it is committed, or nothing has changed.
pub mod Commits
pub mod Whole
use odbc.Prelude.{
  ℕ, suc, ◌≡◌, refl, ◌∙◌, ap, Bool, true, false, Option, some, List, [], ◌∷◌, ◌==◌, not, inl, inr,
  Option-cases, none,
}
use odbc.Outcome.{M, Error, Outcome, ok, throws, pure, try_catch, throw, ◌>>◌, ◌>>=◌}
use odbc.Outcome.Partial.{Post, Triple, bind-Triple, catch-Triple, always-Triple}
use odbc.Nanodbc.{Nanodbc, Reply, done, fails}
use odbc.Session.{Session, Object, answer, call, object_at, put_object, deref, modify}
use odbc.Connection.{supports_transactions}
use odbc.Types.{RType, parameter_types}
use odbc.Batches.{batch_loop, get_parameter_rows}
use odbc.Params.{Params, Target, Bound, Binder, Zones, Memory}
use odbc.Bind.{Binding, in_session}
use odbc.Bind.Frames.{columns_of, shapes}
use odbc.Bind.Rounds.{
  modify_object, the_statement, open_transaction, wants_transaction, commit_if, drop_if,
  in_transaction, check_count, bind_list, bind_round, extents,
}
use odbc.Bind.Stable.{
  measured-Keeps, Keeps, bind-Keeps, if-Keeps, same-Keeps, in_session-Keeps, Around,
}
use odbc.Bind.Stable.Frames.{Framed}
use odbc.Bind.Stable.Whole.{Asks}
use odbc.Bind.Stable.Rounds.{
  Rewrites, Steady, modify_object-Keeps, batch_loop-Keeps, bind_round-Keeps,
}

-- What the database holds for good, how many commits have succeeded, and the live transactions, the
-- last one first.
pub record Account (W : Type 0) : Type 0 where
  pub durable : W
  pub commits : ℕ
  pub live : List ℕ

module _ {D W : Type 0} (account : D → Account W) where
  -- A transaction lives, unless the call has failed.
  abbrev pub Opened : Account W → Reply ℕ × D → Type 0
  Opened b (done t, d) = account d ≡ record b { live = t ∷ b.live }
  Opened b (fails e, d) = account d ≡ b

  -- There is one commit more, unless the call has failed.
  abbrev pub Closed : Account W → Reply (Unit {0}) × D → Type 0
  Closed b (done x, d) = ((account d).commits ≡ suc b.commits) × ((account d).live ≡ b.live)
  Closed b (fails e, d) = account d ≡ b

-- What nanodbc documents of its transactions: a commit makes changes durable, and while a transaction
-- lives, nothing else does. The calls may fail, and a commit that fails has no effect.
pub record Ledger {D : Type 0} (W : Type 0) (drv : Nanodbc D) (binder : Binder D) : Type 0 where
  pub account : D → Account W
  pub capable : ℕ
  pub capable_some : (capable == 0) ≡ false
  pub txn_capable_done :
      (d : D) → (d' : D) × (drv.txn_capable d ≡ (done capable, d')) × (account d' ≡ account d)
  pub new_transaction_opens : (d : D) → Opened account (account d) (drv.new_transaction d)
  pub commit_closes : (t : ℕ) (d : D) → Closed account (account d) (drv.commit t d)
  pub drop_transaction_live :
      (t : ℕ) (ts : List ℕ) (d : D)
      → (account d).live ≡ t ∷ ts
      → account (drv.drop_transaction t d) ≡ record (account d) { live = ts }
  pub execute_live :
      (st n t : ℕ) (ts : List ℕ) (d : D)
      → (account d).live ≡ t ∷ ts
      → account (drv.execute st n d).1 ≡ account d
  pub columns_same : (r : ℕ) (d : D) → account (drv.columns r d).1 ≡ account d
  pub parameters_same : (st : ℕ) (d : D) → account (drv.parameters st d).1 ≡ account d
  pub drop_result_same : (r : ℕ) (d : D) → account (drv.drop_result r d) ≡ account d
  pub bind_same :
      (obj : Target) (col : ℕ) (b : Bound) (d : D) → account (binder.bind obj col b d).1 ≡ account d
  pub parameter_type_same :
      (obj : Target) (col : ℕ) (d : D) → account (binder.parameter_type obj col d).1 ≡ account d
  pub parameter_scale_same :
      (obj : Target) (col : ℕ) (d : D) → account (binder.parameter_scale obj col d).1 ≡ account d
  pub new_table_same : (st col n : ℕ) (d : D) → account (binder.new_table st col n d).1 ≡ account d
  pub close_table_same : (p : ℕ) (d : D) → account (binder.close_table p d).1 ≡ account d
  pub drop_table_same : (p : ℕ) (d : D) → account (binder.drop_table p d) ≡ account d
  pub check_user_interrupt_same : (d : D) → account (binder.check_user_interrupt d).1 ≡ account d

module _ {D W : Type 0} {drv : Nanodbc D} {binder : Binder D} (l : Ledger W drv binder)
    (a : Account W) where
  -- The account is this one.
  abbrev pub Stands : Session D → Type 0
  Stands s = l.account s.driver ≡ a

  pub Stands-Framed : Framed Stands binder
  Stands-Framed = record {
    vectors = record {
      bind = λ obj col b. measured-Keeps l.account a _ (λ d p. l.bind_same obj col b d ∙ p);
      parameter_type =
          λ obj col. measured-Keeps l.account a _ (λ d p. l.parameter_type_same obj col d ∙ p);
      parameter_scale =
          λ obj col. measured-Keeps l.account a _ (λ d p. l.parameter_scale_same obj col d ∙ p);
      told = λ n. record { after = λ s p. p };
    };
    new_table = λ st col n. measured-Keeps l.account a _ (λ d p. l.new_table_same st col n d ∙ p);
    close_table = λ p. measured-Keeps l.account a _ (λ d q. l.close_table_same p d ∙ q);
    drop_table = λ p. record { after = λ s q. l.drop_table_same p s.driver ∙ q };
    check_user_interrupt = measured-Keeps l.account a _ (λ d p. l.check_user_interrupt_same d ∙ p);
  }

  pub Stands-Rewrites : (this : ℕ) → Rewrites Stands this
  Stands-Rewrites this = record {
    rewritten = λ f rest same h. record {
      after = λ s p. elim (Option-cases (s.objects this)) [
        | inl e ↦ rw e p
        | inr (o, e) ↦ rw e ((h o).after (put_object this (f o) s).1 p)
      ];
    };
  }

  -- While a transaction lives.
  pub Stands-Steady : (this t : ℕ) (ts : List ℕ) → a.live ≡ t ∷ ts → Steady Stands drv this
  Stands-Steady this t ts e = record {
    execute = λ st n.
        measured-Keeps l.account a _
          (λ d p. l.execute_live st n t ts d (ap (λ b. b.live) p ∙ e) ∙ p);
    columns = λ r. measured-Keeps l.account a _ (λ d p. l.columns_same r d ∙ p);
    drop_result = λ r. record { after = λ s p. l.drop_result_same r s.driver ∙ p };
    rewrites = Stands-Rewrites this;
  }

  pub Stands-Asks : Asks Stands drv
  Stands-Asks = record {
    parameters = λ st. measured-Keeps l.account a _ (λ d p. l.parameters_same st d ∙ p);
  }

  module _ (zones : Zones) (mem : Memory) (timezone this : ℕ) where
    pub batches-Keeps :
        (t : ℕ) (ts : List ℕ)
        → a.live ≡ t ∷ ts
        → (fuel nrows batch_rows st : ℕ) (types : List RType) (xs : Params)
        → Keeps (Around Stands) (
            batch_loop fuel nrows batch_rows
              (bind_round drv binder zones mem timezone this st types xs)
              0)
    batches-Keeps t ts e fuel nrows batch_rows st types xs =
        batch_loop-Keeps fuel nrows batch_rows _ 0 (
          bind_round-Keeps Stands-Framed (Stands-Steady this t ts e) zones mem timezone st types xs)
