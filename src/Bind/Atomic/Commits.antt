-- ===== src/Bind/Atomic/Commits.antt =====
-- The transaction of `bind_list`: how it is opened, and how it ends.
use odbc.Prelude.{ℕ, suc, ◌≡◌, refl, subst, ◌∙◌, ap, true, some, List, ◌∷◌, inl, inr, Option-cases}
use odbc.Outcome.{M, Error, and_then, pure}
use odbc.Outcome.Partial.{Post, Triple, bind-Triple, catch-Triple, throw-Triple}
use odbc.Nanodbc.{Nanodbc, Reply, done, fails}
use odbc.Session.{Session, Object, answer}
use odbc.Connection.{supports_transactions}
use odbc.Params.{Binder, Zones, Memory}
use odbc.Bind.{Binding}
use odbc.Bind.Rounds.{
  modify_object, open_transaction, wants_transaction, commit_if, drop_if, in_transaction,
}
use odbc.Bind.Stable.{Keeps, Around}
use odbc.Bind.Stable.Triples.{kept, in_session-Triple}
use odbc.Bind.Atomic.{Account, Opened, Closed, Ledger, Stands}

module _ {D W : Type 0} {drv : Nanodbc D} {binder : Binder D} (l : Ledger W drv binder)
    (a : Account W) where
  -- With these transactions alive.
  abbrev lives : List ℕ → Account W → Account W
  lives ts b = record b { live = ts }

  -- The account with the transaction that `bind_list` opens.
  abbrev pub with_live : ℕ → Account W
  with_live t = lives (t ∷ a.live) a

  -- There is one commit more, and these transactions live.
  abbrev pub Committed : List ℕ → Session D → Type 0
  Committed ts s = ((l.account s.driver).commits ≡ suc a.commits) × ((l.account s.driver).live ≡ ts)

  module _ (zones : Zones) (mem : Memory) (timezone this : ℕ) where
    pub wants_transaction-true :
        Triple
          (Stands l a)
          (λ b s. (b ≡ true) × Stands l a s)
          (λ _ s. Stands l a s)
          (wants_transaction drv binder zones mem timezone this true)
    unfolding supports_transactions
    wants_transaction-true = record {
      after = λ s p.
          let (d', run, same) = l.txn_capable_done s.driver in
          rw run (rw l.capable_some (refl, same ∙ p));
    }

    new_transaction_answered :
        (s : Session D) (r : Reply ℕ × D)
        → Opened l.account a r
        → Post
            (λ t s'. (u : ℕ) × (t ≡ some u) × Stands l (with_live u) s')
            (λ _ s'. Stands l a s')
            (and_then (answer s r) (λ t. pure (some t)))
    new_transaction_answered s (done t, d) h = (t, refl, h)
    new_transaction_answered s (fails e, d) h = h

    pub open_transaction-live :
        Triple
          (Stands l a)
          (λ t s. (u : ℕ) × (t ≡ some u) × Stands l (with_live u) s)
          (λ _ s. Stands l a s)
          (open_transaction drv binder zones mem timezone this true)
    open_transaction-live = record {
      after = λ s p. new_transaction_answered s (drv.new_transaction s.driver) (
          subst (λ b. Opened l.account b (drv.new_transaction s.driver)) p
            (l.new_transaction_opens s.driver));
    }

    commit_answered :
        (ts : List ℕ) (s : Session D) (r : Reply (Unit {0}) × D)
        → Closed l.account (lives ts a) r
        → Post (λ _ s'. Committed ts s') (λ _ s'. Stands l (lives ts a) s') (answer s r)
    commit_answered ts s (done x, d) h = h
    commit_answered ts s (fails e, d) h = h

    commit_if-Committed :
        (t : ℕ)
        → Triple
            (Stands l (with_live t))
            (λ _ s. Committed (t ∷ a.live) s)
            (λ _ s. Stands l (with_live t) s)
            (commit_if drv binder zones mem timezone this (some t))
    commit_if-Committed t = record {
      after = λ s p.
          commit_answered (t ∷ a.live) s (drv.commit t s.driver) (
            subst (λ b. Closed l.account b (drv.commit t s.driver)) p (l.commit_closes t s.driver));
    }

    -- `bound_` is set.
    modify_object-Committed :
        (f : Object → Object) (ts : List ℕ) (E : Error → Session D → Type 0)
        → Triple
            (Committed ts)
            (λ _ s. Committed ts s)
            E
            (modify_object drv binder zones mem timezone this f)
    modify_object-Committed f ts E = record {
      after = λ s p. elim (Option-cases (s.objects this)) [ inl e ↦ rw e tt | inr (o, e) ↦ rw e p ];
    }

    drop_if-Stands :
        (t : ℕ) (E : Error → Session D → Type 0)
        → Triple
            (Stands l (with_live t))
            (λ _ s. Stands l a s)
            E
            (drop_if drv binder zones mem timezone this (some t))
    drop_if-Stands t E = record {
      after = λ s p.
          l.drop_transaction_live t a.live s.driver (ap (λ b. b.live) p) ∙ ap (lives a.live) p;
    }

    drop_if-Committed :
        (t : ℕ) (E : Error → Session D → Type 0)
        → Triple
            (Committed (t ∷ a.live))
            (λ _ s. Committed a.live s)
            E
            (drop_if drv binder zones mem timezone this (some t))
    drop_if-Committed t E = record {
      after = λ s p.
          let e = l.drop_transaction_live t a.live s.driver p.1 in
          (ap (λ b. b.commits) e ∙ p.0, ap (λ b. b.live) e);
    }

    pub in_transaction-Atomic :
        (t : ℕ) (m : M (Binding D) (Unit {0}))
        → Keeps (Around (Stands l (with_live t))) m
        → Triple
            (Around (Stands l (with_live t)))
            (λ _ s. Committed a.live s.session)
            (λ _ s. Stands l a s.session)
            (in_transaction drv binder zones mem timezone this (some t) m)
    unfolding in_transaction
    in_transaction-Atomic t m h =
        bind-Triple (λ _ s. Committed (t ∷ a.live) s.session)
          (catch-Triple (λ _ s. Stands l (with_live t) s.session)
            (bind-Triple (λ _ s. Stands l (with_live t) s.session) (kept h)
              λ _.
                bind-Triple (λ _ s. Committed (t ∷ a.live) s.session)
                  (in_session-Triple _ _ _ (commit_if-Committed t))
                  (λ _.
                    in_session-Triple _ _ _
                      (modify_object-Committed _ (t ∷ a.live) (λ _ s. Stands l (with_live t) s))))
            (λ e.
              bind-Triple (λ _ s. Stands l a s.session)
                (in_session-Triple _ _ _ (drop_if-Stands t (λ _ s. Stands l a s)))
                (λ _. throw-Triple e)))
          (λ _. in_session-Triple _ _ _ (drop_if-Committed t (λ _ s. Stands l a s)))
