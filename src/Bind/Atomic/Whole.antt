-- ===== src/Bind/Atomic/Whole.antt =====
-- `bind_list` in a transaction, as a whole.
use odbc.Prelude.{ℕ, suc, ◌^◌, ◌<◌, ◌≤◌, ◌≡◌, refl, true, false, some}
use odbc.Outcome.{M, ◌>>=◌}
use odbc.Outcome.Partial.{Post, Triple, bind-Triple, exists-Triple}
use odbc.Nanodbc.{Nanodbc}
use odbc.Types.{parameter_types}
use odbc.Batches.{get_parameter_rows}
use odbc.Params.{Params, Binder, Zones, Memory}
use odbc.Bind.{Binding, in_session}
use odbc.Bind.Frames.{columns_of, shapes}
use odbc.Bind.Rounds.{open_transaction, wants_transaction, in_transaction, bind_list, extents}
use odbc.Bind.Ends.{Settles, Post-Settles}
use odbc.Bind.Ends.Rounds.{bind_list-Ends}
use odbc.Bind.Stable.{Keeps, same-Keeps, Around}
use odbc.Bind.Stable.Triples.{kept, in_session-Triple}
use odbc.Bind.Stable.Rounds.{modify_object-Keeps}
use odbc.Bind.Atomic.{Account, Ledger, Stands, Stands-Rewrites, Stands-Asks, batches-Keeps}
use odbc.Bind.Stable.Whole.{the_statement-Keeps, check_count-Keeps}
use odbc.Bind.Atomic.Commits.{
  Committed, with_live, wants_transaction-true, open_transaction-live, in_transaction-Atomic,
}

module _ {D W : Type 0} {drv : Nanodbc D} {binder : Binder D} (l : Ledger W drv binder)
    (a : Account W) where
  module _ (zones : Zones) (mem : Memory) (timezone this : ℕ) where
    -- The part of `bind_list` from the test of the connection on.
    begun-Atomic :
        (m : M (Binding D) (Unit {0}))
        → ((t : ℕ) → Keeps (Around (Stands l (with_live l a t))) m)
        → Triple
            (Around (Stands l a))
            (λ _ s. Committed l a a.live s.session)
            (λ _ s. Stands l a s.session)
            (in_session (wants_transaction drv binder zones mem timezone this true) >>= λ wanted.
              in_session (open_transaction drv binder zones mem timezone this wanted) >>= λ t.
              in_transaction drv binder zones mem timezone this t m)
    begun-Atomic m h =
        bind-Triple (λ b s. (b ≡ true) × Stands l a s.session)
          (in_session-Triple _ _ _ (wants_transaction-true l a zones mem timezone this))
          (λ b. exists-Triple λ e. rw e (
            bind-Triple (λ t s. (u : ℕ) × (t ≡ some u) × Stands l (with_live l a u) s.session)
              (in_session-Triple _ _ _ (open_transaction-live l a zones mem timezone this))
              (λ t. record {
                after = λ s p.
                    let (u, f, q) = p in
                    rw f ((in_transaction-Atomic l a zones mem timezone this u m (h u)).after s q);
              })))

    -- What holds between two calls, before the transaction is opened.
    abbrev Unchanged {ℓ} : {A : Type ℓ} → A → Binding D → Type 0
    Unchanged x s = Stands l a s.session

    bind_list-Post :
        (fuel : ℕ) (xs : Params) (batch_rows : ℕ) (s : Binding D)
        → l.account s.session.driver ≡ a
        → Post
            (λ _ s'. Committed l a a.live s'.session)
            (λ _ s'. Stands l a s'.session)
            (bind_list drv binder zones mem timezone this fuel xs true batch_rows s)
    unfolding bind_list
    bind_list-Post fuel xs batch_rows s start =
        (bind-Triple Unchanged
            (in_session-Triple _ _ _ (
              kept (
                modify_object-Keeps (Stands-Rewrites l a this) drv binder zones mem timezone
                  (λ o. record o { complete = false; rows_fetched = 0 }) (λ o. refl))))
            (λ _. bind-Triple Unchanged (kept (same-Keeps (parameter_types (shapes xs)))) λ types.
              bind-Triple Unchanged
                (in_session-Triple _ _ _
                  (kept (the_statement-Keeps (Stands-Asks l a) binder zones mem timezone this)))
                (λ st.
                  bind-Triple Unchanged
                    (in_session-Triple _ _ _ (
                      kept (
                        check_count-Keeps (Stands-Asks l a) binder zones mem timezone this st
                          (columns_of xs))))
                    (λ _. begun-Atomic _ λ t.
                      batches-Keeps l (with_live l a t) zones mem timezone this t a.live refl fuel
                        (get_parameter_rows (extents xs)) batch_rows st types xs)))).after
          s start

    -- Where a connection supports transactions and a commit that fails has no effect, `bind_list` in a
    -- transaction, with a positive batch size, up to 2 ^ 63 rows and one unit of fuel more than rows,
    -- does not run out of fuel. Where it returns, there is one commit more; where it throws, what is
    -- durable and the number of commits are as before, whichever calls of nanodbc fail and however many
    -- batches have been executed. In both cases its transaction is gone and those that lived before
    -- live on. A crash, such as a read past the end of a vector, is not excluded.
    pub bind_list-Atomic :
        (xs : Params) (batch_rows : ℕ) (s : Binding D)
        → 0 < batch_rows
        → get_parameter_rows (extents xs) ≤ 2 ^ 63
        → batch_rows < 2 ^ 64
        → l.account s.session.driver ≡ a
        → Settles
            (λ _ s'. Committed l a a.live s'.session)
            (λ _ s'. Stands l a s'.session)
            (bind_list drv binder zones mem timezone this
              (suc (get_parameter_rows (extents xs)))
              xs
              true
              batch_rows
              s)
    bind_list-Atomic xs batch_rows s b n w start =
        Post-Settles (λ _ s'. Committed l a a.live s'.session) (λ _ s'. Stands l a s'.session) _
          (bind_list-Post (suc (get_parameter_rows (extents xs))) xs batch_rows s start)
          ((bind_list-Ends drv binder zones mem timezone this xs true batch_rows b n w).ends s)
