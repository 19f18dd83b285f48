-- ===== src/Interrupt/Rule.antt =====
-- A proof rule for `run_interruptible`: what holds at every point where the threads may switch.
use odbc.Prelude.{List, [], ◌∷◌}
use odbc.Outcome.{
  Error, odbc_error, database_error, r_stop, interrupted, other_error, ok, throws, crash,
  out_of_fuel, Outcome, Sat, bind-Sat, catch-Sat, throw, ◌>>◌,
}
use odbc.Session.{Session, attempting_clean_exit, unknown_exception}
use odbc.Interrupt.{
  Action, Worker, Thread, running, failed, Event, work, user_interrupt, run_all, caught, raised,
  rethrow_on_main, finish, drain, after_part, after_cancel, wait_for,
}

module _ {D : Type 0} (Inv : Session D → Type 0) where
  -- Each part keeps the invariant, also where it throws.
  abbrev pub Keeps : Action D → Type 0
  Keeps p = (s : Session D) → Inv s → Sat (λ _ s'. Inv s') (λ _ s'. Inv s') (p s)

  abbrev pub AllKeep : List (Action D) → Type 0
  AllKeep [] = Unit {0}
  AllKeep (p ∷ ps) = Keeps p × AllKeep ps

  pub run_all-Keeps : (ps : List (Action D)) → AllKeep ps → Keeps (run_all ps)
  unfolding run_all
  run_all-Keeps [] k s h = h
  run_all-Keeps (p ∷ ps) k s h =
      bind-Sat (λ _ s'. Inv s') (λ _ s'. Inv s') (λ _ s'. Inv s') p (λ _. run_all ps) s (k.0 s h)
        (λ _ s' h'. run_all-Keeps ps k.1 s' h')

  caught-Keeps : (w : Worker D) (p : Action D) → Keeps p → Keeps (caught w p)
  caught-Keeps w p k s h =
      catch-Sat (λ _ s'. Inv s') (λ _ s'. Inv s') (λ _ s'. Inv s') p (λ e. throw (w.handler e)) s
        (k s h) (λ e s' h'. h')

  abbrev pub ThreadKeeps : Thread D → Type 0
  ThreadKeeps (running ps) = AllKeep ps
  ThreadKeeps (failed e) = Unit {0}

  drain-Keeps : (w : Worker D) (t : Thread D) → ThreadKeeps t → Keeps (drain w t)
  drain-Keeps w (running ps) k s h = caught-Keeps w (run_all ps) (run_all-Keeps ps k) s h
  drain-Keeps w (failed e) k s h = h

module _ {D : Type 0} (Inv Out : Session D → Type 0) where
  module _ (cancel_fn cleanup_fn : Action D)
      (notified : (s : Session D)
        → Inv s
        → Inv (record s { notices = attempting_clean_exit ∷ s.notices }))
      (told : (s : Session D) → Out s → Out (record s { notices = unknown_exception ∷ s.notices }))
      (cancels : (s : Session D) → Inv s → Sat (λ _ s'. Inv s') (λ _ _. ⊥) (cancel_fn s))
      (cleans : (s : Session D)
        → Inv s
        → Sat (λ _ s'. Out s') (λ _ s'. Out s') (cleanup_fn s)) where
    raised-Out :
        (e : Error) (s : Session D) → Out s → Sat (λ _ s'. Inv s') (λ _ s'. Out s') (raised e s)
    unfolding raised
    raised-Out (odbc_error c) s h = h
    raised-Out (database_error c) s h = told s h
    raised-Out (r_stop c) s h = told s h
    raised-Out interrupted s h = told s h
    raised-Out (other_error c) s h = told s h

    rethrow-Out :
        (e : Error) (s : Session D)
        → Inv s
        → Sat (λ _ s'. Inv s') (λ _ s'. Out s') (rethrow_on_main cleanup_fn e s)
    unfolding rethrow_on_main
    rethrow-Out e s h =
        catch-Sat (λ _ s'. Inv s') (λ _ s'. Out s') (λ _ s'. Out s') (cleanup_fn >> throw e) raised
          s
          (bind-Sat (λ _ s'. Out s') (λ _ s'. Inv s') (λ _ s'. Out s') cleanup_fn (λ _. throw e) s
            (cleans s h) (λ _ s' o. o))
          raised-Out

    finish-Out :
        (r : Outcome (Unit {0}) × Session D)
        → Sat (λ _ s'. Inv s') (λ _ s'. Inv s') r
        → Sat (λ _ s'. Inv s') (λ _ s'. Out s') (finish cleanup_fn r)
    finish-Out (ok a, s) h = h
    finish-Out (throws e, s) h = rethrow-Out e s h
    finish-Out (crash, s) h = h
    finish-Out (out_of_fuel, s) h = h

    after_part-Out :
        (rest : Thread D → Action D) (ps : List (Action D)) (r : Outcome (Unit {0}) × Session D)
        → ((t : Thread D) (s : Session D)
            → ThreadKeeps Inv t
            → Inv s
            → Sat (λ _ s'. Inv s') (λ _ s'. Out s') (rest t s))
        → AllKeep Inv ps
        → Sat (λ _ s'. Inv s') (λ _ s'. Inv s') r
        → Sat (λ _ s'. Inv s') (λ _ s'. Out s') (after_part rest ps r)
    after_part-Out rest ps (ok a, s) k all h = k (running ps) s all h
    after_part-Out rest ps (throws e, s) k all h = k (failed e) s tt h
    after_part-Out rest ps (crash, s) k all h = h
    after_part-Out rest ps (out_of_fuel, s) k all h = h

    after_cancel-Out :
        (rest drained : Action D) (r : Outcome (Unit {0}) × Session D)
        → ((s : Session D) → Inv s → Sat (λ _ s'. Inv s') (λ _ s'. Out s') (rest s))
        → Sat (λ _ s'. Inv s') (λ _ _. ⊥) r
        → Sat (λ _ s'. Inv s') (λ _ s'. Out s') (after_cancel rest drained r)
    after_cancel-Out rest drained (ok a, s) k h = k s h
    after_cancel-Out rest drained (throws e, s) k h = absurd h
    after_cancel-Out rest drained (crash, s) k h = h
    after_cancel-Out rest drained (out_of_fuel, s) k h = h

    -- Along every schedule: a normal return keeps the invariant, and a throw has cleaned up.
    pub wait_for-Out :
        (w : Worker D) (es : List Event) (t : Thread D) (s : Session D)
        → ThreadKeeps Inv t
        → Inv s
        → Sat (λ _ s'. Inv s') (λ _ s'. Out s') (wait_for w cancel_fn cleanup_fn es t s)
    unfolding wait_for
    wait_for-Out w [] t s k h = finish-Out (drain w t s) (drain-Keeps Inv w t k s h)
    wait_for-Out w (work ∷ es) (running []) s k h = h
    wait_for-Out w (work ∷ es) (running (p ∷ ps)) s k h =
        after_part-Out (wait_for w cancel_fn cleanup_fn es) ps (caught w p s)
          (λ t s' k' h'. wait_for-Out w es t s' k' h') k.1 (caught-Keeps Inv w p k.0 s h)
    wait_for-Out w (work ∷ es) (failed e) s k h = rethrow-Out e s h
    wait_for-Out w (user_interrupt ∷ es) t s k h =
        after_cancel-Out (wait_for w cancel_fn cleanup_fn es t) (drain w t) _
          (λ s' h'. wait_for-Out w es t s' k h')
          (cancels (record s { notices = attempting_clean_exit ∷ s.notices }) (notified s h))
