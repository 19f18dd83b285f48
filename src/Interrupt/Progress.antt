-- ===== src/Interrupt/Progress.antt =====
-- How long the main thread waits: no longer than the thread has something to do.
use odbc.Prelude.{ℕ, suc, ◌<◌, ◌≡◌, refl, List, [], ◌∷◌, ◌++◌, length, arith}
use odbc.Outcome.{ok, throws, crash, out_of_fuel, Outcome}
use odbc.Session.{Session}
use odbc.Interrupt.{
  Action, Worker, Thread, running, failed, Event, work, user_interrupt, drain, after_part,
  after_cancel, wait_for, run_interruptible,
}

-- How often the thread is given a turn.
abbrev pub turns : List Event → ℕ
turns [] = 0
turns (work ∷ es) = suc (turns es)
turns (user_interrupt ∷ es) = turns es

module _ {D : Type 0} where
  -- How many turns the thread needs, the one in which the main thread sees that it is ready included.
  abbrev pub turns_left : Thread D → ℕ
  turns_left (running ps) = suc (length ps)
  turns_left (failed e) = 1

  after_part-eq :
      (rest rest' : Thread D → Action D) (ps : List (Action D)) (r : Outcome (Unit {0}) × Session D)
      → ((t : Thread D) (s : Session D)
          → turns_left t < suc (suc (length ps))
          → rest t s ≡ rest' t s)
      → after_part rest ps r ≡ after_part rest' ps r
  after_part-eq rest rest' ps (ok a, s) h = h (running ps) s (omega arith)
  after_part-eq rest rest' ps (throws e, s) h = h (failed e) s (omega arith)
  after_part-eq rest rest' ps (crash, s) h = refl
  after_part-eq rest rest' ps (out_of_fuel, s) h = refl

  after_cancel-eq :
      (rest rest' drained : Action D) (r : Outcome (Unit {0}) × Session D)
      → ((s : Session D) → rest s ≡ rest' s)
      → after_cancel rest drained r ≡ after_cancel rest' drained r
  after_cancel-eq rest rest' drained (ok a, s) h = h s
  after_cancel-eq rest rest' drained (throws e, s) h = refl
  after_cancel-eq rest rest' drained (crash, s) h = refl
  after_cancel-eq rest rest' drained (out_of_fuel, s) h = refl

  module _ (w : Worker D) (cancel_fn cleanup_fn : Action D) where
    wait_for-ends :
        (es later : List Event) (t : Thread D) (s : Session D)
        → turns_left t < suc (turns es)
        → wait_for w cancel_fn cleanup_fn (es ++ later) t s ≡ wait_for w cancel_fn cleanup_fn es t s
    unfolding wait_for
    wait_for-ends [] later (running ps) s h = absurd (omega (arith, h))
    wait_for-ends [] later (failed e) s h = absurd (omega (arith, h))
    wait_for-ends (work ∷ es) later (running []) s h = refl
    wait_for-ends (work ∷ es) later (running (p ∷ ps)) s h =
        after_part-eq (wait_for w cancel_fn cleanup_fn (es ++ later))
          (wait_for w cancel_fn cleanup_fn es) ps _
          (λ t s' k. wait_for-ends es later t s' (omega (arith, h, k)))
    wait_for-ends (work ∷ es) later (failed e) s h = refl
    wait_for-ends (user_interrupt ∷ es) later t s h =
        after_cancel-eq (wait_for w cancel_fn cleanup_fn (es ++ later) t)
          (wait_for w cancel_fn cleanup_fn es t) (drain w t) _ (λ s'. wait_for-ends es later t s' h)

    -- The main thread does not wait for ever: once the thread has had a turn for each of its parts
    -- and one more, `run_interruptible` has ended, however often the user interrupted in between.
    -- What would happen later, a further interrupt included, does not change how it ended nor the
    -- state.
    pub run_interruptible-ends :
        (es later : List Event) (s : Session D)
        → length w.parts < turns es
        → run_interruptible w cancel_fn cleanup_fn (es ++ later) s
          ≡ run_interruptible w cancel_fn cleanup_fn es s
    unfolding run_interruptible
    run_interruptible-ends es later s h =
        wait_for-ends es later (running w.parts) s (omega (arith, h))
