-- ===== src/Interrupt.antt =====
-- `utils::run_interruptible`, src/utils.cpp: a function runs on a thread of its own, while the main
-- thread waits for it and looks for interrupts once a second.
pub mod Rule
pub mod Progress
use odbc.Prelude.{List, [], ◌∷◌}
use odbc.Outcome.{
  Error, database_error, odbc_error, r_stop, interrupted, other_error, Outcome, ok, throws, crash,
  out_of_fuel, M, pure, throw, ◌>>◌, try_catch,
}
use odbc.Session.{Session, notify, attempting_clean_exit, unknown_exception}

abbrev pub Action : Type 0 → Type 0
Action D = M (Session D) (Unit {0})

-- `exec_fn`: its parts between which the main thread may act, and its handler, which turns what
-- they throw into what leaves the thread.
pub record Worker (D : Type 0) : Type 0 where
  pub parts : List (Action D)
  pub handler : Error → Error

-- What is left of the thread: parts to run, none when it has ended, or what it threw.
pub data Thread (D : Type 0) : Type 0 where
  running : List (Action D) → Thread D
  failed : Error → Thread D

-- One event of the schedule: the thread runs its next part, or the main thread, which waits, finds
-- that the user has interrupted.
pub data Event : Type 0 where
  work user_interrupt : Event

module _ {D : Type 0} where
  unfoldable pub run_all : List (Action D) → Action D
  run_all [] = pure tt
  run_all (p ∷ ps) = p >> run_all ps

  -- What was thrown on the thread, `eptr`.
  abbrev pub caught : Worker D → Action D → Action D
  caught w m = try_catch m λ e. throw (w.handler e)

  raised : Error → Action D
  raised (odbc_error c) = throw (odbc_error c)
  raised (database_error c) = notify unknown_exception >> throw (database_error c)
  raised (r_stop c) = notify unknown_exception >> throw (r_stop c)
  raised interrupted = notify unknown_exception >> throw interrupted
  raised (other_error c) = notify unknown_exception >> throw (other_error c)

  -- `eptr` is set: clean up, and raise on the main thread what was thrown on the other one.
  unfoldable pub rethrow_on_main : Action D → Error → Action D
  unfolding raised
  rethrow_on_main cleanup_fn e = try_catch (cleanup_fn >> throw e) raised

  -- The end of the wait: the thread is ready.
  abbrev pub finish : Action D → Outcome (Unit {0}) × Session D → Outcome (Unit {0}) × Session D
  finish cleanup_fn (ok a, s) = (ok a, s)
  finish cleanup_fn (throws e, s) = rethrow_on_main cleanup_fn e s
  finish cleanup_fn (crash, s) = (crash, s)
  finish cleanup_fn (out_of_fuel, s) = (out_of_fuel, s)

  -- All that the thread still does.
  abbrev pub drain : Worker D → Thread D → Action D
  drain w (running ps) = caught w (run_all ps)
  drain w (failed e) = throw e

  -- The thread has run one part.
  abbrev pub after_part :
      (Thread D → Action D)
      → List (Action D)
      → Outcome (Unit {0}) × Session D
      → Outcome (Unit {0}) × Session D
  after_part rest ps (ok a, s) = rest (running ps) s
  after_part rest ps (throws e, s) = rest (failed e) s
  after_part rest ps (crash, s) = (crash, s)
  after_part rest ps (out_of_fuel, s) = (out_of_fuel, s)

  -- `cancel_fn` threw `e` out of the loop: the future's destructor waits for the thread, and `e`
  -- goes on. The thread's own exception is lost, and `cleanup_fn` is not called.
  abbrev pub escape : Error → Outcome (Unit {0}) × Session D → Outcome (Unit {0}) × Session D
  escape e (ok a, s) = (throws e, s)
  escape e (throws e', s) = (throws e, s)
  escape e (crash, s) = (crash, s)
  escape e (out_of_fuel, s) = (out_of_fuel, s)

  abbrev pub after_cancel :
      Action D → Action D → Outcome (Unit {0}) × Session D → Outcome (Unit {0}) × Session D
  after_cancel rest drained (ok a, s) = rest s
  after_cancel rest drained (throws e, s) = escape e (drained s)
  after_cancel rest drained (crash, s) = (crash, s)
  after_cancel rest drained (out_of_fuel, s) = (out_of_fuel, s)

  -- The wait along a schedule. Past its end the thread runs on alone.
  unfoldable pub wait_for : Worker D → Action D → Action D → List Event → Thread D → Action D
  wait_for w cancel_fn cleanup_fn [] t s = finish cleanup_fn (drain w t s)
  wait_for w cancel_fn cleanup_fn (work ∷ es) (running []) s = (ok tt, s)
  wait_for w cancel_fn cleanup_fn (work ∷ es) (running (p ∷ ps)) s =
      after_part (wait_for w cancel_fn cleanup_fn es) ps (caught w p s)
  wait_for w cancel_fn cleanup_fn (work ∷ es) (failed e) s = rethrow_on_main cleanup_fn e s
  wait_for w cancel_fn cleanup_fn (user_interrupt ∷ es) t s =
      after_cancel (wait_for w cancel_fn cleanup_fn es t) (drain w t)
        ((notify attempting_clean_exit >> cancel_fn) s)

  unfoldable pub run_interruptible : Worker D → Action D → Action D → List Event → Action D
  run_interruptible w cancel_fn cleanup_fn es = wait_for w cancel_fn cleanup_fn es (running w.parts)
