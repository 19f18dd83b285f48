-- ===== src/Tests/Results.antt =====
-- Results on the drivers of the tests.
use odbc.Prelude.{ℕ, ◌≡◌, refl, inr, true, false, Option, none, some, List, [], ◌∷◌, ◌++◌, arith}
use odbc.Outcome.{Sat, throws, crash, database_error}
use odbc.Session.{Session, Object, update}
use odbc.Interrupt.{work, user_interrupt, Event, run_interruptible}
use odbc.Interrupt.Progress.{run_interruptible-ends}
use odbc.Result.{initial, new_result, destroy, worker, cancel_fn, cleanup_fn}
use odbc.Result.Safety.{LetsGo, destroy-LetsGo}
use odbc.Result.Lifecycle.{IsReady, new_result-IsSafe}
use odbc.Result.Safety.{IsSafe}
use odbc.Result.Hazards.{early_interrupt_crashes, failed_cancel_dangles}
use odbc.Tests.Drivers.{quiet, broken}

abbrev nothing : ℕ → Option Object
nothing p = none

-- A connection with no results, which runs statements on a thread of their own.
abbrev pub opened : Session ℕ
opened = record {
  driver = 5;
  transaction = none;
  current_result = none;
  objects = nothing;
  interruptible = true;
  notices = [];
}

abbrev pub direct : Session ℕ
direct = record opened { interruptible = false }

abbrev pub executed : Object
executed = record (initial [] false) { statement = some 5; result = some 6; num_columns = 1 }

-- A connection whose result 1 is the current one.
abbrev pub busy : Session ℕ
busy = record opened { current_result = some 1; objects = update nothing 1 (some executed) }

abbrev pub schedule : List Event
schedule = work ∷ work ∷ user_interrupt ∷ work ∷ []

new_result-IsSafe_example :
    Sat
      (λ _ s'. IsSafe s' × IsReady 2 s')
      (λ _ s'. (s'.current_result ≡ none) × (s'.objects 2 ≡ none))
      (new_result quiet 2 [] false schedule busy)
new_result-IsSafe_example =
    new_result-IsSafe quiet (λ st d. (d, refl)) 2 [] false schedule busy
      (inr (1, refl, (executed, 5, refl, refl))) refl tt

destroy-LetsGo_example :
    Sat
      (λ _ s'. LetsGo 1 s' × (s'.objects ≡ update busy.objects 1 none))
      (λ _ _. ⊥)
      (destroy broken 1 busy)
destroy-LetsGo_example =
    destroy-LetsGo broken 1 busy executed (inr (1, refl, (executed, 5, refl, refl))) refl

early_interrupt_crashes_example :
    (new_result quiet 2 [] true (work ∷ user_interrupt ∷ []) opened).0 ≡ crash
early_interrupt_crashes_example = early_interrupt_crashes quiet 2 [] true [] opened refl refl

failed_cancel_dangles_example :
    ((new_result broken 2 [] true [] direct).0 ≡ throws (database_error 7))
    × ((new_result broken 2 [] true [] direct).1.current_result ≡ some 2)
    × ((new_result broken 2 [] true [] direct).1.objects 2 ≡ none)
failed_cancel_dangles_example =
    failed_cancel_dangles broken 2 [] true direct 5 42 7 6 6 6 refl refl refl refl refl

-- A result whose construction has begun.
abbrev starting : Session ℕ
starting = record busy { objects = update busy.objects 2 (some (initial [] false)) }

-- The four parts of the construction and the end, with an interrupt in between.
abbrev long_schedule : List Event
long_schedule = work ∷ work ∷ user_interrupt ∷ work ∷ work ∷ work ∷ []

run_interruptible-ends_example :
    run_interruptible
      (worker quiet 2)
      (cancel_fn quiet)
      (cleanup_fn quiet 2)
      (long_schedule ++ (user_interrupt ∷ work ∷ []))
      starting
    ≡ run_interruptible
        (worker quiet 2)
        (cancel_fn quiet)
        (cleanup_fn quiet 2)
        long_schedule
        starting
run_interruptible-ends_example =
    run_interruptible-ends (worker quiet 2) (cancel_fn quiet) (cleanup_fn quiet 2) long_schedule
      (user_interrupt ∷ work ∷ []) starting (omega arith)
