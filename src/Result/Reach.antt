-- ===== src/Result/Reach.antt =====
-- The calls that a user makes on a connection and its results, in any order: each is a step, with what
-- R's finalizers and its event loop decide left open.
use odbc.Prelude.{ℕ, ◌≡◌, inl, none, some, List, arith, Bool}
use odbc.Prelude.Int.{ℤ}
use odbc.Outcome.{Sat-mono}
use odbc.Nanodbc.{Nanodbc, Rows, Text}
use odbc.Session.{Session, Object}
use odbc.Connection.{begin, commit, rollback}
use odbc.Types.{BigintMap}
use odbc.Interrupt.{Event}
use odbc.Result.{new_result, destroy}
use odbc.Result.Safety.{IsSafe, LetsGo, LetsGo-IsSafe, destroy-LetsGo}
use odbc.Result.Construct.{CancelsCleanly, IsSettled}
use odbc.Result.Lifecycle.{IsReady, new_result-IsSafe}
use odbc.Result.Fetches.{Headers, fetch}
use odbc.Result.Always.{Always, Sat-state}
use odbc.Result.Safely.{fetch-Safely}
use odbc.Params.{Params, Binder, Zones, Memory}
use odbc.Bind.{Binding}
use odbc.Bind.Rounds.{Description, bind_list, describe_parameters}
use odbc.Result.Binds.{bind_list-Safely, describe_parameters-Safely}

module _ {D : Type 0} (drv : Nanodbc D) (rows : Rows D) (headers : Headers D)
    (mapping : BigintMap) where
  -- One call, from the state before it to the state after it, whether it returns or throws.
  pub data Step : Session D → Session D → Type 0 where
    new_at :
        (this : ℕ) (sql : Text) (immediate : Bool) (es : List Event) {s : Session D}
        → s.objects this ≡ none
        → IsSettled es
        → Step s (new_result drv this sql immediate es s).1
    destroy_at :
        (this : ℕ) (o : Object) {s : Session D}
        → s.objects this ≡ some o
        → Step s (destroy drv this s).1
    fetch_from :
        (fuel this : ℕ) (n_max : ℤ) {s : Session D}
        → Step s (fetch drv rows headers mapping fuel this n_max s).1
    bind_list_at :
        (binder : Binder D) (zones : Zones) (mem : Memory) (timezone this fuel : ℕ) (xs : Params)
        (use_transaction : Bool) (batch_rows : ℕ) (s : Binding D)
        → Step s.session
            (bind_list drv binder zones mem timezone this fuel xs use_transaction batch_rows
              s).1.session
    describe_parameters_at :
        (binder : Binder D) (zones : Zones) (mem : Memory) (timezone this : ℕ) (x : Description)
        {s : Session D}
        → Step s (describe_parameters drv binder zones mem timezone this x s).1
    begin_one : {s : Session D} → Step s (begin drv s).1
    commit_one : {s : Session D} → Step s (commit drv s).1
    roll_back_one : {s : Session D} → Step s (rollback drv s).1

  pub data Reach (s : Session D) : Session D → Type 0 where
    here : Reach s s
    then_step : {t u : Session D} → Reach s t → Step t u → Reach s u

  new_result-Safely :
      (clean : CancelsCleanly drv) (this : ℕ) (sql : Text) (immediate : Bool) (es : List Event)
      (s : Session D)
      → s.objects this ≡ none
      → IsSettled es
      → IsSafe s
      → IsSafe (new_result drv this sql immediate es s).1
  new_result-Safely clean this sql immediate es s new settled safe =
      Sat-state IsSafe (new_result drv this sql immediate es s) (
        Sat-mono (λ _ s'. IsSafe s' × IsReady this s') (λ _ s'. IsSafe s')
          (λ _ s'. (s'.current_result ≡ none) × (s'.objects this ≡ none)) (λ _ s'. IsSafe s')
          (new_result drv this sql immediate es s)
          (new_result-IsSafe drv clean this sql immediate es s safe new settled) (λ _ s' h. h.0)
          (λ _ s' h. inl h.0))

  destroy-Safely :
      (this : ℕ) (o : Object) (s : Session D)
      → s.objects this ≡ some o
      → IsSafe s
      → IsSafe (destroy drv this s).1
  destroy-Safely this o s live safe = Sat-state IsSafe (destroy drv this s) (
      Sat-mono (λ _ s'. LetsGo this s' × (s'.objects ≡ _)) (λ _ s'. IsSafe s') (λ _ _. ⊥)
        (λ _ s'. IsSafe s') (destroy drv this s) (destroy-LetsGo drv this s o safe live)
        (λ _ s' h. LetsGo-IsSafe this s' h.0) (λ _ s' b. absurd b))

  begin-Safely : Always IsSafe (begin drv)
  unfolding begin
  begin-Safely s p = ground arith

  commit-Safely : Always IsSafe (commit drv)
  unfolding commit
  commit-Safely s p = ground arith

  rollback-Safely : Always IsSafe (rollback drv)
  unfolding rollback
  rollback-Safely s p = ground arith

  step-IsSafe : (clean : CancelsCleanly drv) {s t : Session D} → Step s t → IsSafe s → IsSafe t
  step-IsSafe clean (new_at this sql immediate es new settled) p =
      new_result-Safely clean this sql immediate es _ new settled p
  step-IsSafe clean (destroy_at this o live) p = destroy-Safely this o _ live p
  step-IsSafe clean (fetch_from fuel this n_max) p =
      fetch-Safely drv rows headers mapping fuel this n_max _ p
  step-IsSafe clean
        (bind_list_at binder zones mem timezone this fuel xs use_transaction batch_rows s) p =
      bind_list-Safely drv binder zones mem timezone this fuel xs use_transaction batch_rows s p
  step-IsSafe clean (describe_parameters_at binder zones mem timezone this x) p =
      describe_parameters-Safely drv binder zones mem timezone this x _ p
  step-IsSafe clean begin_one p = begin-Safely _ p
  step-IsSafe clean commit_one p = commit-Safely _ p
  step-IsSafe clean roll_back_one p = rollback-Safely _ p

  -- Where SQLCancel succeeds, a connection that is safe stays so along every sequence of calls:
  -- results made at free addresses, on schedules without an interrupt between the worker's first two
  -- calls, fetches, parameters described and bound with whatever the driver answers, and results
  -- destroyed at any time, with transactions begun and ended in between, whether each call returns or
  -- throws. A connection just opened is safe.
  pub reach-IsSafe :
      (clean : CancelsCleanly drv) {s t : Session D} → Reach s t → IsSafe s → IsSafe t
  reach-IsSafe clean here p = p
  reach-IsSafe clean (then_step reach step) p = step-IsSafe clean step (reach-IsSafe clean reach p)
