-- ===== src/Result/Lifecycle.antt =====
-- The constructor of odbc_result along every schedule of its two threads.
use odbc.Prelude.{
  ℕ, ◌≡◌, refl, inl, inr, Bool, true, false, Option, none, some, List, [], ◌∷◌, arith,
  if◌then◌else◌,
}
use odbc.Outcome.{Error, ok, Outcome, Sat, bind-Sat, catch-Sat, Sat-mono, ◌>>◌, throw}
use odbc.Nanodbc.{Nanodbc, Text}
use odbc.Session.{Session, Object, update, attempting_clean_exit}
use odbc.Connection.{cancel_through, cancel_current_result, set_current_result}
use odbc.Interrupt.{
  Action, running, Event, work, user_interrupt, run_all, wait_for, run_interruptible,
}
use odbc.Interrupt.Rule.{wait_for-Out, run_all-Keeps}
use odbc.Result.{
  initial, prepare, execute_if_ready, execute_parts, execute, cancel_fn, cleanup_fn, construct,
  new_result, free, thrown_on_thread, worker,
}
use odbc.Result.Construct.{
  Ready, CancelsCleanly, is_live, Detached, IsSettled, prepare-Keeps, execute_if_ready-Keeps,
  detach-Ready, detach-Detached, cleanup_fn-Detached, registered, register_lem, with_statement,
  make_statement_lem,
}
use odbc.Result.Safety.{IsSafe}

-- What the constructor leaves behind it, on a return and on a throw.
abbrev pub IsReady : {D : Type 0} → ℕ → Session D → Type 0
IsReady this s = (st : ℕ) × Ready this st s

module _ {D : Type 0} (drv : Nanodbc D) (clean : CancelsCleanly drv) (this : ℕ) where
  abbrev after_creation : List (Action D)
  after_creation = prepare drv this ∷ execute_if_ready drv this ∷ []

  abbrev fresh_statement : Session D → ℕ
  fresh_statement s = (drv.new_statement s.driver).0

  abbrev Constructed : Outcome (Unit {0}) × Session D → Type 0
  Constructed r = Sat (λ _ s'. IsReady this s') (λ _ s'. Detached this s') r

  abbrev waiting : List Event → List (Action D) → Session D → Outcome (Unit {0}) × Session D
  waiting es ps s =
      wait_for (worker drv this) (cancel_fn drv) (cleanup_fn drv this) es (running ps) s

  -- Once the statement is there, interrupts may come at any time.
  waiting-Ready :
      (st : ℕ) (es : List Event) (s : Session D)
      → Ready this st s
      → Constructed (waiting es after_creation s)
  unfolding cancel_fn
  waiting-Ready st es s h =
      Sat-mono (λ _ s'. Ready this st s') (λ _ s'. IsReady this s') (λ _ s'. Detached this s')
        (λ _ s'. Detached this s') (waiting es after_creation s)
        (wait_for-Out (Ready this st) (Detached this) (set_current_result drv none)
          (cleanup_fn drv this) (λ s k. k) (λ s k. k)
          (λ s k.
            Sat-mono (λ _ s'. Ready this st s' × (s'.current_result ≡ none))
              (λ _ s'. Ready this st s') (λ _ _. ⊥) (λ _ _. ⊥) (set_current_result drv none s)
              (detach-Ready drv clean this st s k) (λ _ s' k. k.0) (λ _ _ b. b))
          (cleanup_fn-Detached drv clean this st) (worker drv this) es (running after_creation) s
          (prepare-Keeps drv this st, (execute_if_ready-Keeps drv this st, tt)) h)
        (λ _ s' k. (st, k)) (λ _ s' k. k)

  idle_cancel :
      (s : Session D) → s.current_result ≡ none → set_current_result drv none s ≡ (ok tt, s)
  unfolding set_current_result
  idle_cancel s h = ground arith

  drain_created :
      (s : Session D)
      → Detached this s
      → waiting [] (execute_parts drv this) s
        ≡ waiting [] after_creation (with_statement drv this (registered drv this s))
  unfolding wait_for run_all
  drain_created s h = rw (register_lem drv this s h, (make_statement_lem drv this s h).0)

  waiting_from_start :
      (es : List Event) (s : Session D)
      → IsSettled es
      → Detached this s
      → Constructed (waiting es (execute_parts drv this) s)
  unfolding wait_for cancel_fn run_all
  waiting_from_start [] s k h =
      rw (drain_created s h) (waiting-Ready _ [] _ (make_statement_lem drv this s h).1)
  waiting_from_start (work ∷ []) s k h =
      rw (register_lem drv this s h, (make_statement_lem drv this s h).0)
        (waiting-Ready _ [] _ (make_statement_lem drv this s h).1)
  waiting_from_start (work ∷ work ∷ es) s k h =
      rw (register_lem drv this s h, (make_statement_lem drv this s h).0)
        (waiting-Ready _ es _ (make_statement_lem drv this s h).1)
  waiting_from_start (work ∷ user_interrupt ∷ es) s k h = absurd k
  waiting_from_start (user_interrupt ∷ es) s k h =
      let told = record s { notices = attempting_clean_exit ∷ s.notices } in
      rw (idle_cancel told h.0) (waiting_from_start es told k h)

  run_rest :
      (st : ℕ) (s : Session D)
      → Ready this st s
      → Sat (λ _ s'. Ready this st s') (λ _ s'. Ready this st s') (run_all after_creation s)
  run_rest st s h =
      run_all-Keeps (Ready this st) after_creation
        (prepare-Keeps drv this st, (execute_if_ready-Keeps drv this st, tt)) s h

  -- Without a thread of its own the same holds.
  execute-Constructed : (s : Session D) → Detached this s → Constructed (execute drv this s)
  unfolding execute run_all
  execute-Constructed s h =
      let s' = with_statement drv this (registered drv this s) in
      let st : ℕ = fresh_statement s in
      rw (register_lem drv this s h, (make_statement_lem drv this s h).0)
        (catch-Sat (λ _ s'. IsReady this s') (λ _ s'. Ready this st s') (λ _ s'. Detached this s')
          (run_all after_creation)
          (λ e. set_current_result drv none >> throw (thrown_on_thread drv e)) s'
          (Sat-mono (λ _ s'. Ready this st s') (λ _ s'. IsReady this s') (λ _ s'. Ready this st s')
            (λ _ s'. Ready this st s') (run_all after_creation s')
            (run_rest st s' (make_statement_lem drv this s h).1) (λ _ s' k. (st, k)) (λ _ s' k. k))
          (λ e s' k.
            bind-Sat (λ _ s'. Detached this s') (λ _ s'. IsReady this s') (λ _ s'. Detached this s')
              (set_current_result drv none) (λ _. throw (thrown_on_thread drv e)) s'
              (detach-Detached drv clean this st s' k) (λ _ s'' k'. k')))

  -- The state in which the constructor's body starts, when the connection was safe.
  start :
      (s : Session D)
      → IsSafe s
      → is_live (s.objects this) ≡ true
      → Sat (λ _ s'. Detached this s') (λ _ _. ⊥) (cancel_current_result drv s)
  unfolding cancel_current_result cancel_through
  start s (inl c) l = ground arith
  start s (inr (r, c, (o, st, p, q))) l = ground (arith, clean st s.driver)

  both_ways :
      (b : Bool) (m n : Action D) (s : Session D)
      → Constructed (m s)
      → Constructed (n s)
      → Constructed ((if b then m else n) s)
  both_ways true m n s h k = h
  both_ways false m n s h k = k

  ready_is_safe : (s : Session D) → IsReady this s → IsSafe s
  ready_is_safe s (st, (h, inl c)) = inl c
  ready_is_safe s (st, (h, inr c)) = inr (this, c, live (s.objects this) refl)
    where
      live :
          (x : Option Object)
          → s.objects this ≡ x
          → (o : Object) × (st' : ℕ) × (s.objects this ≡ some o) × (o.statement ≡ some st')
      live none e = absurd (ground arith)
      live (some o) e = (o, st, e, ground arith)

  allocated :
      (s : Session D) (o : Object)
      → IsSafe s
      → s.objects this ≡ none
      → IsSafe (record s { objects = update s.objects this (some o) })
  allocated s o (inl c) new = inl c
  allocated s o (inr (r, c, (o', st, p, q))) new = inr (r, c, (o', st, ground arith, q))

  free-Detached :
      (e : Error) (s : Session D)
      → Detached this s
      → Sat {A = Unit {0}}
          (λ _ s'. IsSafe s' × IsReady this s')
          (λ _ s'. (s'.current_result ≡ none) × (s'.objects this ≡ none))
          ((free drv this >> throw e) s)
  unfolding free
  free-Detached e s h = ground arith

  construct-Constructed :
      (es : List Event) (s : Session D)
      → IsSettled es
      → IsSafe s
      → is_live (s.objects this) ≡ true
      → Constructed (construct drv this es s)
  unfolding construct run_interruptible
  construct-Constructed es s settled safe live =
      bind-Sat (λ _ s'. Detached this s') (λ _ s'. IsReady this s') (λ _ s'. Detached this s')
        (cancel_current_result drv) _ s
        (Sat-mono (λ _ s'. Detached this s') (λ _ s'. Detached this s') (λ _ _. ⊥)
          (λ _ s'. Detached this s') (cancel_current_result drv s) (start s safe live) (λ _ _ k. k)
          (λ _ _ b. absurd b))
        (λ _ s' k.
          both_ways s'.interruptible _ _ s' (waiting_from_start es s' settled k)
            (execute-Constructed s' k))

  -- Where SQLCancel never fails and the address is free, a connection that is safe before
  -- `new odbc_result` is safe after it, on a thread of its own or not, along every schedule in
  -- which the user does not interrupt between the first two calls of the worker. A return leaves
  -- the object alive with its statement; a throw leaves the address free and the pointer null.
  pub new_result-IsSafe :
      (sql : Text) (immediate : Bool) (es : List Event) (s : Session D)
      → IsSafe s
      → s.objects this ≡ none
      → IsSettled es
      → Sat
          (λ _ s'. IsSafe s' × IsReady this s')
          (λ _ s'. (s'.current_result ≡ none) × (s'.objects this ≡ none))
          (new_result drv this sql immediate es s)
  unfolding new_result
  new_result-IsSafe sql immediate es s safe new settled =
      let s' = record s { objects = update s.objects this (some (initial sql immediate)) } in
      catch-Sat (λ _ s'. IsSafe s' × IsReady this s') (λ _ s'. Detached this s')
        (λ _ s'. (s'.current_result ≡ none) × (s'.objects this ≡ none)) (construct drv this es)
        (λ e. free drv this >> throw e) s'
        (Sat-mono (λ _ s'. IsReady this s') (λ _ s'. IsSafe s' × IsReady this s')
          (λ _ s'. Detached this s') (λ _ s'. Detached this s') (construct drv this es s')
          (construct-Constructed es s' settled (allocated s (initial sql immediate) safe new)
            (ground arith))
          (λ _ s'' k. (ready_is_safe s'' k, k)) (λ _ _ k. k))
        free-Detached
