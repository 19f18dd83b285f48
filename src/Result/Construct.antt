-- ===== src/Result/Construct.antt =====
-- The constructor of odbc_result, alone and with the main thread's interrupts in between.
use odbc.Prelude.{
  ℕ, ◌≡◌, refl, ◌⊎◌, inl, inr, Bool, true, false, Option, none, some, List, [], ◌∷◌, arith, ◌==◌,
  if◌then◌else◌, Bool-cases,
}
use odbc.Outcome.{ok, Outcome, Sat, bind-Sat, Sat-mono, pure}
use odbc.Nanodbc.{Nanodbc, done}
use odbc.Session.{Session, Object}
use odbc.Connection.{cancel_through, cancel_current_result, set_current_result}
use odbc.Interrupt.{Event, work, user_interrupt}
use odbc.Interrupt.Rule.{Keeps}
use odbc.Result.{
  make_statement, prepare, run_statement, missing_parameters, execute_unless_missing,
  execute_if_ready, close_statement, cleanup_fn,
}

-- The object's statement, `none` also where there is no object.
abbrev pub statement_in : Option Object → Option ℕ
statement_in none = none
statement_in (some o) = o.statement

abbrev pub PointsAt : ℕ → Option ℕ → Type 0
PointsAt this c = (c ≡ none) ⊎ (c ≡ some this)

-- The object under construction has its statement, and no other is the connection's.
abbrev pub Ready : {D : Type 0} → ℕ → ℕ → Session D → Type 0
Ready this st s = (statement_in (s.objects this) ≡ some st) × PointsAt this s.current_result

-- SQLCancel succeeds.
abbrev pub CancelsCleanly : {D : Type 0} → Nanodbc D → Type 0
CancelsCleanly {D} drv = (st : ℕ) (d : D) → (d' : D) × (drv.cancel st d ≡ (done tt, d'))

module _ {D : Type 0} (drv : Nanodbc D) (this st : ℕ) where
  pub prepare-Keeps : Keeps (Ready this st) (prepare drv this)
  unfolding prepare
  prepare-Keeps s h = ground arith

  pub run_statement-Keeps : (k : ℕ) → Keeps (Ready this st) (run_statement drv this k)
  unfolding run_statement
  run_statement-Keeps k s h = ground arith

  abbrev Kept : {A : Type 0} → Outcome A × Session D → Type 0
  Kept r = Sat (λ _ s'. Ready this st s') (λ _ s'. Ready this st s') r

  missing_parameters-Ready :
      (o : Object) (s : Session D) → Ready this st s → Kept (missing_parameters drv o st s)
  unfolding missing_parameters
  missing_parameters-Ready o s h = ground arith

  execute_unless_missing-Ready :
      (o : Object) (s : Session D) → Ready this st s → Kept (execute_unless_missing drv this o st s)
  unfolding execute_unless_missing
  execute_unless_missing-Ready o s h =
      bind-Sat (λ _ s'. Ready this st s') (λ _ s'. Ready this st s') (λ _ s'. Ready this st s')
        (missing_parameters drv o st) (λ n. if n == 0 then run_statement drv this st else pure tt) s
        (missing_parameters-Ready o s h)
        (λ n s' k. elim (Bool-cases (n == 0)) [
          | inl e ↦ rw e (run_statement-Keeps st s' k)
          | inr e ↦ rw e k
        ])

  pub execute_if_ready-Keeps : Keeps (Ready this st) (execute_if_ready drv this)
  unfolding execute_if_ready
  execute_if_ready-Keeps s h = found (s.objects this) refl
    where
      found : (x : Option Object) → s.objects this ≡ x → Kept (execute_if_ready drv this s)
      found none e = absurd (ground arith)
      found (some o) e =
          rw (e, execute_if_ready)
            (let f : o.statement ≡ some st = ground arith in
              rw (f, execute_if_ready)
                (execute_unless_missing-Ready (record o { statement = some st }) s h))

abbrev pub is_live : Option Object → Bool
is_live none = false
is_live (some o) = true

-- The object is alive, and the connection points nowhere.
abbrev pub Detached : {D : Type 0} → ℕ → Session D → Type 0
Detached this s = (s.current_result ≡ none) × (is_live (s.objects this) ≡ true)

module _ {D : Type 0} (drv : Nanodbc D) (this : ℕ) where
  close_statement-Detached : Keeps (Detached this) (close_statement drv this)
  unfolding close_statement
  close_statement-Detached s h = ground arith

-- The main thread's actions, where SQLCancel succeeds.
module _ {D : Type 0} (drv : Nanodbc D) (clean : CancelsCleanly drv) (this st : ℕ) where
  pub detach-Ready :
      (s : Session D)
      → Ready this st s
      → Sat
          (λ _ s'. Ready this st s' × (s'.current_result ≡ none))
          (λ _ _. ⊥)
          (set_current_result drv none s)
  unfolding set_current_result cancel_current_result cancel_through
  detach-Ready s (h, inl c) = ground arith
  detach-Ready s (h, inr c) = ground (arith, clean st s.driver)

  pub detach-Detached :
      (s : Session D)
      → Ready this st s
      → Sat (λ _ s'. Detached this s') (λ _ s'. Detached this s') (set_current_result drv none s)
  detach-Detached s h =
      Sat-mono (λ _ s'. Ready this st s' × (s'.current_result ≡ none)) (λ _ s'. Detached this s')
        (λ _ _. ⊥) (λ _ s'. Detached this s') (set_current_result drv none s) (detach-Ready s h)
        (λ _ s' k. (k.1, live s' k.0.0)) (λ _ _ b. absurd b)
    where
      live :
          (s' : Session D)
          → statement_in (s'.objects this) ≡ some st
          → is_live (s'.objects this) ≡ true
      live s' e = ground arith

  pub cleanup_fn-Detached :
      (s : Session D)
      → Ready this st s
      → Sat (λ _ s'. Detached this s') (λ _ s'. Detached this s') (cleanup_fn drv this s)
  unfolding cleanup_fn
  cleanup_fn-Detached s h =
      bind-Sat (λ _ s'. Detached this s') (λ _ s'. Detached this s') (λ _ s'. Detached this s')
        (set_current_result drv none) (λ _. close_statement drv this) s (detach-Detached s h)
        (λ _ s' k. close_statement-Detached drv this s' k)

-- No interrupt comes between the registration of the result and the creation of its statement:
-- these are the thread's first two parts, and the main thread waits a second before it looks.
abbrev pub NextWorks : List Event → Type 0
NextWorks [] = Unit {0}
NextWorks (work ∷ es) = Unit {0}
NextWorks (user_interrupt ∷ es) = ⊥

abbrev pub IsSettled : List Event → Type 0
IsSettled [] = Unit {0}
IsSettled (work ∷ es) = NextWorks es
IsSettled (user_interrupt ∷ es) = IsSettled es

module _ {D : Type 0} (drv : Nanodbc D) (this : ℕ) where
  pub registered : Session D → Session D
  registered s = record s { current_result = some this }

  pub register_lem :
      (s : Session D)
      → Detached this s
      → set_current_result drv (some this) s ≡ (ok tt, registered s)
  unfolding set_current_result cancel_current_result registered
  register_lem s h = ground arith

  pub with_statement : Session D → Session D
  with_statement s = (make_statement drv this s).1

  pub make_statement_lem :
      (s : Session D)
      → Detached this s
      → (make_statement drv this (registered s) ≡ (ok tt, with_statement (registered s)))
        × Ready this (drv.new_statement s.driver).0 (with_statement (registered s))
  unfolding make_statement with_statement registered
  make_statement_lem s h = ground arith
