-- ===== src/Result/Safety.antt =====
-- The raw pointer `current_result_` of odbc_connection, and the methods that move it.
use odbc.Prelude.{
  ℕ, ◌≡◌, refl, sym, ap, ◌∙◌, ◌⊎◌, inl, inr, true, false, Option, none, some, arith, Bool-cases,
  ◌≢◌,
}
use odbc.Outcome.{Sat, bind-Sat, catch-Sat, Sat-mono}
use odbc.Nanodbc.{Nanodbc}
use odbc.Session.{Session, Object, update, same}
use odbc.Connection.{
  set_current, cancel_through, cancel_current_result, set_current_result, is_current_result,
}
use odbc.Result.{let_go, destroy, free}

-- An object that the connection may cancel: it is alive, and has a statement.
abbrev pub Cancellable : {D : Type 0} → ℕ → Session D → Type 0
Cancellable r s = (o : Object) × (st : ℕ) × (s.objects r ≡ some o) × (o.statement ≡ some st)

-- `current_result_` is null, or points to an object that may be cancelled.
abbrev pub IsSafe : {D : Type 0} → Session D → Type 0
IsSafe s = (s.current_result ≡ none) ⊎ ((r : ℕ) × (s.current_result ≡ some r) × Cancellable r s)

pub same-eq : (a b : Option ℕ) → same a b ≡ true → a ≡ b
same-eq none none h = refl
same-eq none (some b) h = cc
same-eq (some a) none h = cc
same-eq (some a) (some b) h = ground arith

-- The connection is safe and does not point to `this`.
abbrev pub LetsGo : {D : Type 0} → ℕ → Session D → Type 0
LetsGo this s =
    (s.current_result ≡ none)
    ⊎ ((r : ℕ) × (s.current_result ≡ some r) × (r ≢ this) × Cancellable r s)

pub LetsGo-IsSafe : {D : Type 0} (this : ℕ) (s : Session D) → LetsGo this s → IsSafe s
LetsGo-IsSafe this s (inl h) = inl h
LetsGo-IsSafe this s (inr (r, h, ne, c)) = inr (r, h, c)

module _ {D : Type 0} (drv : Nanodbc D) where
  -- A safe connection lets go of its result, or SQLCancel throws and only the driver's state has
  -- changed.
  pub cancel_current_result_lem :
      (s : Session D)
      → IsSafe s
      → Sat
          (λ _ s'.
            (s'.current_result ≡ none)
            × (s'.objects ≡ s.objects)
            × (s'.interruptible ≡ s.interruptible))
          (λ _ s'. (s'.current_result ≡ s.current_result) × (s'.objects ≡ s.objects))
          (cancel_current_result drv s)
  unfolding cancel_current_result cancel_through
  cancel_current_result_lem s (inl e) = rw (e, cancel_current_result) (e, refl, refl)
  cancel_current_result_lem s (inr (r, e, (o, st, p, q))) = ground arith

  pub set_current_result_lem :
      (p : Option ℕ) (s : Session D)
      → IsSafe s
      → Sat
          (λ _ s'. (s'.current_result ≡ p) × (s'.objects ≡ s.objects))
          (λ _ s'. (s'.current_result ≡ s.current_result) × (s'.objects ≡ s.objects))
          (set_current_result drv p s)
  unfolding set_current_result
  set_current_result_lem p s safe = elim (Bool-cases (same p s.current_result)) [
    | inl e ↦ rw e (sym (same-eq p s.current_result e), refl)
    | inr e ↦ rw e (
        bind-Sat
          (λ _ s'.
            (s'.current_result ≡ none)
            × (s'.objects ≡ s.objects)
            × (s'.interruptible ≡ s.interruptible))
          (λ _ s'. (s'.current_result ≡ p) × (s'.objects ≡ s.objects))
          (λ _ s'. (s'.current_result ≡ s.current_result) × (s'.objects ≡ s.objects))
          (cancel_current_result drv) (λ _. set_current p) s (cancel_current_result_lem s safe)
          (λ _ s' h. (refl, h.1)))
  ]

  -- A state with the same pointer and the same objects is as safe.
  pub IsSafe-same :
      (s s' : Session D)
      → s'.current_result ≡ s.current_result
      → s'.objects ≡ s.objects
      → IsSafe s
      → IsSafe s'
  IsSafe-same s s' e f (inl h) = inl (e ∙ h)
  IsSafe-same s s' e f (inr (r, h, (o, st, p, q))) = inr (r, e ∙ h, (o, st, ap (λ g. g r) f ∙ p, q))

  -- The destruction of the members of a live object, to which the connection does not point.
  pub free_lem :
      (this : ℕ) (s : Session D) (o : Object)
      → s.objects this ≡ some o
      → LetsGo this s
      → Sat
          (λ _ s'. LetsGo this s' × (s'.objects ≡ update s.objects this none))
          (λ _ _. ⊥)
          (free drv this s)
  unfolding free
  free_lem this s o p (inl h) = rw p (inl h, refl)
  free_lem this s o p (inr (r, h, ne, (o', st, q, q'))) =
      rw p (inr (r, h, ne, (o', st, ground arith, q')), refl)

  same_self : (r : ℕ) → same (some r) (some r) ≡ true
  same_self r = ground arith

  -- What the destructor does before the members are destroyed.
  let_go_lem :
      (this : ℕ) (s : Session D)
      → IsSafe s
      → Sat (λ _ s'. LetsGo this s' × (s'.objects ≡ s.objects)) (λ _ _. ⊥) (let_go drv this s)
  unfolding let_go is_current_result
  let_go_lem this s safe = elim (Bool-cases (same s.current_result (some this))) [
    | inl e ↦ rw e (
        catch-Sat (λ _ s'. LetsGo this s' × (s'.objects ≡ s.objects))
          (λ _ s'. (s'.current_result ≡ s.current_result) × (s'.objects ≡ s.objects)) (λ _ _. ⊥)
          (set_current_result drv none) (λ e. set_current none) s
          (Sat-mono (λ _ s'. (s'.current_result ≡ none) × (s'.objects ≡ s.objects)) _
            (λ _ s'. (s'.current_result ≡ s.current_result) × (s'.objects ≡ s.objects)) _
            (set_current_result drv none s) (set_current_result_lem none s safe)
            (λ _ s' h. (inl h.0, h.1)) (λ _ s' h. h))
          (λ _ s' h. (inl refl, h.1)))
    | inr e ↦ rw e (keeps safe e, refl)
  ]
    where
      keeps : IsSafe s → same s.current_result (some this) ≡ false → LetsGo this s
      keeps (inl h) e = inl h
      keeps (inr (r, h, c)) e = inr (r, h, (λ r≡. ground (arith, same_self this)), c)

  -- The destructor of a live result returns and frees exactly that object. It leaves the
  -- connection safe and not pointing to it, whatever SQLCancel does.
  pub destroy-LetsGo :
      (this : ℕ) (s : Session D) (o : Object)
      → IsSafe s
      → s.objects this ≡ some o
      → Sat
          (λ _ s'. LetsGo this s' × (s'.objects ≡ update s.objects this none))
          (λ _ _. ⊥)
          (destroy drv this s)
  unfolding destroy
  destroy-LetsGo this s o safe p =
      bind-Sat (λ _ s'. LetsGo this s' × (s'.objects ≡ s.objects))
        (λ _ s'. LetsGo this s' × (s'.objects ≡ update s.objects this none)) (λ _ _. ⊥)
        (let_go drv this) (λ _. free drv this) s (let_go_lem this s safe)
        (λ _ s' h.
          Sat-mono (λ _ s''. LetsGo this s'' × (s''.objects ≡ update s'.objects this none))
            (λ _ s''. LetsGo this s'' × (s''.objects ≡ update s.objects this none)) (λ _ _. ⊥)
            (λ _ _. ⊥) (free drv this s') (free_lem this s' o (ap (λ g. g this) h.1 ∙ p) h.0)
            (λ _ s'' k. (k.0, k.1 ∙ ap (λ g. update g this none) h.1)) (λ _ _ b. b))
