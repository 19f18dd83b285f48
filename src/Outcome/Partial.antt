-- ===== src/Outcome/Partial.antt =====
-- Rules for what a call does where it returns or throws, also if it may be cut off before.
use odbc.Outcome.{
  M, Error, Outcome, ok, throws, crash, out_of_fuel, and_then, or_else, ◌>>=◌, try_catch, throw,
}

-- A postcondition for a return and one for a throw, which a call that is cut off satisfies, too.
abbrev pub Post {ℓ κ} :
    {S : Type ℓ} {A : Type κ} → (A → S → Type 0) → (Error → S → Type 0) → Outcome A × S → Type 0
Post Q E (ok a, s) = Q a s
Post Q E (throws e, s) = E e s
Post Q E (crash, s) = Unit {0}
Post Q E (out_of_fuel, s) = Unit {0}

-- What holds after `m`, if `P` holds before.
pub record Triple {ℓ} {S : Type 0} {A : Type ℓ} (P : S → Type 0) (Q : A → S → Type 0)
    (E : Error → S → Type 0) (m : M S A) : Type ℓ where
  pub after : (s : S) → P s → Post Q E (m s)

module _ {ℓ κ} {S : Type 0} {A : Type ℓ} {B : Type κ} where
  and_then-Post :
      (Q : A → S → Type 0) (R : B → S → Type 0) (E : Error → S → Type 0) (r : Outcome A × S)
      (f : A → M S B)
      → Post Q E r
      → ((a : A) → Triple (Q a) R E (f a))
      → Post R E (and_then r f)
  and_then-Post Q R E (ok a, s) f h k = (k a).after s h
  and_then-Post Q R E (throws e, s) f h k = h
  and_then-Post Q R E (crash, s) f h k = tt
  and_then-Post Q R E (out_of_fuel, s) f h k = tt

  pub bind-Triple :
      {P : S → Type 0} (Q : A → S → Type 0) {R : B → S → Type 0} {E : Error → S → Type 0}
      {m : M S A} {f : A → M S B}
      → Triple P Q E m
      → ((a : A) → Triple (Q a) R E (f a))
      → Triple P R E (m >>= f)
  bind-Triple Q {R} {E} {m} {f} h k = record {
    after = λ s p. and_then-Post Q R E (m s) f (h.after s p) k;
  }

module _ {ℓ} {S : Type 0} {A : Type ℓ} where
  or_else-Post :
      (Q : A → S → Type 0) (E E' : Error → S → Type 0) (r : Outcome A × S) (f : Error → M S A)
      → Post Q E r
      → ((e : Error) → Triple (E e) Q E' (f e))
      → Post Q E' (or_else r f)
  or_else-Post Q E E' (ok a, s) f h k = h
  or_else-Post Q E E' (throws e, s) f h k = (k e).after s h
  or_else-Post Q E E' (crash, s) f h k = tt
  or_else-Post Q E E' (out_of_fuel, s) f h k = tt

  pub catch-Triple :
      {P : S → Type 0} {Q : A → S → Type 0} (E : Error → S → Type 0) {E' : Error → S → Type 0}
      {m : M S A} {f : Error → M S A}
      → Triple P Q E m
      → ((e : Error) → Triple (E e) Q E' (f e))
      → Triple P Q E' (try_catch m f)
  catch-Triple {P} {Q} E {E'} {m} {f} h k = record {
    after = λ s p. or_else-Post Q E E' (m s) f (h.after s p) k;
  }

  pub throw-Triple :
      {P : S → Type 0} {Q : A → S → Type 0} (e : Error) → Triple P Q (λ _ s. P s) (throw {A = A} e)
  throw-Triple e = record { after = λ s p. p }

  -- What is known before a call.
  pub exists-Triple :
      {X : Type 0} {P : X → S → Type 0} {Q : A → S → Type 0} {E : Error → S → Type 0} {m : M S A}
      → ((x : X) → Triple (P x) Q E m)
      → Triple (λ s. (x : X) × P x s) Q E m
  exists-Triple h = record { after = λ s p. (h p.0).after s p.1 }

  kept : (P : S → Type 0) (r : Outcome A × S) → P r.1 → Post (λ _ s. P s) (λ _ s. P s) r
  kept P (ok a, s) h = h
  kept P (throws e, s) h = h
  kept P (crash, s) h = tt
  kept P (out_of_fuel, s) h = tt

  -- What holds after every call.
  pub always-Triple :
      {P : S → Type 0} {m : M S A}
      → ((s : S) → P s → P (m s).1)
      → Triple P (λ _ s. P s) (λ _ s. P s) m
  always-Triple {P} {m} h = record { after = λ s p. kept P (m s) (h s p) }
