-- ===== src/Bind/Stable/Triples.antt =====
-- Rules for pre- and postconditions of a binding.
use odbc.Outcome.{M, Error, Outcome, ok, throws, crash, out_of_fuel}
use odbc.Outcome.Partial.{Post, Triple, always-Triple}
use odbc.Session.{Session}
use odbc.Bind.{Binding, in_session}
use odbc.Bind.Stable.{Keeps}

module _ {ℓ} {S : Type 0} {A : Type ℓ} {P : S → Type 0} where
  -- A call that keeps a property, as a triple.
  pub kept : {m : M S A} → Keeps P m → Triple P (λ _ s. P s) (λ _ s. P s) m
  kept h = always-Triple h.after

module _ {ℓ} {D : Type 0} {A : Type ℓ} (Q : A → Session D → Type 0)
    (E : Error → Session D → Type 0) where
  around_post :
      (s : Binding D) (r : Outcome A × Session D)
      → Post Q E r
      → Post (λ x s'. Q x s'.session) (λ e s'. E e s'.session) (r.0, record s { session = r.1 })
  around_post s (ok x, s') h = h
  around_post s (throws e, s') h = h
  around_post s (crash, s') h = tt
  around_post s (out_of_fuel, s') h = tt

  pub in_session-Triple :
      {P : Session D → Type 0} (m : M (Session D) A)
      → Triple P Q E m
      → Triple (λ s. P s.session) (λ x s. Q x s.session) (λ e s. E e s.session) (in_session m)
  in_session-Triple m h = record {
    after = λ s p. around_post s (m s.session) (h.after s.session p);
  }
