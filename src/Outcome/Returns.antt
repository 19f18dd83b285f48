-- ===== src/Outcome/Returns.antt =====
-- Rules for calls that return.
use odbc.Prelude.{◌≡◌, refl, Bool, true, false, if◌then◌else◌}
use odbc.Outcome.{M, Error, ok, Sat, ◌>>=◌, try_catch}

-- The call returns `a` and keeps `P`.
pub record Returns {ℓ} {S : Type 0} {A : Type ℓ} (P : S → Type 0) (a : A) (m : M S A) : Type ℓ where
  pub run : (s : S) → P s → (s' : S) × (m s ≡ (ok a, s')) × P s'

-- The call returns and keeps `P`.
pub record Finds {ℓ} {S : Type 0} {A : Type ℓ} (P : S → Type 0) (m : M S A) : Type ℓ where
  pub run : (s : S) → P s → (a : A) × (s' : S) × (m s ≡ (ok a, s')) × P s'

module _ {S : Type 0} {P : S → Type 0} where
  pub bind-Returns {ℓ κ} :
      {A : Type ℓ} {B : Type κ} (a : A) {b : B} {m : M S A} (f : A → M S B)
      → Returns P a m
      → Returns P b (f a)
      → Returns P b (m >>= f)
  bind-Returns a f h g = record {
    run = λ s p.
        let (s', e, p') = h.run s p in let (s'', e', p'') = g.run s' p' in (s'', rw e e', p'');
  }

  pub bind-Finds {ℓ κ} :
      {A : Type ℓ} {B : Type κ} {b : B} {m : M S A} {f : A → M S B}
      → Finds P m
      → ((a : A) → Returns P b (f a))
      → Returns P b (m >>= f)
  bind-Finds h g = record {
    run = λ s p.
        let (a, s', e, p') = h.run s p in
        let (s'', e', p'') = (g a).run s' p' in (s'', rw e e', p'');
  }

  pub found {ℓ} : {A : Type ℓ} {a : A} {m : M S A} → Returns P a m → Finds P m
  found {a} h = record { run = λ s p. let (s', e, p') = h.run s p in (a, s', e, p') }

  pub catch-Returns {ℓ} :
      {A : Type ℓ} {a : A} {m : M S A} (f : Error → M S A)
      → Returns P a m
      → Returns P a (try_catch m f)
  catch-Returns f h = record { run = λ s p. let (s', e, p') = h.run s p in (s', rw e refl, p') }

  pub if-Returns {ℓ} :
      {A : Type ℓ} (b : Bool) {a : A} {m k : M S A}
      → Returns P a m
      → Returns P a k
      → Returns P a (if b then m else k)
  if-Returns true h g = h
  if-Returns false h g = g

  pub pure-Returns {ℓ} : {A : Type ℓ} (a : A) → Returns P a (λ s. (ok a, s))
  pure-Returns a = record { run = λ s p. (s, refl, p) }

  pub Returns-Sat {ℓ κ} :
      {A : Type ℓ} {B : Type κ} (Q : B → S → Type 0) (E : Error → S → Type 0) (a : A) {m : M S A}
      (f : A → M S B)
      → Returns P a m
      → ((s : S) → P s → Sat Q E (f a s))
      → (s : S) → P s
      → Sat Q E ((m >>= f) s)
  Returns-Sat Q E a f h k s p = let (s', e, p') = h.run s p in rw e (k s' p')
