-- ===== src/Result/Always.antt =====
-- What every call keeps, whether it returns, throws or is cut off: a rule for each way to put calls
-- together.
use odbc.Prelude.{
  ℕ, ◌≡◌, refl, inl, inr, Bool, true, false, Option, none, some, ◌==◌, Option-cases, if◌then◌else◌,
  arith, Bool-cases,
}
use odbc.Outcome.{
  M, Sat, Error, Outcome, ok, throws, crash, out_of_fuel, and_then, or_else, ◌>>=◌, ◌>>◌, try_catch,
}
use odbc.Nanodbc.{Reply, done, fails}
use odbc.Session.{Session, Object, Notice, answer, call, object_at, put_object, notify, deref}
use odbc.Result.Safety.{IsSafe}

-- A property of the state is kept.
abbrev pub Always {ℓ} : {S : Type 0} {A : Type ℓ} → (S → Type 0) → M S A → Type 0
Always {S} P m = (s : S) → P s → P (m s).1

module _ {ℓ κ} {S : Type 0} {A : Type ℓ} {B : Type κ} (P : S → Type 0) where
  after :
      (r : Outcome A × S) (f : A → M S B) → P r.1 → ((a : A) → Always P (f a)) → P (and_then r f).1
  after (ok a, s) f h k = k a s h
  after (throws e, s) f h k = h
  after (crash, s) f h k = h
  after (out_of_fuel, s) f h k = h

  pub bind-Always :
      (m : M S A) (f : A → M S B) → Always P m → ((a : A) → Always P (f a)) → Always P (m >>= f)
  bind-Always m f h k s p = after (m s) f (h s p) k

module _ {ℓ} {S : Type 0} {A : Type ℓ} (P : S → Type 0) where
  handled :
      (r : Outcome A × S) (f : Error → M S A)
      → P r.1
      → ((e : Error) → Always P (f e))
      → P (or_else r f).1
  handled (ok a, s) f h k = h
  handled (throws e, s) f h k = k e s h
  handled (crash, s) f h k = h
  handled (out_of_fuel, s) f h k = h

  pub catch-Always :
      (m : M S A) (f : Error → M S A)
      → Always P m
      → ((e : Error) → Always P (f e))
      → Always P (try_catch m f)
  catch-Always m f h k s p = handled (m s) f (h s p) k

  pub if-Always : (b : Bool) (m k : M S A) → Always P m → Always P k → Always P (if b then m else k)
  if-Always true m k h g = h
  if-Always false m k h g = g

  -- What a return and a throw both satisfy, where nothing else happens.
  pub Sat-state : (r : Outcome A × S) → Sat (λ _ s. P s) (λ _ s. P s) r → P r.1
  Sat-state (ok a, s) h = h
  Sat-state (throws e, s) h = h
  Sat-state (crash, s) h = absurd h
  Sat-state (out_of_fuel, s) h = absurd h

  pub keep-Always : (r : Outcome A) → Always P (λ s. (r, s))
  keep-Always r s p = p

module _ {D : Type 0} where
  -- A call of the driver changes its state only.
  answer-safe {ℓ} :
      {A : Type ℓ} (s : Session D) (r : Reply A × D) → IsSafe s → IsSafe (answer s r).1
  answer-safe s (done a, d) (inl h) = inl h
  answer-safe s (done a, d) (inr h) = inr h
  answer-safe s (fails e, d) (inl h) = inl h
  answer-safe s (fails e, d) (inr h) = inr h

  pub call-Always {ℓ} : {A : Type ℓ} (f : D → Reply A × D) → Always {S = Session D} IsSafe (call f)
  call-Always f s p = answer-safe s (f s.driver) p

  pub notify-Always : (n : Notice) → Always {S = Session D} IsSafe (notify n)
  notify-Always n s (inl h) = inl h
  notify-Always n s (inr h) = inr h

  pub deref-Always : {A : Type 0} (o : Option A) → Always {S = Session D} IsSafe (deref o)
  deref-Always none s p = p
  deref-Always (some a) s p = p

  -- A live object may be written, if its statement stays.
  pub put_object-safe :
      (this : ℕ) (o o' : Object) (s : Session D)
      → s.objects this ≡ some o
      → o'.statement ≡ o.statement
      → IsSafe s
      → IsSafe (put_object this o' s).1
  put_object-safe this o o' s e f (inl h) = inl h
  put_object-safe this o o' s e f (inr (r, h, (q, st, p, p'))) = elim (Bool-cases (this == r)) [
    | inl t ↦
        let statement : o'.statement ≡ some st = ground arith in
        inr (r, h, (o', st, rw t refl, statement))
    | inr t ↦ inr (r, h, (q, st, rw t p, p'))
  ]

  -- An object is read and written again, with the same statement.
  pub rewrite-Always {ℓ} :
      {A : Type ℓ} (this : ℕ) (f : Object → Object) (rest : Object → M (Session D) A)
      → ((o : Object) → (f o).statement ≡ o.statement)
      → ((o : Object) → Always IsSafe (rest o))
      → Always IsSafe (object_at this >>= λ o. put_object this (f o) >> rest o)
  rewrite-Always this f rest same keep s p = elim (Option-cases (s.objects this)) [
    | inl e ↦ rw e p
    | inr (o, e) ↦
        rw e (keep o (put_object this (f o) s).1 (put_object-safe this o (f o) s e (same o) p))
  ]

  -- An object is read.
  pub read-Always {ℓ} :
      {A : Type ℓ} (this : ℕ) (rest : Object → M (Session D) A)
      → ((o : Object) → Always IsSafe (rest o))
      → Always IsSafe (object_at this >>= rest)
  read-Always this rest keep =
      bind-Always IsSafe (object_at this) rest (λ s p. deref-Always (s.objects this) s p) keep
