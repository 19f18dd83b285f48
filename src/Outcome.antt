-- ===== src/Outcome.antt =====
-- How a C++ call ends, and the state monad in which the methods are written. A call that throws
-- keeps the changes made so far, and a `catch` goes on from there.
pub mod Partial
pub mod Returns
use odbc.Prelude.{ℕ, ◌≡◌, refl}

-- What `Rcpp::stop` is called with.
pub data Stop : Type 0 where
  double_begin commit_without_begin rollback_without_begin : Stop
  no_parameters wrong_parameter_count not_bound not_implemented unsupported_type : Stop
  time_zone_error timezone_out_error : Stop
  cannot_convert iconv_initialisation invalid_multibyte incomplete_multibyte : Stop
  buffer_too_small unknown_iconv_failure invalid_pointer : Stop

-- The exceptions: nanodbc's, the formatted `odbc_error`, those of Rcpp, and any other.
pub data Error : Type 0 where
  database_error : ℕ → Error
  odbc_error : ℕ → Error
  r_stop : Stop → Error
  interrupted : Error
  other_error : ℕ → Error

-- `crash` is undefined behaviour, such as a call through a null or a dangling pointer.
-- `out_of_fuel` is the end of the model's fuel, and no behaviour of the code.
pub data Outcome {ℓ} (A : Type ℓ) : Type ℓ where
  ok : A → Outcome A
  throws : Error → Outcome A
  crash : Outcome A
  out_of_fuel : Outcome A

abbrev pub M {ℓ κ} : Type ℓ → Type κ → Type (ℓ ⊔ κ)
M S A = S → Outcome A × S

module _ {ℓ κ} {S : Type ℓ} {A : Type κ} where
  abbrev pub pure : A → M S A
  pure a s = (ok a, s)

  abbrev pub throw : Error → M S A
  throw e s = (throws e, s)

  abbrev pub fault : M S A
  fault s = (crash, s)

-- The rest of a call after a first part, which may have thrown.
abbrev pub and_then {ℓ κ ι} :
    {S : Type ℓ} {A : Type κ} {B : Type ι} → Outcome A × S → (A → M S B) → Outcome B × S
and_then (ok a, s) f = f a s
and_then (throws e, s) f = (throws e, s)
and_then (crash, s) f = (crash, s)
and_then (out_of_fuel, s) f = (out_of_fuel, s)

infixl 5 ◌>>=◌ ◌>>◌
abbrev pub ◌>>=◌ {ℓ κ ι} : {S : Type ℓ} {A : Type κ} {B : Type ι} → M S A → (A → M S B) → M S B
◌>>=◌ m f s = and_then (m s) f

abbrev pub ◌>>◌ {ℓ κ} : {S : Type ℓ} {B : Type κ} → M S (Unit {0}) → M S B → M S B
m >> k = m >>= λ _. k

abbrev pub or_else {ℓ κ} :
    {S : Type ℓ} {A : Type κ} → Outcome A × S → (Error → M S A) → Outcome A × S
or_else (ok a, s) h = (ok a, s)
or_else (throws e, s) h = h e s
or_else (crash, s) h = (crash, s)
or_else (out_of_fuel, s) h = (out_of_fuel, s)

-- `try { m } catch (e) { h e }`, where `h` throws `e` again if it does not handle it.
abbrev pub try_catch {ℓ κ} : {S : Type ℓ} {A : Type κ} → M S A → (Error → M S A) → M S A
try_catch m h s = or_else (m s) h

-- A postcondition for a return and one for a throw; a crash satisfies none.
abbrev pub Sat {ℓ κ} :
    {S : Type ℓ} {A : Type κ} → (A → S → Type 0) → (Error → S → Type 0) → Outcome A × S → Type 0
Sat Q E (ok a, s) = Q a s
Sat Q E (throws e, s) = E e s
Sat Q E (crash, s) = ⊥
Sat Q E (out_of_fuel, s) = ⊥

module _ {ℓ κ} {S : Type ℓ} {A : Type κ} where
  and_then-Sat {ι} :
      {B : Type ι} (Q : A → S → Type 0) (R : B → S → Type 0) (E : Error → S → Type 0)
      (r : Outcome A × S) (f : A → M S B)
      → Sat Q E r
      → ((a : A) (s : S) → Q a s → Sat R E (f a s))
      → Sat R E (and_then r f)
  and_then-Sat Q R E (ok a, s) f h k = k a s h
  and_then-Sat Q R E (throws e, s) f h k = h
  and_then-Sat Q R E (crash, s) f h k = h
  and_then-Sat Q R E (out_of_fuel, s) f h k = h

  -- The rule for a sequence.
  pub bind-Sat {ι} :
      {B : Type ι} (Q : A → S → Type 0) (R : B → S → Type 0) (E : Error → S → Type 0) (m : M S A)
      (f : A → M S B) (s : S)
      → Sat Q E (m s)
      → ((a : A) (s' : S) → Q a s' → Sat R E (f a s'))
      → Sat R E ((m >>= f) s)
  bind-Sat Q R E m f s h k = and_then-Sat Q R E (m s) f h k

  or_else-Sat :
      (Q : A → S → Type 0) (E E' : Error → S → Type 0) (r : Outcome A × S) (h : Error → M S A)
      → Sat Q E r
      → ((e : Error) (s : S) → E e s → Sat Q E' (h e s))
      → Sat Q E' (or_else r h)
  or_else-Sat Q E E' (ok a, s) h p k = p
  or_else-Sat Q E E' (throws e, s) h p k = k e s p
  or_else-Sat Q E E' (crash, s) h p k = p
  or_else-Sat Q E E' (out_of_fuel, s) h p k = p

  -- The rule for a handler.
  pub catch-Sat :
      (Q : A → S → Type 0) (E E' : Error → S → Type 0) (m : M S A) (h : Error → M S A) (s : S)
      → Sat Q E (m s)
      → ((e : Error) (s' : S) → E e s' → Sat Q E' (h e s'))
      → Sat Q E' (try_catch m h s)
  catch-Sat Q E E' m h s p k = or_else-Sat Q E E' (m s) h p k

  -- Weaker postconditions.
  pub Sat-mono :
      (Q Q' : A → S → Type 0) (E E' : Error → S → Type 0) (r : Outcome A × S)
      → Sat Q E r
      → ((a : A) (s : S) → Q a s → Q' a s)
      → ((e : Error) (s : S) → E e s → E' e s)
      → Sat Q' E' r
  Sat-mono Q Q' E E' (ok a, s) h f g = f a s h
  Sat-mono Q Q' E E' (throws e, s) h f g = g e s h
  Sat-mono Q Q' E E' (crash, s) h f g = h
  Sat-mono Q Q' E E' (out_of_fuel, s) h f g = h

  -- A call that does not throw returns.
  pub Sat-ok :
      (Q : A → S → Type 0) (r : Outcome A × S)
      → Sat Q (λ _ _. ⊥) r
      → (a : A) × (s : S) × (r ≡ (ok a, s)) × Q a s
  Sat-ok Q (ok a, s) h = (a, s, refl, h)
  Sat-ok Q (throws e, s) h = absurd h
  Sat-ok Q (crash, s) h = absurd h
  Sat-ok Q (out_of_fuel, s) h = absurd h
