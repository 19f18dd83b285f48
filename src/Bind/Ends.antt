-- ===== src/Bind/Ends.antt =====
-- Calls of a binding that do not use up the fuel: rules for the ways to put calls together.
pub mod Vectors
pub mod Frames
pub mod Rounds
use odbc.Prelude.{
  ℕ, Bool, true, false, if◌then◌else◌, Option, none, some, List, [], ◌∷◌, inl, inr, Option-cases,
}
use odbc.Outcome.{
  M, Error, r_stop, unsupported_type, Outcome, ok, throws, crash, out_of_fuel, and_then, or_else,
  ◌>>=◌, try_catch,
}
use odbc.Outcome.Partial.{Post}
use odbc.Nanodbc.{Reply, done, fails}
use odbc.Session.{Session, answer, call}
use odbc.Params.{ParamData}
use odbc.Types.{RType, Shape, parameter_type, parameter_types}
use odbc.Bind.{Binding, Buffers, own, tvp, in_session, get_buffers, put_buffers, in_range}

-- The fuel has been enough.
abbrev pub Ended {ℓ} : {A : Type ℓ} → Outcome A → Type 0
Ended (ok a) = Unit {0}
Ended (throws e) = Unit {0}
Ended crash = Unit {0}
Ended out_of_fuel = ⊥

-- It is enough in each state.
pub record Ends {ℓ} {S : Type 0} {A : Type ℓ} (m : M S A) : Type ℓ where
  pub ends : (s : S) → Ended (m s).0

module _ {ℓ κ} {S : Type 0} {A : Type ℓ} {B : Type κ} where
  and_then-Ended :
      (r : Outcome A × S) (f : A → M S B)
      → Ended r.0
      → ((a : A) → Ends (f a))
      → Ended (and_then r f).0
  and_then-Ended (ok a, s) f h k = (k a).ends s
  and_then-Ended (throws e, s) f h k = tt
  and_then-Ended (crash, s) f h k = tt
  and_then-Ended (out_of_fuel, s) f h k = elim h [ ]

  pub bind-Ends : {m : M S A} {f : A → M S B} → Ends m → ((a : A) → Ends (f a)) → Ends (m >>= f)
  bind-Ends {m} {f} h k = record { ends = λ s. and_then-Ended (m s) f (h.ends s) k }

module _ {ℓ} {S : Type 0} {A : Type ℓ} where
  or_else-Ended :
      (r : Outcome A × S) (f : Error → M S A)
      → Ended r.0
      → ((e : Error) → Ends (f e))
      → Ended (or_else r f).0
  or_else-Ended (ok a, s) f h k = tt
  or_else-Ended (throws e, s) f h k = (k e).ends s
  or_else-Ended (crash, s) f h k = tt
  or_else-Ended (out_of_fuel, s) f h k = elim h [ ]

  pub catch-Ends :
      {m : M S A} {f : Error → M S A} → Ends m → ((e : Error) → Ends (f e)) → Ends (try_catch m f)
  catch-Ends {m} {f} h k = record { ends = λ s. or_else-Ended (m s) f (h.ends s) k }

  pub if-Ends : (b : Bool) {m k : M S A} → Ends m → Ends k → Ends (if b then m else k)
  if-Ends true h g = h
  if-Ends false h g = g

  pub same-Ends : (r : Outcome A) → Ended r → Ends {S = S} (λ s. (r, s))
  same-Ends r h = record { ends = λ s. h }

module _ {ℓ} {D : Type 0} {A : Type ℓ} where
  answer-Ended : (s : Session D) (r : Reply A × D) → Ended (answer s r).0
  answer-Ended s (done x, d) = tt
  answer-Ended s (fails e, d) = tt

  -- A call of nanodbc returns or throws.
  pub call-Ends : (f : D → Reply A × D) → Ends (call f)
  call-Ends f = record { ends = λ s. answer-Ended s (f s.driver) }

  pub in_session-Ends : (m : M (Session D) A) → Ends m → Ends (in_session m)
  in_session-Ends m h = record { ends = λ s. h.ends s.session }

  pub in_range-Ends : (o : Option A) → Ends {S = Binding D} (in_range o)
  in_range-Ends none = record { ends = λ s. tt }
  in_range-Ends (some a) = record { ends = λ s. tt }

module _ {D : Type 0} where
  pub get_buffers-Ends : (to : Buffers) → Ends {S = Binding D} (get_buffers to)
  get_buffers-Ends to = record { ends = λ s. tt }

  pub put_buffers-Ends : (to : Buffers) (d : ParamData) → Ends {S = Binding D} (put_buffers to d)
  put_buffers-Ends own d = record { ends = λ s. tt }
  put_buffers-Ends (tvp i) d = record { ends = λ s. tt }

pub parameter_types-Ended : (xs : List Shape) → Ended (parameter_types xs)
unfolding parameter_types
parameter_types-Ended [] = tt
parameter_types-Ended (x ∷ xs) =
    typed (parameter_type x) (parameter_types xs) (parameter_types-Ended xs)
  where
    typed :
        (o : Option RType) (r : Outcome (List RType))
        → Ended r
        → Ended {A = List RType} (elim o [
          | none ↦ throws (r_stop unsupported_type)
          | some t ↦ elim r [ ok ts ↦ ok (t ∷ ts) | other ↦ other ]
        ])
    typed none r h = tt
    typed (some t) (ok ts) h = tt
    typed (some t) (throws e) h = tt
    typed (some t) crash h = tt
    typed (some t) out_of_fuel h = h

-- A postcondition for a return and one for a throw, which out of fuel does not satisfy.
abbrev pub Settles {ℓ κ} :
    {S : Type ℓ} {A : Type κ} → (A → S → Type 0) → (Error → S → Type 0) → Outcome A × S → Type 0
Settles Q E (ok a, s) = Q a s
Settles Q E (throws e, s) = E e s
Settles Q E (crash, s) = Unit {0}
Settles Q E (out_of_fuel, s) = ⊥

pub Post-Settles {ℓ κ} :
    {S : Type ℓ} {A : Type κ} (Q : A → S → Type 0) (E : Error → S → Type 0) (r : Outcome A × S)
    → Post Q E r
    → Ended r.0
    → Settles Q E r
Post-Settles Q E (ok a, s) h e = h
Post-Settles Q E (throws x, s) h e = h
Post-Settles Q E (crash, s) h e = tt
Post-Settles Q E (out_of_fuel, s) h e = elim e [ ]
