-- ===== src/Session.antt =====
-- The store of one connection: the fields of odbc_connection (src/odbc_connection.h) that change,
-- and the live odbc_result objects (src/odbc_result.h) by their address.
use odbc.Prelude.{ℕ, Bool, true, false, Option, none, some, List, ◌∷◌, ◌==◌, if◌then◌else◌}
use odbc.Outcome.{Outcome, ok, throws, M, fault}
use odbc.Nanodbc.{Reply, done, fails, Text}

-- The fields of odbc_result. `statement` and `result` are shared pointers, null as `none`.
pub record Object : Type 0 where
  pub statement : Option ℕ
  pub result : Option ℕ
  pub sql : Text
  pub rows_fetched : ℕ
  pub num_columns : ℕ
  pub complete : Bool
  pub bound : Bool
  pub immediate : Bool

-- What the user is told by `raise_message` and `raise_warning`.
pub data Notice : Type 0 where
  attempting_clean_exit unknown_exception unable_to_unbind : Notice
  unknown_precision unknown_time_zone unknown_field_type : Notice
  result_still_in_use unable_to_locate_tz : Notice

-- `current_result` is a raw pointer. An address that holds `none` is free.
pub record Session (D : Type 0) : Type 0 where
  pub driver : D
  pub transaction : Option ℕ
  pub current_result : Option ℕ
  pub objects : ℕ → Option Object
  pub interruptible : Bool
  pub notices : List Notice

abbrev pub update : (ℕ → Option Object) → ℕ → Option Object → ℕ → Option Object
update f p o q = if p == q then o else f q

-- Equality of pointers.
abbrev pub same : Option ℕ → Option ℕ → Bool
same none none = true
same none (some b) = false
same (some a) none = false
same (some a) (some b) = a == b

module _ {D : Type 0} where
  abbrev pub answer {ℓ} : {A : Type ℓ} → Session D → Reply A × D → Outcome A × Session D
  answer s (done a, d) = (ok a, record s { driver = d })
  answer s (fails e, d) = (throws e, record s { driver = d })

  -- A call of nanodbc.
  abbrev pub call {ℓ} : {A : Type ℓ} → (D → Reply A × D) → M (Session D) A
  call f s = answer s (f s.driver)

  abbrev pub get : M (Session D) (Session D)
  get s = (ok s, s)

  abbrev pub modify : (Session D → Session D) → M (Session D) (Unit {0})
  modify f s = (ok tt, f s)

  -- Follow a pointer; null is a fault.
  abbrev pub deref : {A : Type 0} → Option A → M (Session D) A
  deref none s = fault s
  deref (some a) s = (ok a, s)

  -- The object at an address; a dangling pointer is a fault.
  abbrev pub object_at : ℕ → M (Session D) Object
  object_at p s = deref (s.objects p) s

  abbrev pub put_object : ℕ → Object → M (Session D) (Unit {0})
  put_object p o = modify λ s. record s { objects = update s.objects p (some o) }

  abbrev pub notify : Notice → M (Session D) (Unit {0})
  notify n = modify λ s. record s { notices = n ∷ s.notices }
