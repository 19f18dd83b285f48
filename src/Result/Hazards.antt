-- ===== src/Result/Hazards.antt =====
-- Where the constructor of odbc_result leaves the connection with a pointer that it cannot follow.
use odbc.Prelude.{
  ℕ, ◌≡◌, refl, Bool, true, false, none, some, List, [], ◌∷◌, arith, ◌==◌, ◌⊎◌, inl, inr,
}
use odbc.Outcome.{database_error, throws, crash}
use odbc.Nanodbc.{Nanodbc, Text, done, fails}
use odbc.Session.{Session}
use odbc.Connection.{cancel_current_result, set_current_result, cancel_through}
use odbc.Interrupt.{Event, work, user_interrupt, wait_for, run_interruptible, run_all}
use odbc.Result.{
  make_statement, prepare, execute_if_ready, execute_unless_missing, missing_parameters,
  run_statement, execute, cancel_fn, construct, new_result, free,
}

self : (n : ℕ) → (n == n) ≡ true
self n = ground arith

module _ {D : Type 0} (drv : Nanodbc D) (this : ℕ) (sql : Text) where
  -- An interrupt that the main thread sees after the new result is registered and before its
  -- statement is made is a call through a null pointer.
  pub early_interrupt_crashes :
      (immediate : Bool) (es : List Event) (s : Session D)
      → s.interruptible ≡ true
      → s.current_result ≡ none
      → (new_result drv this sql immediate (work ∷ user_interrupt ∷ es) s).0 ≡ crash
  unfolding new_result construct run_interruptible wait_for cancel_current_result set_current_result
      cancel_through cancel_fn
  early_interrupt_crashes immediate es s i c = ground arith

  -- The statement `st` fails from the state `d` on: at once, or where it is prepared, or where it is
  -- executed because it has no parameters.
  abbrev pub Fails : Bool → ℕ → ℕ → D → D → Type 0
  Fails true st c d d1 = drv.execute_direct st sql d ≡ (fails (database_error c), d1)
  Fails false st c d d1 =
      (drv.prepare st sql d ≡ (fails (database_error c), d1))
      ⊎ ((d' : D) × (d'' : D) × (drv.prepare st sql d ≡ (done tt, d'))
          × (drv.parameters st d' ≡ (done 0, d''))
          × (drv.execute st 1 d'' ≡ (fails (database_error c), d1)))

  -- Where no result is current, the statement fails on the main thread, be it executed at once,
  -- prepared, or executed after it, and SQLCancel fails after it, the constructor throws with the
  -- connection pointing to the object that is thereby destroyed.
  pub failed_cancel_dangles :
      (immediate : Bool) (s : Session D) (st c c' : ℕ) (d d1 d2 : D)
      → s.interruptible ≡ false
      → s.current_result ≡ none
      → drv.new_statement s.driver ≡ (st, d)
      → Fails immediate st c d d1
      → drv.cancel st d1 ≡ (fails (database_error c'), d2)
      → ((new_result drv this sql immediate [] s).0 ≡ throws (database_error c'))
        × ((new_result drv this sql immediate [] s).1.current_result ≡ some this)
        × ((new_result drv this sql immediate [] s).1.objects this ≡ none)
  unfolding new_result construct execute run_all make_statement prepare execute_if_ready
      execute_unless_missing missing_parameters run_statement cancel_current_result
      set_current_result cancel_through free
  failed_cancel_dangles true s st c c' d d1 d2 i e made failed unable =
      simp (i, e, made, failed, unable, self this) (refl, refl, refl)
  failed_cancel_dangles false s st c c' d d1 d2 i e made (inl failed) unable =
      simp (i, e, made, failed, unable, self this) (refl, refl, refl)
  failed_cancel_dangles false s st c c' d d1 d2 i e made (inr (d', d'', ready, asked, failed))
        unable =
      simp (i, e, made, ready, asked, failed, unable, self this) (refl, refl, refl)
