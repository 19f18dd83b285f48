-- ===== src/Entry/Unbound.antt =====
-- The entry points on a result whose parameters are not bound yet, and on one that was released.
use odbc.Prelude.{ℕ, suc, ◌≡◌, refl, ◌==◌, true, false, none, some, [], arith}
use odbc.Prelude.Int.{pos}
use odbc.Outcome.{Outcome, ok, throws, crash, out_of_fuel, r_stop, invalid_pointer, Sat}
use odbc.Nanodbc.{Nanodbc, Text, done}
use odbc.Session.{Session, Object, update}
use odbc.Types.{SqlType}
use odbc.Connection.{cancel_current_result, set_current_result, cancel_through}
use odbc.Interrupt.{run_all}
use odbc.Result.{
  make_statement, prepare, execute_if_ready, execute_unless_missing, missing_parameters, execute,
  construct, new_result, destroy,
}
use odbc.Result.Fetches.{Headers}
use odbc.Result.Safety.{IsSafe, LetsGo, LetsGo-IsSafe, destroy-LetsGo}
use odbc.Entry.Results.{
  ResultHandle, through_result, result_active, result_completed, result_row_count, result_release,
  result_rows_affected, result_column_info,
}

self : (n : ℕ) → (n == n) ≡ true
self n = ground arith

positive : (n : ℕ) → (suc n == 0) ≡ false
positive n = ground arith

-- The pointer that `new_result` returns to R.
abbrev pub handle_of : {D A : Type 0} → ℕ → Outcome A × Session D → ResultHandle D
handle_of this x = record { address = some this; session = x.1 }

module _ {D : Type 0} (drv : Nanodbc D) (headers : Headers D) (to_string : SqlType → Text)
    (this : ℕ) (sql : Text) where
  -- A statement with parameters is prepared on the main thread and not executed; the constructor
  -- returns. `result_rows_affected` is then 0, and `result_column_info` follows a null pointer.
  pub column_info_crashes :
      (s : Session D) (st n fuel : ℕ) (d d1 d2 : D)
      → s.interruptible ≡ false
      → s.current_result ≡ none
      → drv.new_statement s.driver ≡ (st, d)
      → drv.prepare st sql d ≡ (done tt, d1)
      → drv.parameters st d1 ≡ (done (suc n), d2)
      → let made = new_result drv this sql false [] s in
        (made.0 ≡ ok tt)
        × ((result_rows_affected drv (handle_of this made)).0 ≡ ok (pos 0))
        × ((result_column_info drv headers to_string fuel (handle_of this made)).0 ≡ crash)
  unfolding new_result construct execute run_all make_statement prepare execute_if_ready
      execute_unless_missing missing_parameters cancel_current_result set_current_result
      cancel_through result_rows_affected result_column_info through_result
  column_info_crashes s st n fuel d d1 d2 i e made prepared missing =
      simp (i, e, made, prepared, missing, self this, positive n)
        (refl, rw (self this) refl, rw (self this) refl)

module _ {D : Type 0} (drv : Nanodbc D) (headers : Headers D) (to_string : SqlType → Text) where
  -- The pointer is null: the result is not active, and every call stops and changes nothing.
  abbrev pub Released : ResultHandle D → Type 0
  Released p =
      (result_active p ≡ false)
      × (result_completed p ≡ (throws (r_stop invalid_pointer), p))
      × (result_row_count p ≡ (throws (r_stop invalid_pointer), p))
      × (result_rows_affected drv p ≡ (throws (r_stop invalid_pointer), p))
      × ((fuel : ℕ)
          → result_column_info drv headers to_string fuel p ≡ (throws (r_stop invalid_pointer), p))
      × (result_release drv p ≡ (ok tt, p))

  null-Released : (p : ResultHandle D) → p.address ≡ none → Released p
  unfolding result_active result_completed result_row_count result_rows_affected result_column_info
      result_release through_result
  null-Released p e = rw e (refl, refl, refl, refl, (λ fuel. refl), refl)

  cleared :
      (this : ℕ) (before : Session D) (r : Outcome (Unit {0}) × Session D)
      → Sat (λ _ s'. LetsGo this s' × (s'.objects ≡ update before.objects this none)) (λ _ _. ⊥) r
      → Sat {S = ResultHandle D}
          (λ _ p'.
            Released p'
            × IsSafe p'.session
            × (p'.session.objects ≡ update before.objects this none))
          (λ _ _. ⊥)
          (r.0, record { address = none; session = r.1 })
  cleared this before (ok tt, s) h = (null-Released _ refl, LetsGo-IsSafe this s h.0, h.1)
  cleared this before (throws e, s) h = h
  cleared this before (crash, s) h = h
  cleared this before (out_of_fuel, s) h = h

  -- `result_release` of a live result on a safe connection returns, whatever SQLCancel does. It
  -- frees that object only, leaves the connection safe, and clears the pointer: the result is not
  -- active, every entry point that tells of it stops and changes nothing, and a second release
  -- returns and changes nothing.
  pub result_release_lem :
      (this : ℕ) (o : Object) (p : ResultHandle D)
      → p.address ≡ some this
      → p.session.objects this ≡ some o
      → IsSafe p.session
      → Sat {S = ResultHandle D}
          (λ _ p'.
            Released p'
            × IsSafe p'.session
            × (p'.session.objects ≡ update p.session.objects this none))
          (λ _ _. ⊥)
          (result_release drv p)
  unfolding result_release
  result_release_lem this o p here live safe = rw here (
      cleared this p.session (destroy drv this p.session)
        (destroy-LetsGo drv this p.session o safe live))
