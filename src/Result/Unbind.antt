-- ===== src/Result/Unbind.antt =====
-- `odbc_result::unbind_if_needed`, src/odbc_result.cpp.
use odbc.Prelude.{
  ℕ, zero, suc, ◌+◌, ◌≡◌, refl, sym, ap, ◌∙◌, Bool, true, false, not, List, [], ◌∷◌, ◌++◌,
  append_assoc, some, length, length-append, set, replicate, if◌then◌else◌,
}
use odbc.Outcome.{Error, database_error, ok, M, pure, throw, ◌>>=◌, ◌>>◌, try_catch}
use odbc.Nanodbc.{Nanodbc, done}
use odbc.Session.{Session, Object, call, deref, object_at, notify, unable_to_unbind}
use odbc.Connection.{get_data_any_order}
use odbc.Interrupt.{Action}
use odbc.Fetch.Room.{set-append}

module _ {D : Type 0} (drv : Nanodbc D) where
  -- `found_unbound || !r_->is_bound(i)`, in which the call is not made where the left side holds.
  unfoldable pub unbound_here : Bool → ℕ → ℕ → M (Session D) Bool
  unbound_here true r i = pure true
  unbound_here false r i = do b ← call (drv.is_bound r i); pure (not b)

  -- The loop, from the column `i` on and for so many columns.
  unfoldable pub unbind_from : ℕ → ℕ → Bool → ℕ → Action D
  unbind_from zero i found_unbound r = pure tt
  unbind_from (suc n) i found_unbound r = do
    found ← unbound_here found_unbound r i
    (if found then call (drv.unbind r i) else pure tt)
    unbind_from n (i + 1) found r

  unbind_failed : Error → Action D
  unbind_failed (database_error c) = notify unable_to_unbind
  unbind_failed e = throw e

  unfoldable pub unbind_columns : ℕ → Action D
  unbind_columns this = do
    o ← object_at this
    r ← deref o.result
    unbind_from o.num_columns 0 false r

  unfoldable pub unbind_if_needed : ℕ → Action D
  unfolding unbind_failed
  unbind_if_needed this = do
    any ← get_data_any_order drv
    if any then pure tt else try_catch (unbind_columns this) unbind_failed

-- What nanodbc documents of the buffers of a result: which columns are bound, and that `unbind`
-- releases one of them.
pub record Binding {D : Type 0} (drv : Nanodbc D) (r : ℕ) : Type 0 where
  pub bound : D → List Bool
  pub is_bound_done :
      (d : D) (xs ys : List Bool) (b : Bool)
      → bound d ≡ xs ++ (b ∷ ys)
      → (d' : D) × (drv.is_bound r (length xs) d ≡ (done b, d')) × (bound d' ≡ bound d)
  pub unbind_done :
      (d : D) (i : ℕ)
      → (d' : D) × (drv.unbind r i d ≡ (done tt, d')) × (bound d' ≡ set (bound d) i false)

-- The columns that stay bound: those before the first that is not.
abbrev pub kept : List Bool → List Bool
kept [] = []
kept (true ∷ ys) = true ∷ kept ys
kept (false ∷ ys) = replicate (suc (length ys)) false

module _ {D : Type 0} {drv : Nanodbc D} {r : ℕ} (k : Binding drv r) where
  -- The loop leaves the columns `ys`, which stand behind `xs`, as `zs`, and the session as it was.
  abbrev pub Leaves : Bool → List Bool → List Bool → List Bool → Session D → Type 0
  Leaves found xs ys zs s =
      (d : D) × (unbind_from drv (length ys) (length xs) found r s
        ≡ (ok tt, record s { driver = d }))
      × (k.bound d ≡ xs ++ zs)

  next : (b : Bool) (xs : List Bool) → length (xs ++ (b ∷ [])) ≡ length xs + 1
  next b xs = length-append xs (b ∷ [])

  unbind_all :
      (ys xs : List Bool) (s : Session D)
      → k.bound s.driver ≡ xs ++ ys
      → Leaves true xs ys (replicate (length ys) false) s
  unfolding unbind_from unbound_here
  unbind_all [] xs s e = (s.driver, refl, e)
  unbind_all (y ∷ ys) xs s e =
      let u = k.unbind_done s.driver (length xs) in
      let rest =
        unbind_all ys (xs ++ (false ∷ [])) (record s { driver = u.0 })
          (u.2
            ∙ ap (λ z. set z (length xs) false) e
            ∙ set-append xs ys y false
            ∙ sym (append_assoc xs (false ∷ []) ys)) in
      (
        rest.0,
        rw u.1 (rw (sym (next false xs)) rest.1),
        rest.2 ∙ append_assoc xs (false ∷ []) (replicate (length ys) false),
      )

  unbind_from-kept :
      (ys xs : List Bool) (s : Session D)
      → k.bound s.driver ≡ xs ++ ys
      → Leaves false xs ys (kept ys) s
  unfolding unbind_from unbound_here
  unbind_from-kept [] xs s e = (s.driver, refl, e)
  unbind_from-kept (true ∷ ys) xs s e =
      let b = k.is_bound_done s.driver xs ys true e in
      let rest =
        unbind_from-kept ys (xs ++ (true ∷ [])) (record s { driver = b.0 })
          (b.2 ∙ e ∙ sym (append_assoc xs (true ∷ []) ys)) in
      (
        rest.0,
        rw b.1 (rw (sym (next true xs)) rest.1),
        rest.2 ∙ append_assoc xs (true ∷ []) (kept ys),
      )
  unbind_from-kept (false ∷ ys) xs s e =
      let b = k.is_bound_done s.driver xs ys false e in
      let u = k.unbind_done b.0 (length xs) in
      let rest =
        unbind_all ys (xs ++ (false ∷ [])) (record s { driver = u.0 })
          (u.2
            ∙ ap (λ z. set z (length xs) false) (b.2 ∙ e)
            ∙ set-append xs ys false false
            ∙ sym (append_assoc xs (false ∷ []) ys)) in
      (
        rest.0,
        rw b.1 (rw u.1 (rw (sym (next false xs)) rest.1)),
        rest.2 ∙ append_assoc xs (false ∷ []) (replicate (length ys) false),
      )

  -- With a driver that wants the data in order, `unbind_if_needed` leaves bound the columns before
  -- the first unbound one, and no other, and changes nothing else of the session.
  pub unbind_if_needed-kept :
      (this : ℕ) (s s' : Session D) (o : Object)
      → get_data_any_order drv s ≡ (ok false, s')
      → s'.objects this ≡ some o
      → o.result ≡ some r
      → o.num_columns ≡ length (k.bound s'.driver)
      → (d : D) × (unbind_if_needed drv this s ≡ (ok tt, record s' { driver = d }))
        × (k.bound d ≡ kept (k.bound s'.driver))
  unfolding unbind_if_needed unbind_columns
  unbind_if_needed-kept this s s' o in_order here result n =
      let loop = unbind_from-kept (k.bound s'.driver) [] s' refl in
      (loop.0, rw in_order (rw here (rw result (rw n (rw loop.1)))), loop.2)
