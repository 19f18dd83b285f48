-- ===== src/Connection/Transactions.antt =====
-- `begin`, `commit` and `rollback` of odbc_connection: at most one transaction is open.
use odbc.Prelude.{Bool, true, false, ℕ, ◌≡◌, Option, none, some, arith}
use odbc.Outcome.{
  r_stop, double_begin, commit_without_begin, rollback_without_begin, throws, Sat, Sat-mono,
}
use odbc.Nanodbc.{Nanodbc}
use odbc.Session.{Session}
use odbc.Connection.{begin, commit, rollback}

-- No transaction can be opened, and the state stays as it is.
abbrev pub RefusesBegin : {D : Type 0} → Nanodbc D → Session D → Type 0
RefusesBegin drv s = begin drv s ≡ (throws (r_stop double_begin), s)

-- No transaction can be closed, and the state stays as it is.
abbrev pub RefusesEnd : {D : Type 0} → Nanodbc D → Session D → Type 0
RefusesEnd drv s =
    (commit drv s ≡ (throws (r_stop commit_without_begin), s))
    × (rollback drv s ≡ (throws (r_stop rollback_without_begin), s))

-- Only the driver's state may have changed.
abbrev pub Kept : {D : Type 0} → Session D → Session D → Type 0
Kept s s' =
    (s'.transaction ≡ s.transaction)
    × (s'.current_result ≡ s.current_result)
    × (s'.objects ≡ s.objects)

abbrev is_open : Option ℕ → Bool
is_open none = false
is_open (some t) = true

module _ {D : Type 0} (drv : Nanodbc D) where
  begin_refused : (s : Session D) → is_open s.transaction ≡ true → RefusesBegin drv s
  unfolding begin
  begin_refused s e = ground arith

  end_refused : (s : Session D) → s.transaction ≡ none → RefusesEnd drv s
  unfolding commit rollback
  end_refused s e = (ground arith, ground arith)

  begun :
      (s : Session D)
      → Sat (λ _ s'. is_open s'.transaction ≡ true) (λ _ s'. Kept s s') (begin drv s)
  unfolding begin
  begun s = ground arith

  committed :
      (s : Session D) → Sat (λ _ s'. s'.transaction ≡ none) (λ _ s'. Kept s s') (commit drv s)
  unfolding commit
  committed s = ground arith

  rolled_back :
      (s : Session D) → Sat (λ _ s'. s'.transaction ≡ none) (λ _ s'. Kept s s') (rollback drv s)
  unfolding rollback
  rolled_back s = ground arith

  -- At most one transaction is open. After `begin` returns another `begin` stops; after `commit` or
  -- `rollback` returns another of the two stops; none of these stops changes the state. Where one
  -- of the three throws, the transaction, the current result and the results are as before.
  pub transaction_exclusive :
      (s : Session D)
      → Sat (λ _ s'. RefusesBegin drv s') (λ _ s'. Kept s s') (begin drv s)
        × Sat (λ _ s'. RefusesEnd drv s') (λ _ s'. Kept s s') (commit drv s)
        × Sat (λ _ s'. RefusesEnd drv s') (λ _ s'. Kept s s') (rollback drv s)
  transaction_exclusive s = (
    Sat-mono (λ _ s'. is_open s'.transaction ≡ true) (λ _ s'. RefusesBegin drv s')
        (λ _ s'. Kept s s') (λ _ s'. Kept s s') (begin drv s) (begun s)
        (λ _ s' e. begin_refused s' e) (λ _ _ h. h),
    Sat-mono (λ _ s'. s'.transaction ≡ none) (λ _ s'. RefusesEnd drv s') (λ _ s'. Kept s s')
        (λ _ s'. Kept s s') (commit drv s) (committed s) (λ _ s' e. end_refused s' e) (λ _ _ h. h),
    Sat-mono (λ _ s'. s'.transaction ≡ none) (λ _ s'. RefusesEnd drv s') (λ _ s'. Kept s s')
        (λ _ s'. Kept s s') (rollback drv s) (rolled_back s) (λ _ s' e. end_refused s' e)
        (λ _ _ h. h),
  )
