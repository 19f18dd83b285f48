-- ===== src/Entry/Released.antt =====
-- A connection after its external pointer was released.
use odbc.Prelude.{ℕ, ◌≡◌, refl, false}
use odbc.Outcome.{ok, throws, r_stop, invalid_pointer, M}
use odbc.Nanodbc.{Nanodbc}
use odbc.Session.{Session}
use odbc.Entry.{
  Handle, Infos, through, connection_valid, connection_release, connection_has_result,
  connection_begin, connection_commit, connection_rollback, connection_quote,
  set_transaction_isolation, connection_info,
}

-- A call stops, and changes nothing.
abbrev pub Refused : {D A : Type 0} → M (Handle D) A → Handle D → Type 0
Refused m p = m p ≡ (throws (r_stop invalid_pointer), p)

module _ {D : Type 0} (drv : Nanodbc D) (infos : Infos D) where
  refused :
      {A : Type 0} (m : M (Session D) A) (p : Handle D) → p.valid ≡ false → Refused (through m) p
  unfolding through
  refused m p e = rw e refl

  -- After `connection_release` the pointer is not valid, the entry points for the transaction, the
  -- isolation level, the current result and the facts about the connection stop and change nothing,
  -- and a second release neither warns nor changes anything.
  pub release_refuses :
      (p : Handle D) (level : ℕ)
      → let p' = (connection_release p).1 in
        (connection_valid p' ≡ false)
        × Refused connection_has_result p'
        × Refused (connection_begin drv) p'
        × Refused (connection_commit drv) p'
        × Refused (connection_rollback drv) p'
        × Refused (connection_quote infos) p'
        × Refused (set_transaction_isolation infos level) p'
        × Refused (connection_info drv infos) p'
        × (connection_release p' ≡ (ok tt, p'))
  unfolding connection_release connection_valid connection_has_result connection_begin
      connection_commit connection_rollback connection_quote set_transaction_isolation
      connection_info
  release_refuses p level = (
    refl,
    refused _ _ refl,
    refused _ _ refl,
    refused _ _ refl,
    refused _ _ refl,
    refused _ _ refl,
    refused _ _ refl,
    refused _ _ refl,
    refl,
  )
