-- ===== src/Entry/Connect/Life.antt =====
-- A connection from its opening on.
use odbc.Prelude.{◌≡◌, refl, inl, none, Option, Bool, subst}
use odbc.Prelude.Int.{ℤ}
use odbc.Outcome.{ok, M, time_zone_error, timezone_out_error}
use odbc.Outcome.Partial.{Post, Triple, bind-Triple, catch-Triple, always-Triple}
use odbc.Nanodbc.{Nanodbc, Rows, Text}
use odbc.Session.{Session}
use odbc.Attributes.{Options}
use odbc.Connection.Open.{
  Settings, Encoder, OdbcConnection, Surroundings, make_encoder, with_member, load_or_stop,
  connect_with, load_and_connect, open_connection,
}
use odbc.Result.Construct.{CancelsCleanly}
use odbc.Result.Fetches.{Headers}
use odbc.Result.Safety.{IsSafe}
use odbc.Result.Reach.{Reach, reach-IsSafe}
use odbc.Entry.Connect.{Connected, odbc_connect}

module _ {D : Type 0} (around : Surroundings D) where
  any-Triple :
      {A : Type 0} (m : M D A) → Triple (λ _. Unit {0}) (λ _ _. Unit {0}) (λ _ _. Unit {0}) m
  any-Triple m = always-Triple λ _ _. tt

  abbrev HasNoResult : OdbcConnection → D → Type 0
  HasNoResult c d = c.current_result ≡ none

  load_and_connect-HasNoResult :
      (settings : Settings) (output names : Encoder)
      → Triple
          (λ _. Unit {0})
          HasNoResult
          (λ _ _. Unit {0})
          (load_and_connect around settings output names)
  unfolding load_and_connect
  load_and_connect-HasNoResult settings output names =
      bind-Triple (λ _ _. Unit {0})
        (any-Triple (load_or_stop around time_zone_error settings.timezone))
        λ zone.
          bind-Triple (λ _ _. Unit {0})
            (any-Triple (load_or_stop around timezone_out_error settings.timezone_out))
            λ zone_out.
              bind-Triple (λ _ _. Unit {0}) (any-Triple (connect_with around settings))
                λ c. record { after = λ d p. refl }

  with_member-HasNoResult :
      (e : Encoder) (m : M D OdbcConnection)
      → Triple (λ _. Unit {0}) HasNoResult (λ _ _. Unit {0}) m
      → Triple (λ _. Unit {0}) HasNoResult (λ _ _. Unit {0}) (with_member around e m)
  unfolding with_member
  with_member-HasNoResult e m h =
      catch-Triple (λ _ _. Unit {0}) h (λ err. record { after = λ d p. tt })

  open_connection-HasNoResult :
      (settings : Settings)
      → Triple (λ _. Unit {0}) HasNoResult (λ _ _. Unit {0}) (open_connection around settings)
  unfolding open_connection
  open_connection-HasNoResult settings =
      bind-Triple (λ _ _. Unit {0}) (any-Triple (make_encoder around settings.encoding))
        λ output. with_member-HasNoResult output _ (
          bind-Triple (λ _ _. Unit {0}) (any-Triple (make_encoder around settings.name_encoding))
            λ names.
              with_member-HasNoResult names _ (load_and_connect-HasNoResult settings output names))

  -- Where SQLCancel succeeds, the pointer to the current result is safe at every time in the life of a
  -- connection: in every state that is reached from the one in which `odbc_connect` returns, by results
  -- made at free addresses on schedules without an interrupt between the worker's first two calls,
  -- parameters described and bound, fetches, transactions and results destroyed, in any order.
  pub odbc_connect-IsSafe :
      (drv : Nanodbc D) (rows : Rows D) (headers : Headers D) (clean : CancelsCleanly drv)
      (connection_string timezone timezone_out encoding name_encoding : Text) (bigint timeout : ℤ)
      (r_attributes : Option Options) (interruptible_execution : Bool) (d d' : D) (p : Connected D)
      → odbc_connect around connection_string timezone timezone_out encoding name_encoding bigint
          timeout r_attributes interruptible_execution d
        ≡ (ok p, d')
      → {t : Session D} → Reach drv rows headers p.connection.bigint_mapping p.pointer.session t
      → IsSafe t
  unfolding odbc_connect
  odbc_connect-IsSafe drv rows headers clean connection_string timezone timezone_out encoding
        name_encoding bigint timeout r_attributes interruptible_execution d d' p e reach =
      let start : Post (λ q d''. q.pointer.session.current_result ≡ none) (λ _ _. Unit {0})
          (ok p, d') =
        subst (Post (λ q d''. q.pointer.session.current_result ≡ none) (λ _ _. Unit {0})) e (
          (bind-Triple HasNoResult (open_connection-HasNoResult _)
              λ c. record { after = λ d1 h. h }).after
            d tt) in
      reach-IsSafe drv rows headers p.connection.bigint_mapping clean reach (inl start)
