-- ===== src/Bind/Contract.antt =====
-- What nanodbc documents of binding, and the effect of one call of `bind`.
use odbc.Prelude.{ℕ, ◌≡◌, ◌≢◌, refl, Option, some, List, [], arith}
use odbc.Outcome.{Sat}
use odbc.Nanodbc.{done}
use odbc.Session.{Session, call}
use odbc.Types.{SqlType}
use odbc.Params.{ParamData, Bound, Target, Binder}
use odbc.Bind.{Binding, Buffers, own, tvp, read_buffers, write_buffers, in_session}
use odbc.Bind.Meaning.{Value, readback}

-- What a driver has done that a database keeps: transactions begun and committed, and statements
-- run for a number of rows, with what each column was bound to.
pub data Entry : Type 0 where
  began committed : Entry
  ran : ℕ → (ℕ → Option Bound) → Entry

-- `bind` keeps what a column of a statement is bound to, until it is bound again; the types and the
-- scales of the parameters are known.
pub record Contract {D : Type 0} (binder : Binder D) : Type 0 where
  pub bound : D → Target → ℕ → Option Bound
  pub log : D → List Entry
  pub sql_type : Target → ℕ → SqlType
  pub scale : Target → ℕ → ℕ
  pub bind_done :
      (obj : Target) (col : ℕ) (b : Bound) (d : D)
      → (d' : D) × (binder.bind obj col b d ≡ (done tt, d'))
        × (bound d' obj col ≡ some b)
        × ((i : ℕ) → i ≢ col → bound d' obj i ≡ bound d obj i)
        × (log d' ≡ log d)
  pub type_done :
      (obj : Target) (col : ℕ) (d : D)
      → (d' : D) × (binder.parameter_type obj col d ≡ (done (sql_type obj col), d'))
        × (bound d' ≡ bound d)
        × (log d' ≡ log d)
  pub scale_done :
      (obj : Target) (col : ℕ) (d : D)
      → (d' : D) × (binder.parameter_scale obj col d ≡ (done (scale obj col), d'))
        × (bound d' ≡ bound d)
        × (log d' ≡ log d)

-- The buffers of a column are empty.
abbrev pub IsClear : ℕ → ParamData → Type 0
IsClear col p =
    (p.strings col ≡ [])
    × (p.raws col ≡ [])
    × (p.times col ≡ [])
    × (p.timestamps col ≡ [])
    × (p.timestampoffsets col ≡ [])
    × (p.dates col ≡ [])

-- The session but for the driver and the notices, and what the database keeps.
pub record Quiet {D : Type 0} {binder : Binder D} (k : Contract binder) (s s' : Binding D)
    : Type 0 where
  pub objects : s'.session.objects ≡ s.session.objects
  pub current_result : s'.session.current_result ≡ s.session.current_result
  pub transaction : s'.session.transaction ≡ s.session.transaction
  pub log : k.log s'.session.driver ≡ k.log s.session.driver

module _ {D : Type 0} {binder : Binder D} (k : Contract binder) (obj : Target) (to : Buffers) where
  -- The column `col` is bound to `vs`, and no other is touched.
  pub record Binds (col : ℕ) (vs : List Value) (s s' : Binding D) : Type 0 where
    pub what : Bound
    pub is_bound : k.bound s'.session.driver obj col ≡ some what
    pub says : readback what ≡ vs
    pub others :
        (i : ℕ) → i ≢ col → k.bound s'.session.driver obj i ≡ k.bound s.session.driver obj i
    pub clear : (i : ℕ) → i ≢ col → IsClear i (read_buffers to s) → IsClear i (read_buffers to s')
    pub quiet : Quiet k s s'

module _ {D : Type 0} where
  pub read-write :
      (to : Buffers) (p : ParamData) (s : Binding D) → read_buffers to (write_buffers to p s) ≡ p
  read-write own p s = refl
  read-write (tvp i) p s = ground arith

  session-write :
      (to : Buffers) (p : ParamData) (s : Binding D) → (write_buffers to p s).session ≡ s.session
  session-write own p s = refl
  session-write (tvp i) p s = refl

  -- Buffers are written apart from the session.
  write-session :
      (to : Buffers) (p : ParamData) (s : Binding D) (t : Session D)
      → read_buffers to (record (write_buffers to p s) { session = t }) ≡ p
  write-session own p s t = refl
  write-session (tvp i) p s t = ground arith

  pub bind-Binds :
      {binder : Binder D} (k : Contract binder) (obj : Target) (to : Buffers) (col : ℕ) (b : Bound)
      (p : ParamData) (vs : List Value) (s : Binding D)
      → readback b ≡ vs
      → ((i : ℕ) → i ≢ col → IsClear i (read_buffers to s) → IsClear i p)
      → Sat
          (λ _ s'. Binds k obj to col vs s s')
          (λ _ _. ⊥)
          (in_session (call (binder.bind obj col b)) (write_buffers to p s))
  bind-Binds k obj to col b p vs s e h =
      let u = k.bind_done obj col b s.session.driver in
      rw (session-write to p s) (
        rw u.1 (record {
          what = b;
          is_bound = u.2;
          says = e;
          others = u.3;
          clear =
              λ i ne c. rw (write-session to p s (record s.session { driver = u.0 })) (h i ne c);
          quiet = record { objects = refl; current_result = refl; transaction = refl; log = u.4 };
        }))
