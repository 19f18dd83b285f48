-- ===== src/Result.antt =====
-- The life of an odbc_result, src/odbc_result.cpp: construction and execution, what it reports, and
-- its destructor.
pub mod Safety
pub mod Construct
pub mod Lifecycle
pub mod Hazards
pub mod Unbind
pub mod Fetches
pub mod Frames
pub mod Always
pub mod Safely
pub mod Binds
pub mod Reach
use odbc.Prelude.{
  ℕ, Bool, true, false, ◌||◌, Option, none, some, List, [], ◌∷◌, ◌==◌, if◌then◌else◌,
}
use odbc.Outcome.{M, Error, database_error, pure, throw, ◌>>=◌, ◌>>◌, try_catch}
use odbc.Nanodbc.{Nanodbc, Text}
use odbc.Session.{Session, Object, update, call, get, modify, deref, object_at, put_object}
use odbc.Connection.{set_current, cancel_current_result, set_current_result, is_current_result}
use odbc.Interrupt.{Action, Worker, Event, run_all, run_interruptible}

-- The members as the constructor's initialisers leave them.
abbrev pub initial : Text → Bool → Object
initial sql immediate = record {
  statement = none;
  result = none;
  sql = sql;
  rows_fetched = 0;
  num_columns = 0;
  complete = false;
  bound = false;
  immediate = immediate;
}

module _ {D : Type 0} (drv : Nanodbc D) where
  -- `s_ = std::make_shared<nanodbc::statement>();`
  unfoldable pub make_statement : ℕ → Action D
  make_statement this = do
    o ← object_at this
    s ← get
    let made = drv.new_statement s.driver
    modify λ s'. record s' { driver = made.1 }
    put_object this (record o { statement = some made.0 })

  unfoldable pub prepare : ℕ → Action D
  prepare this = do
    o ← object_at this
    st ← deref o.statement
    if o.immediate then pure tt else call (drv.prepare st o.sql)

  -- `bound_ = true; r_ = ...; num_columns_ = r_->columns();`
  unfoldable pub run_statement : ℕ → ℕ → Action D
  run_statement this st = do
    o ← object_at this
    put_object this (record o { bound = true })
    r ← (if o.immediate then call (drv.execute_direct st o.sql) else call (drv.execute st 1))
    o' ← object_at this
    put_object this (record o' { result = some r })
    n ← call (drv.columns r)
    o'' ← object_at this
    put_object this (record o'' { num_columns = n })

  -- `s_->parameters()` is not asked of a statement that is executed at once.
  unfoldable pub missing_parameters : Object → ℕ → M (Session D) ℕ
  missing_parameters o st = if o.immediate then pure 0 else call (drv.parameters st)

  unfoldable pub execute_unless_missing : ℕ → Object → ℕ → Action D
  execute_unless_missing this o st = do
    n ← missing_parameters o st
    if n == 0 then run_statement this st else pure tt

  unfoldable pub execute_if_ready : ℕ → Action D
  execute_if_ready this = do
    o ← object_at this
    st ← deref o.statement
    execute_unless_missing this o st

  -- The parts of `execute`, split where the main thread may act.
  abbrev pub execute_parts : ℕ → List (Action D)
  execute_parts this =
      set_current_result drv (some this)
      ∷ make_statement this
      ∷ prepare this
      ∷ execute_if_ready this
      ∷ []

  -- The handlers of `execute` on a thread of its own.
  abbrev pub thrown_on_thread : Error → Error
  thrown_on_thread (database_error c) = drv.format_error c
  thrown_on_thread e = e

  abbrev pub worker : ℕ → Worker D
  worker this = record { parts = execute_parts this; handler = thrown_on_thread }

  -- `execute` on the main thread, with its handlers.
  unfoldable pub execute : ℕ → Action D
  execute this =
      try_catch (run_all (execute_parts this))
        λ e. do set_current_result drv none; throw (thrown_on_thread e)

  unfoldable pub cancel_fn : Action D
  cancel_fn = set_current_result drv none

  -- `this->s_->close(); this->s_.reset();`
  unfoldable pub close_statement : ℕ → Action D
  close_statement this = do
    o ← object_at this
    elim o.statement [
      | none ↦ pure tt
      | some st ↦ do
        call (drv.close st)
        o' ← object_at this
        put_object this (record o' { statement = none })
        modify λ s. record s { driver = drv.drop_statement st s.driver }
    ]

  unfoldable pub cleanup_fn : ℕ → Action D
  cleanup_fn this = do set_current_result drv none; close_statement this

  -- The body of the constructor, along a schedule of the two threads.
  unfoldable pub construct : ℕ → List Event → Action D
  construct this es = do
    cancel_current_result drv
    s ← get
    if s.interruptible
        then run_interruptible (worker this) cancel_fn (cleanup_fn this) es
        else execute this

  -- The members are destroyed, and the address is free.
  drop_statement_of : Option ℕ → D → D
  drop_statement_of none d = d
  drop_statement_of (some st) d = drv.drop_statement st d

  drop_result_of : Option ℕ → D → D
  drop_result_of none d = d
  drop_result_of (some r) d = drv.drop_result r d

  unfoldable pub free : ℕ → Action D
  unfolding drop_statement_of drop_result_of
  free this = do
    o ← object_at this
    modify λ s. record s {
      driver = drop_statement_of o.statement (drop_result_of o.result s.driver);
      objects = update s.objects this none;
    }

  -- `new odbc_result(c, sql, immediate)` at the address `this`. Where the constructor throws, the
  -- members are destroyed and the destructor does not run.
  unfoldable pub new_result : ℕ → Text → Bool → List Event → Action D
  new_result this sql immediate es = do
    put_object this (initial sql immediate)
    try_catch (construct this es) λ e. do free this; throw e

  -- The body of `~odbc_result`: whatever SQLCancel throws, the connection lets go of this object.
  unfoldable pub let_go : ℕ → Action D
  let_go this = do
    s ← get
    if is_current_result this s
        then try_catch (set_current_result drv none) (λ e. set_current none)
        else pure tt

  unfoldable pub destroy : ℕ → Action D
  destroy this = do let_go this; free this

unfoldable pub active : {D : Type 0} → ℕ → Session D → Bool
active this s = is_current_result this s

-- `odbc_result::complete`
unfoldable pub complete : Object → Bool
complete o = o.num_columns == 0 || o.complete

unfoldable pub rows_fetched : Object → ℕ
rows_fetched o = if o.rows_fetched == 0 then 0 else o.rows_fetched
