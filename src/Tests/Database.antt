-- ===== src/Tests/Database.antt =====
-- A database that keeps what columns are bound to, and what has been run.
use odbc.Prelude.{
  ℕ, ◌≡◌, ◌≢◌, refl, Bool, true, false, ◌&&◌, Option, some, List, [], ◌∷◌, ◌++◌, ◌==◌,
  if◌then◌else◌, arith,
}
use odbc.Prelude.Int.{pos}
use odbc.Outcome.{odbc_error}
use odbc.Nanodbc.{Nanodbc, done, Date, Time}
use odbc.Types.{sql_ss_timestampoffset}
use odbc.Params.{Bound, Target, statement, table, Binder, Zones, Memory, billionths}
use odbc.Bind.Contract.{Contract, Entry, began, committed, ran}
use odbc.Bind.Executes.{Executes}

abbrev pub same_target : Target → Target → Bool
same_target (statement a) (statement b) = a == b
same_target (statement a) (table b) = false
same_target (table a) (statement b) = false
same_target (table a) (table b) = a == b

pub same_target_self : (t : Target) → same_target t t ≡ true
same_target_self (statement a) = ground arith
same_target_self (table a) = ground arith

pub record Base : Type 0 where
  pub bound : Target → ℕ → Option Bound
  pub log : List Entry

abbrev pub rebind : (Target → ℕ → Option Bound) → Target → ℕ → Bound → Target → ℕ → Option Bound
rebind f obj col b t i = if same_target t obj && (i == col) then some b else f t i

pub rebind_self :
    (f : Target → ℕ → Option Bound) (obj : Target) (col : ℕ) (b : Bound)
    → rebind f obj col b obj col ≡ some b
rebind_self f obj col b = rw (same_target_self obj) (ground arith)

pub rebind_other :
    (f : Target → ℕ → Option Bound) (obj : Target) (col : ℕ) (b : Bound) (i : ℕ)
    → i ≢ col
    → rebind f obj col b obj i ≡ f obj i
rebind_other f obj col b i h = rw (same_target_self obj) (ground arith)

abbrev pub write : Base → Entry → Base
write d x = record d { log = d.log ++ (x ∷ []) }

abbrev pub binder : Binder Base
binder = record {
  bind = λ obj col b d. (done tt, record d { bound = rebind d.bound obj col b });
  parameter_type = λ obj col d. (done sql_ss_timestampoffset, d);
  parameter_scale = λ obj col d. (done 6, d);
  describe_parameters = λ st idx type size scale d. (done tt, d);
  new_table = λ st col n d. (done 0, d);
  close_table = λ p d. (done tt, d);
  drop_table = λ p d. d;
  check_user_interrupt = λ d. (done tt, d);
}

abbrev pub binder_contract : Contract binder
binder_contract = record {
  bound = λ d. d.bound;
  log = λ d. d.log;
  sql_type = λ obj col. sql_ss_timestampoffset;
  scale = λ obj col. 6;
  bind_done = λ obj col b d. (
    record d { bound = rebind d.bound obj col b },
    refl,
    rebind_self d.bound obj col b,
    rebind_other d.bound obj col b,
    refl,
  );
  type_done = λ obj col d. (d, refl, refl, refl);
  scale_done = λ obj col d. (d, refl, refl, refl);
}

abbrev pub database : Nanodbc Base
database = record {
  new_statement = λ d. (0, d);
  prepare = λ st sql d. (done tt, d);
  parameters = λ st d. (done 2, d);
  execute_direct = λ st sql d. (done 0, d);
  execute = λ st n d. (done 0, write d (ran n (d.bound (statement st))));
  cancel = λ st d. (done tt, d);
  close = λ st d. (done tt, d);
  columns = λ r d. (done 0, d);
  affected_rows = λ r d. (done (pos 0), d);
  is_bound = λ r i d. (done true, d);
  unbind = λ r i d. (done tt, d);
  new_transaction = λ d. (done 0, write d began);
  commit = λ t d. (done tt, write d committed);
  rollback = λ t d. (done tt, d);
  txn_capable = λ d. (done 2, d);
  dbms_name = λ d. (done [], d);
  driver_name = λ d. (done [], d);
  drop_statement = λ st d. d;
  drop_result = λ r d. d;
  drop_transaction = λ t d. d;
  format_error = odbc_error;
}

abbrev pub database_executes : Executes database binder_contract 7
database_executes = record {
  count = 2;
  capable = 2;
  parameters_done = λ d. (d, refl, refl);
  execute_done = λ n d. (0, write d (ran n (d.bound (statement 7))), refl, refl);
  columns_done = λ r d. (0, d, refl, refl);
  drop_result_log = λ r d. refl;
  uninterrupted = λ d. (d, refl, refl);
  txn_capable_done = λ d. (d, refl, refl);
  new_transaction_done = λ d. (0, write d began, refl, refl);
  commit_done = λ t d. (write d committed, refl, refl);
  drop_transaction_log = λ t d. refl;
}

abbrev pub noon : Time
noon = record { hour = pos 12; min = pos 0; sec = pos 0 }

abbrev pub day : Date
day = record { year = pos 1970; month = 1; day = 1 }

-- One zone, in which it is always noon of one day.
abbrev pub zones : Zones
zones = record {
  utc = 0;
  load_time_zone = λ name. some 1;
  lookup = λ tz n. (day, (noon, pos 3600));
  convert = λ tz d t. pos 43200;
}

abbrev pub memory : Memory
memory = record {
  date = day;
  time = noon;
  timestampoffset = record {
    stamp = record { date = day; time = noon; fract = pos 0 };
    offset_hour = pos 0;
    offset_minute = pos 0;
  };
  real_at = λ v i. billionths (pos i);
}
