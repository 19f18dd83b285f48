-- ===== src/Tests/Bank.antt =====
-- `bind_list` on a database with transactions, in which the execution of a single row fails.
use odbc.Prelude.{
  arith, ℕ, suc, ◌+◌, ◌^◌, ◌≤◌, subst, ◌≡◌, refl, true, false, none, some, List, [], ◌∷◌, ◌==◌,
  if◌then◌else◌,
}
use odbc.Prelude.Int.{ℤ, pos}
use odbc.Outcome.{database_error, odbc_error}
use odbc.Nanodbc.{Nanodbc, Reply, done, fails}
use odbc.Session.{Object}
use odbc.Types.{sql_ss_timestampoffset, parameter_types}
use odbc.Connection.{supports_transactions}
use odbc.Batches.{batch_loop, get_parameter_rows}
use odbc.Params.{Binder, integers, Class, Params, column, nil, cons}
use odbc.Bind.{Binding, empty_data, clear_buffers}
use odbc.Bind.Vectors.{bind_vector}
use odbc.Bind.Frames.{bind_all}
use odbc.Bind.Rounds.{bind_list, check_count, in_transaction, bind_round, execute_batch, extents}
use odbc.Bind.Ends.{Settles}
use odbc.Bind.Atomic.{Account, Ledger, Stands}
use odbc.Bind.Atomic.Commits.{Committed}
use odbc.Bind.Atomic.Whole.{bind_list-Atomic}
use odbc.Tests.Database.{zones, memory}

-- The rows there are for good and those of the transaction.
record Bank : Type 0 where
  durable : ℕ
  pending : ℕ
  commits : ℕ
  live : List ℕ

abbrev kept_rows : List ℕ → ℕ → ℕ → ℕ
kept_rows [] n w = w + n
kept_rows (t ∷ ts) n w = w

abbrev last_closed : List ℕ → List ℕ
last_closed [] = []
last_closed (t ∷ ts) = ts

abbrev rows_run : ℕ → Bank → Bank
rows_run n d = record d { durable = kept_rows d.live n d.durable; pending = d.pending + n }

abbrev unless_single : ℕ → Reply ℕ
unless_single n = if n == 1 then fails (database_error 1) else done 0

abbrev bank : Nanodbc Bank
bank = record {
  new_statement = λ d. (0, d);
  prepare = λ st sql d. (done tt, d);
  parameters = λ st d. (done 1, d);
  execute_direct = λ st sql d. (done 0, d);
  execute = λ st n d. (unless_single n, rows_run n d);
  cancel = λ st d. (done tt, d);
  close = λ st d. (done tt, d);
  columns = λ r d. (done 0, d);
  affected_rows = λ r d. (done (pos 0), d);
  is_bound = λ r i d. (done true, d);
  unbind = λ r i d. (done tt, d);
  new_transaction = λ d. (done 5, record d { live = 5 ∷ d.live });
  commit = λ t d.
      (done tt, record d { durable = d.durable + d.pending; pending = 0; commits = d.commits + 1 });
  rollback = λ t d. (done tt, record d { pending = 0 });
  txn_capable = λ d. (done 2, d);
  dbms_name = λ d. (done [], d);
  driver_name = λ d. (done [], d);
  drop_statement = λ st d. d;
  drop_result = λ r d. d;
  drop_transaction = λ t d. record d { pending = 0; live = last_closed d.live };
  format_error = odbc_error;
}

abbrev bank_binder : Binder Bank
bank_binder = record {
  bind = λ obj col b d. (done tt, d);
  parameter_type = λ obj col d. (done sql_ss_timestampoffset, d);
  parameter_scale = λ obj col d. (done 6, d);
  describe_parameters = λ st idx type size scale d. (done tt, d);
  new_table = λ st col n d. (done 0, d);
  close_table = λ p d. (done tt, d);
  drop_table = λ p d. d;
  check_user_interrupt = λ d. (done tt, d);
}

abbrev account_of : Bank → Account ℕ
account_of d = record { durable = d.durable; commits = d.commits; live = d.live }

rows_run-live :
    (n t : ℕ) (ts : List ℕ) (d : Bank) → d.live ≡ t ∷ ts → account_of (rows_run n d) ≡ account_of d
rows_run-live n t ts d e = rw e refl

last_closed-live :
    (t : ℕ) (ts : List ℕ) (d : Bank)
    → d.live ≡ t ∷ ts
    → account_of (bank.drop_transaction t d) ≡ record (account_of d) { live = ts }
last_closed-live t ts d e = rw e refl

abbrev books : Ledger ℕ bank bank_binder
books = record {
  account = account_of;
  capable = 2;
  capable_some = refl;
  txn_capable_done = λ d. (d, refl, refl);
  new_transaction_opens = λ d. refl;
  commit_closes = λ t d. (omega arith, refl);
  drop_transaction_live = last_closed-live;
  execute_live = λ st n t ts d e. rows_run-live n t ts d e;
  columns_same = λ r d. refl;
  parameters_same = λ st d. refl;
  drop_result_same = λ r d. refl;
  bind_same = λ obj col b d. refl;
  parameter_type_same = λ obj col d. refl;
  parameter_scale_same = λ obj col d. refl;
  new_table_same = λ st col n d. refl;
  close_table_same = λ p d. refl;
  drop_table_same = λ p d. refl;
  check_user_interrupt_same = λ d. refl;
}

abbrev prepared : Object
prepared = record {
  statement = some 7;
  result = none;
  sql = [];
  rows_fetched = 0;
  num_columns = 0;
  complete = true;
  bound = false;
  immediate = false;
}

-- One row is there, and two commits have been.
abbrev opening : Bank
opening = record { durable = 1; pending = 0; commits = 2; live = [] }

abbrev before : Binding Bank
before = record {
  session = record {
    driver = opening;
    transaction = none;
    current_result = some 1;
    objects = λ p. some prepared;
    interruptible = false;
    notices = [];
  };
  buffers = empty_data;
  tvp_buffers = λ i. empty_data;
}

abbrev pub plain : Class
plain = record { is_date = false; is_posixct = false; is_difftime = false; tzone = none }

abbrev rows_of : List ℤ → Params
rows_of xs = cons (column (integers xs) plain) nil

-- Two batches run, of two rows.
bind_list_committed :
    (bind_list bank bank_binder zones memory 0 1 9
      (rows_of (pos 1 ∷ pos 2 ∷ pos 3 ∷ pos 4 ∷ []))
      true
      2
      before).1.session.driver
    ≡ record { durable = 5; pending = 0; commits = 3; live = [] }
unfolding bind_list parameter_types check_count supports_transactions in_transaction batch_loop
    get_parameter_rows bind_round clear_buffers bind_all bind_vector execute_batch
bind_list_committed = refl

-- The second batch is a single row.
bind_list_undone :
    (bind_list bank bank_binder zones memory 0 1 9
      (rows_of (pos 1 ∷ pos 2 ∷ pos 3 ∷ []))
      true
      2
      before).1.session.driver
    ≡ opening
unfolding bind_list parameter_types check_count supports_transactions in_transaction batch_loop
    get_parameter_rows bind_round clear_buffers bind_all bind_vector execute_batch
bind_list_undone = refl

three_rows : 3 ≡ get_parameter_rows (extents (rows_of (pos 1 ∷ pos 2 ∷ pos 3 ∷ [])))
unfolding get_parameter_rows
three_rows = refl

bind_list-Atomic_example :
    Settles
      (λ _ s'. Committed books (account_of opening) [] s'.session)
      (λ _ s'. Stands books (account_of opening) s'.session)
      (bind_list bank bank_binder zones memory 0 1
        (suc (get_parameter_rows (extents (rows_of (pos 1 ∷ pos 2 ∷ pos 3 ∷ [])))))
        (rows_of (pos 1 ∷ pos 2 ∷ pos 3 ∷ []))
        true
        2
        before)
bind_list-Atomic_example =
    bind_list-Atomic books (account_of opening) zones memory 0 1
      (rows_of (pos 1 ∷ pos 2 ∷ pos 3 ∷ [])) 2 before (omega arith)
      (subst (λ n. n ≤ 2 ^ 63) three_rows (omega arith)) (omega arith) refl
