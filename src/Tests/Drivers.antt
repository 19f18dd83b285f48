-- ===== src/Tests/Drivers.antt =====
-- A driver whose calls succeed, one whose cancel fails, and a result over rows in memory.
use odbc.Prelude.{
  ℕ, ◌+◌, ◌≡◌, refl, Bool, true, false, ◌&&◌, ◌||◌, ◌==◌, arith, Option, none, some, List, [], ◌∷◌,
  if◌then◌else◌, get_elem?,
}
use odbc.Prelude.Int.{pos}
use odbc.Outcome.{database_error, odbc_error, other_error}
use odbc.Nanodbc.{
  Reply, done, fails, Nanodbc, Rows, bits, seconds, CType, int_c, int64_c, double_c, string_c,
  timestampoffset_c, date_c, time_c, bytes_c, CValue, Date, Time,
}
use odbc.Fetch.Contract.{View, Contract, shift, enter, any_left}

-- The state is the next free handle.
abbrev pub quiet : Nanodbc ℕ
quiet = record {
  new_statement = λ d. (d, d + 1);
  prepare = λ st sql d. (done tt, d);
  parameters = λ st d. (done 0, d);
  execute_direct = λ st sql d. (done d, d + 1);
  execute = λ st n d. (done d, d + 1);
  cancel = λ st d. (done tt, d);
  close = λ st d. (done tt, d);
  columns = λ r d. (done 1, d);
  affected_rows = λ r d. (done (pos 0), d);
  is_bound = λ r i d. (done true, d);
  unbind = λ r i d. (done tt, d);
  new_transaction = λ d. (done d, d + 1);
  commit = λ t d. (done tt, d);
  rollback = λ t d. (done tt, d);
  txn_capable = λ d. (done 1, d);
  dbms_name = λ d. (done [], d);
  driver_name = λ d. (done [], d);
  drop_statement = λ st d. d;
  drop_result = λ r d. d;
  drop_transaction = λ t d. d;
  format_error = odbc_error;
}

-- Statements fail, and so does their cancellation.
abbrev pub broken : Nanodbc ℕ
broken = record quiet {
  execute_direct = λ st sql d. (fails (database_error 42), d);
  cancel = λ st d. (fails (database_error 7), d);
}

-- A row of numbers and nulls.
abbrev pub Row : Type 0
Row = List (Option ℕ)

abbrev is_none : Option (Option ℕ) → Bool
is_none none = true
is_none (some none) = true
is_none (some (some n)) = false

abbrev number : Option (Option ℕ) → ℕ
number none = 0
number (some none) = 0
number (some (some n)) = n

abbrev null_at : Row → ℕ → Bool
null_at x col = is_none (get_elem? x col)

abbrev midnight : Time
midnight = record { hour = pos 0; min = pos 0; sec = pos 0 }

abbrev epoch : Date
epoch = record { year = pos 1970; month = 1; day = 1 }

abbrev value_at : (t : CType) → Row → ℕ → CValue t
value_at int_c x col = pos (number (get_elem? x col))
value_at int64_c x col = pos (number (get_elem? x col))
value_at double_c x col = bits (number (get_elem? x col))
value_at string_c x col = number (get_elem? x col) ∷ []
value_at timestampoffset_c x col = record {
  stamp = record { date = epoch; time = midnight; fract = pos 0 };
  offset_hour = pos 0;
  offset_minute = pos 0;
}
value_at date_c x col = epoch
value_at time_c x col = midnight
value_at bytes_c x col = number (get_elem? x col) ∷ []

abbrev unless_null : {A : Type 0} → Bool → A → Reply A
unless_null true a = fails (other_error 0)
unless_null false a = done a

abbrev on_row : {A : Type 0} → Option Row → (Row → Reply A) → Reply A
on_row none f = fails (other_error 0)
on_row (some x) f = f x

-- A cursor, and the column whose value was asked for last. The first column is bound; the others
-- report a null only once their value has been asked for.
pub record Reading : Type 0 where
  pub cursor : View Row
  pub asked : Option ℕ

abbrev pub at_view : View Row → Reading
at_view v = record { cursor = v; asked = none }

abbrev was_asked : Option ℕ → ℕ → Bool
was_asked none col = false
was_asked (some n) col = n == col

abbrev flag_set : Reading → ℕ → Bool
flag_set d col = (col == 0) || was_asked d.asked col

abbrev reported : Reading → ℕ → Row → Bool
reported d col x = null_at x col && flag_set d col

abbrev pub memory : Rows Reading
memory = record {
  next = λ r d. (done (any_left d.cursor.pending), at_view (shift d.cursor.pending d.cursor));
  next_result = λ r d. (done (any_left d.cursor.later), at_view (enter d.cursor.later d.cursor));
  result_columns = λ r d. (done d.cursor.width, d);
  is_null = λ r col d. (on_row d.cursor.current (λ x. done (reported d col x)), d);
  fetch_value = λ t r col d. (
    on_row d.cursor.current (λ x. unless_null (reported d col x) (value_at t x col)),
    record d { asked = some col },
  );
  fetch_value_or = λ t r col fallback d. (
    on_row d.cursor.current (λ x. done (if reported d col x then fallback else value_at t x col)),
    record d { asked = some col },
  );
  check_user_interrupt = λ d. (done tt, d);
  make_sexp = λ s d. (done s, d);
  time_of = λ t d. (done (seconds (pos 0)), d);
  time_of_date = λ t. pos 0;
}

pub asked_now : (d : Reading) (col : ℕ) → flag_set (record d { asked = some col }) col ≡ true
asked_now d col = ground arith

abbrev pub memory_contract : Contract memory 0 Row
memory_contract = record {
  view = λ d. d.cursor;
  next_done = λ d. (refl, refl);
  next_result_done = λ d. (refl, refl);
  columns_done = λ d. (refl, refl);
  uninterrupted = λ d. (refl, refl);
  null = null_at;
  value = value_at;
  encoded = λ s. s;
  time_value = λ t. seconds (pos 0);
  told = flag_set;
  is_null_done = λ d x col e. (rw e refl, refl, refl);
  fetch_value_done =
      λ d x t col e n. (value_at t x col, rw (e, n) refl, (λ _. refl), refl, asked_now d col);
  fetch_value_or_done = λ d x t col fallback e n.
      (value_at t x col, rw (e, n) refl, (λ _. refl), refl, asked_now d col);
  fallback_done = λ d x t col fallback e n. (rw (e, n) refl, refl, asked_now d col);
  make_sexp_done = λ d s. (refl, refl);
  time_of_done = λ d t. (refl, refl);
}
