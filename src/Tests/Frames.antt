-- ===== src/Tests/Frames.antt =====
-- A fetch from a result over rows in memory, with a driver that wants its columns in order.
use odbc.Prelude.{ℕ, zero, refl, inl, true, false, none, some, [], ◌∷◌, codes, arith, ◌==◌}
use odbc.Prelude.Int.{pos}
use odbc.Outcome.{Sat, odbc_error}
use odbc.Nanodbc.{Nanodbc, done, Text}
use odbc.Session.{Session, Object}
use odbc.Connection.{microsoft_sql_server, msodbcsql}
use odbc.Types.{SqlType, sql_integer, sql_varchar, i64_to_integer64}
use odbc.Result.Fetches.{Headers, fetch}
use odbc.Result.Frames.{Described}
use odbc.Result.Frames.Whole.{Shows, Left, fetch-Shows}
use odbc.Tests.Drivers.{Row, Reading, at_view, memory, memory_contract}

abbrev still : Nanodbc Reading
still = record {
  new_statement = λ d. (0, d);
  prepare = λ st sql d. (done tt, d);
  parameters = λ st d. (done 0, d);
  execute_direct = λ st sql d. (done 0, d);
  execute = λ st n d. (done 0, d);
  cancel = λ st d. (done tt, d);
  close = λ st d. (done tt, d);
  columns = λ r d. (done 2, d);
  affected_rows = λ r d. (done (pos 0), d);
  is_bound = λ r i d. (done (i == 0), d);
  unbind = λ r i d. (done tt, d);
  new_transaction = λ d. (done 0, d);
  commit = λ t d. (done tt, d);
  rollback = λ t d. (done tt, d);
  txn_capable = λ d. (done 1, d);
  dbms_name = λ d. (done microsoft_sql_server, d);
  driver_name = λ d. (done msodbcsql, d);
  drop_statement = λ st d. d;
  drop_result = λ r d. d;
  drop_transaction = λ t d. d;
  format_error = odbc_error;
}

abbrev type_of : ℕ → SqlType
type_of zero = sql_integer
type_of _ = sql_varchar

abbrev name_of : ℕ → Text
name_of zero = codes "id"
name_of _ = codes "name"

abbrev headers : Headers Reading
headers = record {
  column_datatype = λ r i d. (done (type_of i), d);
  column_name = λ r i d. (done (name_of i), d);
  make_string = λ t d. (done t, d);
}

abbrev described : Described still headers memory_contract
described = record {
  type_at = type_of;
  name_at = name_of;
  shown = λ t. t;
  dbms = microsoft_sql_server;
  driver = msodbcsql;
  column_datatype_done = λ i d. (refl, refl);
  column_name_done = λ i d. (refl, refl);
  make_string_done = λ t d. (refl, refl);
  dbms_name_done = λ d. (refl, refl);
  driver_name_done = λ d. (refl, refl);
  is_bound_done = λ i d. (i == 0, refl, refl);
  unbind_done = λ i d. (refl, refl);
}

abbrev first : Row
first = some 1 ∷ none ∷ []

abbrev second : Row
second = none ∷ some 2 ∷ []

abbrev bound_result : Object
bound_result = record {
  statement = some 0;
  result = some 0;
  sql = [];
  rows_fetched = 0;
  num_columns = 2;
  complete = false;
  bound = true;
  immediate = false;
}

abbrev before : Session Reading
before = record {
  driver =
      at_view (record { current = none; pending = first ∷ second ∷ []; later = []; width = 2 });
  transaction = none;
  current_result = some 1;
  objects = λ p. some bound_result;
  interruptible = false;
  notices = [];
}

fetch-Shows_example :
    Sat
      (λ f s'.
        Shows described i64_to_integer64 2 (first ∷ []) f
        × Left described i64_to_integer64 1 1 (second ∷ []) s')
      (λ _ _. ⊥)
      (fetch still memory headers i64_to_integer64 5 1 (pos 1) before)
fetch-Shows_example =
    fetch-Shows described i64_to_integer64 1 bound_result refl (first ∷ second ∷ []) (pos 1) 5
      before refl refl refl (inl (refl, refl)) (omega arith) (omega arith) (λ _. omega arith)
