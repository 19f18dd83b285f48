-- ===== src/Tests/Values.antt =====
-- The theorems on single values, batches and transactions at concrete inputs.
use odbc.Prelude.{ℕ, ◌+◌, ◌≡◌, refl, false, none, some, List, [], ◌∷◌, arith, codes}
use odbc.Prelude.Int.{pos, negsuc, ◌≤ℤ◌, ◌*ℤ◌}
use odbc.Outcome.{ok, Sat, M}
use odbc.Nanodbc.{seconds}
use odbc.Types.{
  i64_to_integer64, i64_to_character, sql_bigint, sql_wvarchar, Reader, reader, written, storage,
  column_type, parameter_type, assign_integer,
}
use odbc.Types.Agreement.{
  column_type-written, fetched_column_bound_again, fetched_shape, bound_again,
}
use odbc.Session.{Session}
use odbc.Connection.{begin, commit, rollback}
use odbc.Connection.Transactions.{RefusesBegin, RefusesEnd, Kept, transaction_exclusive}
use odbc.Batches.{batch_loop}
use odbc.Batches.Cover.{batch_loop-covers, for_each, rounds, pieces}
use odbc.Clock.{as_time, offset_hour, offset_minute, offset_seconds}
use odbc.Clock.RoundTrip.{time_cell-as_time, offset_seconds-fields}
use odbc.Fetch.{Cursor, time_cell, real, read_cell}
use odbc.Fetch.Cells.{Gives, cell_of, read_cell-Gives}
use odbc.Token.{deserialize, serialize_azure_token, deserialize-serialize}
use odbc.Tests.Drivers.{quiet, Row, Reading, at_view, memory, memory_contract}

column_type-written_example :
    (r : Reader) × (reader (column_type i64_to_character sql_bigint).0 ≡ some r)
    × (written r ≡ storage (column_type i64_to_character sql_bigint).0)
column_type-written_example = column_type-written i64_to_character sql_bigint

fetched_column_bound_again_example :
    parameter_type (fetched_shape (column_type i64_to_integer64 sql_wvarchar).0)
    ≡ some (bound_again (column_type i64_to_integer64 sql_wvarchar).0)
fetched_column_bound_again_example = fetched_column_bound_again i64_to_integer64 sql_wvarchar

abbrev idle : Session ℕ
idle = record {
  driver = 5;
  transaction = none;
  current_result = none;
  objects = λ p. none;
  interruptible = false;
  notices = [];
}

transaction_exclusive_example :
    Sat (λ _ s'. RefusesBegin quiet s') (λ _ s'. Kept idle s') (begin quiet idle)
    × Sat (λ _ s'. RefusesEnd quiet s') (λ _ s'. Kept idle s') (commit quiet idle)
    × Sat (λ _ s'. RefusesEnd quiet s') (λ _ s'. Kept idle s') (rollback quiet idle)
transaction_exclusive_example = transaction_exclusive quiet idle

-- A round that counts the rows that it is given.
abbrev tally : ℕ → ℕ → M ℕ (Unit {0})
tally start size n = (ok tt, n + size)

abbrev five : List ℕ
five = 7 ∷ 8 ∷ 9 ∷ 10 ∷ 11 ∷ []

batch_loop-covers_example :
    (batch_loop 6 5 2 tally 0 0 ≡ for_each tally (rounds 6 2 0 5) 0)
    × (pieces (rounds 6 2 0 5) five ≡ five)
batch_loop-covers_example =
    batch_loop-covers tally five 2 0 (omega arith) (omega arith) (omega arith)

-- One minute and one second before midnight.
time_cell-as_time_example : time_cell (some (as_time (negsuc 60))) ≡ real (seconds (negsuc 60))
time_cell-as_time_example = time_cell-as_time (negsuc 60) (omega arith) (omega arith)

-- Three and a half hours west.
offset_seconds-fields_example :
    (pos 0 ≤ℤ offset_minute (negsuc 209 *ℤ 60))
    × (offset_minute (negsuc 209 *ℤ 60) ≤ℤ pos 59)
    × (offset_seconds (offset_hour (negsuc 209 *ℤ 60)) (offset_minute (negsuc 209 *ℤ 60))
        ≡ negsuc 209 *ℤ 60)
offset_seconds-fields_example = offset_seconds-fields (negsuc 209)

deserialize-serialize_example :
    deserialize (serialize_azure_token (codes "eyJ0")) ≡ some (codes "eyJ0")
deserialize-serialize_example = deserialize-serialize (codes "eyJ0") (omega arith)

-- A cursor on a row whose first field is null.
abbrev null_row : Row
null_row = none ∷ some 2 ∷ []

abbrev on_null_row : Cursor Reading
on_null_row = record {
  driver = at_view (record { current = some null_row; pending = []; later = []; width = 2 });
  rows_fetched = 4;
  complete = false;
}

read_cell-Gives_example :
    Gives memory_contract on_null_row
      (cell_of memory_contract null_row 0 assign_integer)
      (read_cell memory 0 assign_integer 0 on_null_row)
read_cell-Gives_example = read_cell-Gives memory_contract null_row 0 assign_integer on_null_row refl
