-- ===== src/Lib.antt =====
-- The C++ core of the R package odbc: a connection and its current result, statements that run on a
-- thread of their own, and the loops that move rows between nanodbc and R.
--
-- An `odbc_connection` (src/odbc_connection.cpp) owns a nanodbc connection, at most one transaction
-- and a raw pointer to its current `odbc_result`. An `odbc_result` (src/odbc_result.cpp) registers
-- itself there, prepares and executes a statement, fetches rows into a data frame and binds
-- parameters in batches. `run_interruptible` (src/utils.cpp) runs the statement on a thread and lets
-- the user interrupt it.
--
-- Files and the code that they model:
-- Prelude, Outcome: lists, numbers, and a state monad with exceptions; a null or dangling pointer is
--   the outcome `crash`, and a loop without fuel the outcome `out_of_fuel`.
-- Nanodbc: the calls of nanodbc, of cctz and of the encoder, as parameters on a state of their own.
-- Session: the changing fields of odbc_connection, and the live odbc_result objects by address.
-- Connection: src/odbc_connection.cpp, under the names of its methods. Connection/Open: its
--   constructor (`open_connection`).
-- Interrupt: `run_interruptible` of src/utils.cpp. `wait_for` is its waiting loop: the two threads
--   are a schedule of events, in which the worker makes its next call or the user interrupts.
--   Interrupt/Progress: how long the main thread waits.
-- Result: the constructor (`new_result`), `execute` and the destructor (`destroy`) of odbc_result.
--   Result/Unbind: `unbind_if_needed`. Result/Fetches: `fetch`, `column_names` and the loop of
--   `column_types`, Result/Frames: what a fetch returns. Result/Reach: the calls of a user as steps, in any order.
-- Encoder: the class Iconv of src/Iconv.cpp, over the functions of R that it calls.
-- Catalog: the data frames of tables and columns of src/connection.cpp, and its lists of names.
-- Entry: the other entry points of src/connection.cpp, through an external pointer: the facts about
--   a connection, its release, the lists of drivers and data sources. Entry/Results: those of
--   src/result.cpp that tell of a result or release it.
--   Entry/Calls: those that pass a call on. Entry/Connect: `odbc_connect`, from the constructor to
--   the pointer that R holds.
-- Message: the text of `odbc_error` of src/odbc_result.h.
-- Types: the enum `r_type`, both functions `column_types` (`column_type`, `parameter_types`), and the
--   switches of `create_dataframe` (`storage`), `add_classes` (`column_class`) and
--   `result_to_dataframe` (`reader`).
-- Fetch: `create_dataframe`, `resize_dataframe`, `add_classes`, `safe_get` and the `assign_`
--   functions (`read_cell`, `write_cell`); Fetch/Loop: `nextResultSet` and `result_to_dataframe`;
--   Fetch/Contract: what nanodbc documents of a result; Fetch/Chunks: a fetch in two calls.
-- Batches: `get_parameter_rows` and the loop of `bind_list`.
-- Params: the parameters of R, `param_data` of src/odbc_result.h, and the calls that bind them.
-- Bind: the functions `bind_*` (Bind/Vectors), `bind_columns` and `bind_df` (Bind/Frames), `bind_list`
--   and `describe_parameters` (Bind/Rounds). Bind/Contract and Bind/Executes say what nanodbc
--   documents of them. Bind/Stable: the functions again, as far as a property of the session is kept
--   by each of their calls; Bind/Atomic: `bind_list` in a transaction, over calls that may fail;
--   Bind/Tables: the table-valued parameters that `bind_df` makes; Bind/Ends: the fuel of binding.
-- Clock: the arithmetic of `as_time`, `as_timestamp` and `bind_datetime`.
-- Zoned: the functions `as_double` of src/odbc_result.cpp, with cctz as a parameter.
-- Token: `serialize_azure_token` of src/utils.cpp.
-- Attributes: `prepare_connection_attributes` of src/utils.cpp, with `malloc` as a parameter.
-- Tests: the theorems at concrete inputs.
--
-- Bounds and fuel: the `int` that counts the room of a data frame overflows, as undefined behaviour,
-- and stays below 2^31 for 2^30 rows; other numbers of rows and columns are natural numbers. The
-- fields of a time wrap around; `size_t` addition in the batches, the size of a token, and the sizes
-- that Iconv turns into an `int` wrap around. The loops over result sets and over rows take fuel: more
-- than the rows and result sets left is enough, and so it is for the rows of a catalog. The loop
-- over batches takes one unit more than rows. The arithmetic of `Clock` is on whole seconds and
-- billionths.
--
-- Not modelled: how long the buffers live that nanodbc points to, the destruction of a connection
-- when its last pointer goes, the calendar of cctz, the printing of `column_types` in src/result.cpp,
-- the signal masks, the conditions that R is told (their names are notices of a session), and the
-- copies of nanodbc and cctz.
pub mod Prelude
pub mod Outcome
pub mod Nanodbc
pub mod Session
pub mod Connection
pub mod Interrupt
pub mod Types
pub mod Fetch
pub mod Batches
pub mod Params
pub mod Bind
pub mod Clock
pub mod Zoned
pub mod Token
pub mod Attributes
pub mod Result
pub mod Catalog
pub mod Entry
pub mod Encoder
pub mod Message
pub mod Tests
