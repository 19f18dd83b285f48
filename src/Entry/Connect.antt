-- ===== src/Entry/Connect.antt =====
-- `odbc_connect` of src/connection.cpp, and the constants that R is told.
pub mod Life
pub mod Mappings
use odbc.Prelude.{ℕ, codes, Bool, true, Option, none, List, [], ◌∷◌, ◌==◌, if◌then◌else◌}
use odbc.Prelude.Int.{ℤ, pos, negsuc}
use odbc.Outcome.{M, pure, ◌>>=◌}
use odbc.Nanodbc.{Text}
use odbc.Session.{Session, Object}
use odbc.Types.{
  BigintMap, i64_to_integer64, i64_to_integer, i64_to_double, i64_to_character, unknown_mapping,
}
use odbc.Attributes.{Options}
use odbc.Connection.Open.{OdbcConnection, Surroundings, open_connection}
use odbc.Entry.{Handle}

-- `static_cast<bigint_map_t>(bigint)`. A number that names no mapping keeps its value here.
unfoldable pub cast_bigint : ℤ → BigintMap
cast_bigint (negsuc n) = unknown_mapping (negsuc n)
cast_bigint (pos n) =
    if n == 0
    then i64_to_integer64
    else if n == 1
    then i64_to_integer
    else if n == 2
    then i64_to_double
    else if n == 3
    then i64_to_character
    else unknown_mapping (pos n)

-- The number of an enumerator.
unfoldable pub number_of : BigintMap → ℤ
number_of i64_to_integer64 = pos 0
number_of i64_to_integer = pos 1
number_of i64_to_double = pos 2
number_of i64_to_character = pos 3
number_of (unknown_mapping n) = n

-- The elements of the vector, by their names.
unfoldable pub bigint_mappings : List (Text × ℤ)
unfolding number_of
bigint_mappings =
    (codes "integer64", number_of i64_to_integer64)
    ∷ (codes "integer", number_of i64_to_integer)
    ∷ (codes "numeric", number_of i64_to_double)
    ∷ (codes "character", number_of i64_to_character)
    ∷ []

-- SQL_TXN_READ_UNCOMMITTED, SQL_TXN_READ_COMMITTED, SQL_TXN_REPEATABLE_READ and
-- SQL_TXN_SERIALIZABLE are the first four bits.
unfoldable pub transaction_levels : List (Text × ℕ)
transaction_levels =
    (codes "read_uncommitted", 1)
    ∷ (codes "read_committed", 2)
    ∷ (codes "repeatable_read", 4)
    ∷ (codes "serializable", 8)
    ∷ []

-- What changes of a connection that was just made: it has no results.
abbrev pub session_of : {D : Type 0} → OdbcConnection → D → Session D
session_of c d = record {
  driver = d;
  transaction = c.transaction;
  current_result = c.current_result;
  objects = λ p. none;
  interruptible = c.interruptible_execution;
  notices = [];
}

-- The pointer to a connection that was just made, and the members that stay as they are.
pub record Connected (D : Type 0) : Type 0 where
  pub connection : OdbcConnection
  pub pointer : Handle D

module _ {D : Type 0} (around : Surroundings D) where
  unfoldable pub odbc_connect :
      Text → Text → Text → Text → Text → ℤ → ℤ → Option Options → Bool → M D (Connected D)
  odbc_connect connection_string timezone timezone_out encoding name_encoding bigint timeout
        r_attributes interruptible_execution d =
      (do
        c ← open_connection around (record {
          connection_string = connection_string;
          timezone = timezone;
          timezone_out = timezone_out;
          encoding = encoding;
          name_encoding = name_encoding;
          bigint_mapping = cast_bigint bigint;
          timeout = timeout;
          r_attributes = r_attributes;
          interruptible_execution = interruptible_execution;
        })
        λ d'.
            pure
              (record {
                connection = c;
                pointer = record { valid = true; session = session_of c d' };
              })
              d')
        d
