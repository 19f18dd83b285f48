-- ===== src/Tests/Entries.antt =====
-- The drivers of a machine, and a driver that does not say how it reads.
use odbc.Prelude.{ℕ, ◌≡◌, refl, true, false, List, [], ◌∷◌, codes}
use odbc.Outcome.{database_error, ok, Sat}
use odbc.Nanodbc.{Reply, done, fails}
use odbc.Entry.{
  Driver, Infos, NumberInfo, getdata_extensions, schema_usage, Handle, list_drivers,
  connection_info, connection_release, connection_valid, connection_has_result, connection_begin,
  connection_commit, connection_rollback, connection_quote, set_transaction_isolation,
}
use odbc.Entry.Listed.{columns_of, rows, list_drivers-rows}
use odbc.Entry.Released.{Refused, release_refuses}
use odbc.Entry.Info.{OnlyDatabase, Informed, connection_info_lem}
use odbc.Tests.Drivers.{quiet}
use odbc.Tests.Results.{busy}

abbrev two_drivers : List Driver
two_drivers =
    record { name = codes "SQLite"; attributes = [] }
    ∷ record {
      name = codes "MySQL";
      attributes =
          record { keyword = codes "Driver"; value = codes "myodbc.so" }
          ∷ record { keyword = codes "UsageCount"; value = codes "1" }
          ∷ [];
    }
    ∷ []

list_drivers-rows_example : list_drivers two_drivers ≡ columns_of (rows two_drivers)
list_drivers-rows_example = list_drivers-rows two_drivers

abbrev numbers : NumberInfo → ℕ → Reply ℕ × ℕ
numbers getdata_extensions d = (done 3, d)
numbers schema_usage d = (fails (database_error 8), d)

-- SQL_SCHEMA_USAGE is not answered.
abbrev silent : Infos ℕ
silent = record {
  text_info = λ i d. (done (codes "Y"), d);
  number_info = numbers;
  set_txn_isolation = λ level d. d;
}

abbrev handle : Handle ℕ
handle = record { valid = true; session = busy }

release_refuses_example :
    let p' = (connection_release handle).1 in
    (connection_valid p' ≡ false)
    × Refused connection_has_result p'
    × Refused (connection_begin quiet) p'
    × Refused (connection_commit quiet) p'
    × Refused (connection_rollback quiet) p'
    × Refused (connection_quote silent) p'
    × Refused (set_transaction_isolation silent 8) p'
    × Refused (connection_info quiet silent) p'
    × (connection_release p' ≡ (ok tt, p'))
release_refuses_example = release_refuses quiet silent handle 8

numbers-OnlyDatabase : (i : NumberInfo) (d : ℕ) → OnlyDatabase (silent.number_info i d).0
numbers-OnlyDatabase getdata_extensions d = tt
numbers-OnlyDatabase schema_usage d = tt

connection_info_lem_example :
    Sat {S = Handle ℕ}
      (λ i p'. (p'.valid ≡ true) × Informed silent busy i p'.session)
      (λ _ _. ⊥)
      (connection_info quiet silent handle)
connection_info_lem_example =
    connection_info_lem quiet silent
      (record {
        text_errors = λ i d. tt;
        number_errors = numbers-OnlyDatabase;
        txn_errors = λ d. tt;
      })
      handle refl
