-- ===== src/Tests/Handles.antt =====
-- The entry points on a result with a parameter that is missing, and on one that is released.
use odbc.Prelude.{ℕ, ◌≡◌, refl, inr, false, some, none, []}
use odbc.Prelude.Int.{pos}
use odbc.Outcome.{Sat, ok, crash}
use odbc.Nanodbc.{Nanodbc, Text, done}
use odbc.Session.{update}
use odbc.Types.{SqlType}
use odbc.Result.{new_result}
use odbc.Result.Safety.{IsSafe}
use odbc.Entry.Results.{ResultHandle, result_release, result_rows_affected, result_column_info}
use odbc.Entry.Unbound.{handle_of, Released, column_info_crashes, result_release_lem}
use odbc.Tests.Drivers.{quiet, broken}
use odbc.Tests.Results.{direct, busy, executed}
use odbc.Tests.Calls.{headers}

-- Each statement has a parameter.
abbrev asking : Nanodbc ℕ
asking = record quiet { parameters = λ st d. (done 1, d) }

abbrev no_text : SqlType → Text
no_text t = []

column_info_crashes_example :
    let made = new_result asking 2 [] false [] direct in
    (made.0 ≡ ok tt)
    × ((result_rows_affected asking (handle_of 2 made)).0 ≡ ok (pos 0))
    × ((result_column_info asking headers no_text 9 (handle_of 2 made)).0 ≡ crash)
column_info_crashes_example =
    column_info_crashes asking headers no_text 2 [] direct 5 0 9 6 6 6 refl refl refl refl refl

abbrev held : ResultHandle ℕ
held = record { address = some 1; session = busy }

result_release_lem_example :
    Sat {S = ResultHandle ℕ}
      (λ _ p'.
        Released broken headers no_text p'
        × IsSafe p'.session
        × (p'.session.objects ≡ update busy.objects 1 none))
      (λ _ _. ⊥)
      (result_release broken held)
result_release_lem_example =
    result_release_lem broken headers no_text 1 executed held refl refl
      (inr (1, refl, (executed, 5, refl, refl)))
