-- ===== src/Tests/Lives.antt =====
-- A connection that is opened and used, and what its result reports.
use odbc.Prelude.{ℕ, ◌≡◌, refl, true, none, some, [], codes, arith}
use odbc.Prelude.Int.{pos}
use odbc.Outcome.{ok}
use odbc.Nanodbc.{Nanodbc, done}
use odbc.Connection.{begin, text_eq}
use odbc.Connection.Open.{
  Surroundings, make_encoder, with_member, load_or_stop, connect_with, load_and_connect,
  open_connection,
}
use odbc.Encoder.{new_iconv}
use odbc.Types.{i64_to_double}
use odbc.Result.Safety.{IsSafe}
use odbc.Result.Reach.{here, then_step, begin_one}
use odbc.Entry.Results.{ResultHandle, result_rows_affected}
use odbc.Entry.Counts.{seen, result_rows_affected-seen}
use odbc.Entry.Connect.{Connected, cast_bigint, odbc_connect}
use odbc.Entry.Connect.Life.{odbc_connect-IsSafe}
use odbc.Tests.Calls.{headers, empty}
use odbc.Tests.Drivers.{quiet}
use odbc.Tests.Openings.{around}
use odbc.Tests.Results.{busy, executed}

abbrev willing : Surroundings ℕ
willing = record around { connect = λ text p d. (done 3, d) }

abbrev connected : Connected ℕ
connected = record {
  connection = record {
    connection = 3;
    transaction = none;
    current_result = none;
    timezone = 0;
    timezone_out = 0;
    timezone_out_str = [];
    bigint_mapping = i64_to_double;
    output_encoder = record { cd = none; buffer = [] };
    column_name_encoder = record { cd = none; buffer = [] };
    interruptible_execution = true;
  };
  pointer = record {
    valid = true;
    session = record {
      driver = 4;
      transaction = none;
      current_result = none;
      objects = λ p. none;
      interruptible = true;
      notices = [];
    };
  };
}

connects :
    odbc_connect willing (codes "dsn=test") [] [] [] [] (pos 2) (pos 10) none true 4
    ≡ (ok connected, 4)
unfolding odbc_connect open_connection make_encoder with_member load_or_stop connect_with
    load_and_connect new_iconv text_eq cast_bigint
connects = refl

odbc_connect-IsSafe_example : IsSafe (begin quiet connected.pointer.session).1
odbc_connect-IsSafe_example =
    odbc_connect-IsSafe willing quiet empty headers (λ st d. (d, refl)) (codes "dsn=test") [] [] []
      [] (pos 2) (pos 10) none true 4 4 connected connects (then_step here begin_one)

-- Three billion rows.
abbrev plentiful : Nanodbc ℕ
plentiful = record quiet { affected_rows = λ r d. (done (pos 3000000000), d) }

abbrev held : ResultHandle ℕ
held = record { address = some 1; session = busy }

result_rows_affected-seen_example :
    ((result_rows_affected plentiful held).0 ≡ ok (seen (pos 3000000000)))
    × ((result_rows_affected plentiful held).1.session.objects ≡ busy.objects)
result_rows_affected-seen_example =
    result_rows_affected-seen plentiful held 1 6 (pos 3000000000) executed refl refl refl
      (λ d. refl) (omega arith)
