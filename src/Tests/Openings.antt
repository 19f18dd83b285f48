-- ===== src/Tests/Openings.antt =====
-- A connection that fails: the state is the number of descriptors that are open.
use odbc.Prelude.{ℕ, suc, ◌-◌, true, some, none, [], codes}
use odbc.Prelude.Int.{pos}
use odbc.Outcome.{database_error, odbc_error}
use odbc.Nanodbc.{done, fails}
use odbc.Types.{i64_to_integer64}
use odbc.Encoder.{Coding, descriptor}
use odbc.Connection.Open.{Settings, Surroundings}

abbrev counting : Coding ℕ
counting = record {
  open_descriptor = λ to from d. (descriptor d, suc d);
  riconv = λ cd source buffer room d.
      (record { failed = none; buffer = buffer; outbytesleft = room }, d);
  close_descriptor = λ cd d. d - 1;
  mk_char = λ start n d. (done start, d);
}

abbrev pub around : Surroundings ℕ
around = record {
  coding = counting;
  load_time_zone = λ name. some 0;
  malloc = λ live. 0;
  connect = λ text p d. (fails (database_error 3), d);
  format_error = odbc_error;
}

abbrev settings : Settings
settings = record {
  connection_string = codes "dsn=test";
  timezone = codes "UTC";
  timezone_out = codes "UTC";
  encoding = codes "latin1";
  name_encoding = [];
  bigint_mapping = i64_to_integer64;
  timeout = pos 10;
  r_attributes = none;
  interruptible_execution = true;
}
