-- ===== src/Connection/Open.antt =====
-- The constructor of odbc_connection, src/odbc_connection.cpp, and what it acquires.
pub mod Leaks
use odbc.Prelude.{ℕ, codes, Bool, Option, none, some, List, []}
use odbc.Prelude.Int.{ℤ}
use odbc.Outcome.{
  Outcome, ok, throws, crash, out_of_fuel, Error, database_error, r_stop, Stop, time_zone_error,
  timezone_out_error, M, pure, throw, ◌>>=◌, try_catch,
}
use odbc.Nanodbc.{Reply, done, fails, Text}
use odbc.Types.{BigintMap}
use odbc.Attributes.{Options, Prepared, prepare_connection_attributes}
use odbc.Encoder.{Coding, Iconv, new_iconv, delete_iconv}

-- The arguments of the constructor.
pub record Settings : Type 0 where
  pub connection_string : Text
  pub timezone : Text
  pub timezone_out : Text
  pub encoding : Text
  pub name_encoding : Text
  pub bigint_mapping : BigintMap
  pub timeout : ℤ
  pub r_attributes : Option Options
  pub interruptible_execution : Bool

-- The members of an Iconv.
pub record Encoder : Type 0 where
  pub cd : Option ℕ
  pub buffer : List ℕ

-- The members of odbc_connection after the constructor.
pub record OdbcConnection : Type 0 where
  pub connection : ℕ
  pub transaction : Option ℕ
  pub current_result : Option ℕ
  pub timezone : ℕ
  pub timezone_out : ℕ
  pub timezone_out_str : Text
  pub bigint_mapping : BigintMap
  pub output_encoder : Encoder
  pub column_name_encoder : Encoder
  pub interruptible_execution : Bool

-- What the constructor calls: Riconv, `cctz::load_time_zone`, `malloc`, the constructor of
-- nanodbc::connection, and the formatting of its error.
pub record Surroundings (D : Type 0) : Type 0 where
  pub coding : Coding D
  pub load_time_zone : Text → Option ℕ
  pub malloc : List (ℕ × List ℕ) → ℕ
  pub connect : Text → Prepared → D → Reply ℕ × D
  pub format_error : ℕ → Error

module _ {D : Type 0} (around : Surroundings D) where
  made : Outcome (Unit {0}) × Iconv D → Outcome Encoder × D
  made (ok u, i) = (ok (record { cd = i.cd; buffer = i.buffer }), i.driver)
  made (throws e, i) = (throws e, i.driver)
  made (crash, i) = (crash, i.driver)
  made (out_of_fuel, i) = (out_of_fuel, i.driver)

  -- `std::make_shared<Iconv>(encoding, "UTF-8")`
  unfoldable pub make_encoder : Text → M D Encoder
  unfolding made
  make_encoder encoding d = made (
      new_iconv around.coding encoding (codes "UTF-8")
        (record { driver = d; cd = none; buffer = [] }))

  unfoldable pub drop_encoder : Encoder → D → D
  drop_encoder e d =
      (delete_iconv around.coding (record { driver = d; cd = e.cd; buffer = e.buffer })).1.driver

  -- The rest of the constructor: where it throws, the member is destroyed.
  unfoldable pub with_member : {A : Type 0} → Encoder → M D A → M D A
  with_member e m = try_catch m (λ err d. (throws err, drop_encoder e d))

  unfoldable pub load_or_stop : Stop → Text → M D ℕ
  load_or_stop stop name = elim (around.load_time_zone name) [
    | none ↦ throw (r_stop stop)
    | some zone ↦ pure zone
  ]

  answered : {A : Type 0} → Reply A × D → Outcome A × D
  answered (done a, d) = (ok a, d)
  answered (fails (database_error c), d) = (throws (around.format_error c), d)
  answered (fails e, d) = (throws e, d)

  unfoldable pub connect_with : Settings → M D ℕ
  unfolding answered
  connect_with settings d = answered (
      around.connect settings.connection_string
        (prepare_connection_attributes around.malloc settings.timeout settings.r_attributes) d)

  unfoldable pub load_and_connect : Settings → Encoder → Encoder → M D OdbcConnection
  load_and_connect settings output names = do
    zone ← load_or_stop time_zone_error settings.timezone
    zone_out ← load_or_stop timezone_out_error settings.timezone_out
    c ← connect_with settings
    pure (record {
      connection = c;
      transaction = none;
      current_result = none;
      timezone = zone;
      timezone_out = zone_out;
      timezone_out_str = settings.timezone_out;
      bigint_mapping = settings.bigint_mapping;
      output_encoder = output;
      column_name_encoder = names;
      interruptible_execution = settings.interruptible_execution;
    })

  unfoldable pub open_connection : Settings → M D OdbcConnection
  open_connection settings = do
    output ← make_encoder settings.encoding
    with_member output (do
      names ← make_encoder settings.name_encoding
      with_member names (load_and_connect settings output names))
