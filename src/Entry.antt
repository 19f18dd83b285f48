-- ===== src/Entry.antt =====
-- The entry points of R for a connection, src/connection.cpp: external pointers, the facts about a
-- connection, and the lists of drivers and data sources.
pub mod Listed
pub mod Released
pub mod Info
pub mod Results
pub mod Unbound
pub mod Connect
pub mod Calls
pub mod Counts
use odbc.Prelude.{
  ℕ, suc, zero, ◌/◌, ◌%◌, Bool, true, false, not, ◌&&◌, Option, none, some, List, [], ◌∷◌, codes,
  ◌==◌, if◌then◌else◌,
}
use odbc.Prelude.Int.{ℤ}
use odbc.Outcome.{
  Error, Outcome, ok, r_stop, invalid_pointer, M, pure, throw, ◌>>=◌, ◌>>◌, try_catch,
}
use odbc.Nanodbc.{Nanodbc, Reply, Text}
use odbc.Session.{Session, call, get, notify, result_still_in_use}
use odbc.Connection.{
  on_database_error, has_result, text_eq, begin, commit, rollback, supports_transactions,
}
use odbc.Catalog.{push_back}

-- The drivers and the data sources, as nanodbc lists them.
pub record Attribute : Type 0 where
  pub keyword : Text
  pub value : Text

pub record Driver : Type 0 where
  pub name : Text
  pub attributes : List Attribute

pub record DataSource : Type 0 where
  pub name : Text
  pub description : Text

-- The vectors of `list_drivers_` and of `list_data_sources_`.
pub record Drivers : Type 0 where
  pub names : List Text
  pub attributes : List Text
  pub values : List Text

pub record DataSources : Type 0 where
  pub names : List Text
  pub descriptions : List Text

push_driver_row : Text → Text → Text → Drivers → Drivers
push_driver_row name keyword value v = record {
  names = push_back v.names name;
  attributes = push_back v.attributes keyword;
  values = push_back v.values value;
}

-- The loop over the attributes of one driver.
unfoldable pub push_attributes : Text → List Attribute → Drivers → Drivers
unfolding push_driver_row
push_attributes name [] v = v
push_attributes name (attr ∷ attrs) v =
    push_attributes name attrs (push_driver_row name attr.keyword attr.value v)

unfoldable pub push_driver : Driver → Drivers → Drivers
unfolding push_driver_row
push_driver driver v = elim driver.attributes [
  | [] ↦ push_driver_row driver.name [] [] v
  | attr ∷ attrs ↦ push_attributes driver.name (attr ∷ attrs) v
]

unfoldable pub push_drivers : List Driver → Drivers → Drivers
push_drivers [] v = v
push_drivers (driver ∷ drivers) v = push_drivers drivers (push_driver driver v)

-- `list_drivers_`, where nanodbc lists these drivers.
unfoldable pub list_drivers : List Driver → Drivers
list_drivers drivers = push_drivers drivers (record { names = []; attributes = []; values = [] })

unfoldable pub push_sources : List DataSource → DataSources → DataSources
push_sources [] v = v
push_sources (source ∷ sources) v = push_sources sources (record {
  names = push_back v.names source.name;
  descriptions = push_back v.descriptions source.description;
})

-- `list_data_sources_`
unfoldable pub list_data_sources : List DataSource → DataSources
list_data_sources sources = push_sources sources (record { names = []; descriptions = [] })

-- What `SQLGetInfo` is asked for.
pub data TextInfo : Type 0 where
  database_name dbms_name dbms_ver user_name data_source_name server_name : TextInfo
  driver_name odbc_ver driver_ver driver_odbc_ver catalog_name identifier_quote_char : TextInfo

pub data NumberInfo : Type 0 where
  getdata_extensions schema_usage : NumberInfo

-- `get_info<std::string>` and `get_info<std::uint64_t>` of nanodbc::connection, and
-- `SQLSetConnectAttr` for SQL_ATTR_TXN_ISOLATION, whose return code is dropped.
pub record Infos (D : Type 0) : Type 0 where
  pub text_info : TextInfo → D → Reply Text × D
  pub number_info : NumberInfo → D → Reply ℕ × D
  pub set_txn_isolation : ℕ → D → D

-- An external pointer to the connection: not null, or cleared by `release`.
pub record Handle (D : Type 0) : Type 0 where
  pub valid : Bool
  pub session : Session D

module _ {D : Type 0} where
  -- A call through `*p`, which stops where the pointer is null.
  unfoldable pub through : {A : Type 0} → M (Session D) A → M (Handle D) A
  through m p =
      if p.valid
      then (let x = m p.session in (x.0, record p { session = x.1 }))
      else throw (r_stop invalid_pointer) p

  unfoldable pub connection_valid : Handle D → Bool
  connection_valid p = p.valid

  -- The warning, and `p.release()`, which clears the pointer. What becomes of the connection, which
  -- its results share, is left aside.
  unfoldable pub connection_release : M (Handle D) (Unit {0})
  connection_release p =
      let s = p.session in
      (
        ok tt,
        record {
          valid = false;
          session = if p.valid && has_result s then (notify result_still_in_use s).1 else s;
        },
      )

  unfoldable pub connection_has_result : M (Handle D) Bool
  connection_has_result = through (do s ← get; pure (has_result s))

module _ {D : Type 0} (drv : Nanodbc D) where
  unfoldable pub connection_begin : M (Handle D) (Unit {0})
  connection_begin = through (begin drv)

  unfoldable pub connection_commit : M (Handle D) (Unit {0})
  connection_commit = through (commit drv)

  unfoldable pub connection_rollback : M (Handle D) (Unit {0})
  connection_rollback = through (rollback drv)

module _ {D : Type 0} (infos : Infos D) where
  unfoldable pub get_info_or_empty : TextInfo → M (Session D) Text
  get_info_or_empty type = try_catch (call (infos.text_info type)) (on_database_error [])

  unfoldable pub connection_quote : M (Handle D) Text
  connection_quote = through (get_info_or_empty identifier_quote_char)

  -- `getdata_ext` and `owner_usage`, both 0 where either call fails.
  unfoldable pub extensions : M (Session D) (ℕ × ℕ)
  extensions =
      try_catch
        (do
          getdata_ext ← call (infos.number_info getdata_extensions)
          owner_usage ← call (infos.number_info schema_usage)
          pure (getdata_ext, owner_usage))
        (on_database_error (0, 0))

  unfoldable pub set_transaction_isolation : ℕ → M (Handle D) (Unit {0})
  set_transaction_isolation level =
      through λ s. (ok tt, record s { driver = infos.set_txn_isolation level s.driver })

-- The list of `connection_info`, without its elements `host` and `port`, which are empty.
pub record ConnectionInfo : Type 0 where
  pub dbname : Text
  pub dbms_name : Text
  pub db_version : Text
  pub username : Text
  pub sourcename : Text
  pub servername : Text
  pub drivername : Text
  pub odbc_version : Text
  pub driver_version : Text
  pub odbcdriver_version : Text
  pub supports_transactions : Bool
  pub supports_catalogs : Bool
  pub supports_schema : Bool
  pub any_column : Bool
  pub any_order : Bool

-- `x & bit` for the bit of the place whose weight is `w`.
abbrev pub has_bit : ℕ → ℕ → Bool
has_bit w x = not (x / w % 2 == 0)

-- SQL_GD_ANY_COLUMN and SQL_GD_ANY_ORDER are 1 and 2.
unfoldable pub info_of_session : {D : Type 0} → Nanodbc D → Infos D → M (Session D) ConnectionInfo
info_of_session drv infos = do
  ext ← extensions infos
  dbname ← get_info_or_empty infos database_name
  dbms ← get_info_or_empty infos dbms_name
  db_version ← get_info_or_empty infos dbms_ver
  username ← get_info_or_empty infos user_name
  sourcename ← get_info_or_empty infos data_source_name
  servername ← get_info_or_empty infos server_name
  drivername ← get_info_or_empty infos driver_name
  odbc_version ← get_info_or_empty infos odbc_ver
  driver_version ← get_info_or_empty infos driver_ver
  odbcdriver_version ← get_info_or_empty infos driver_odbc_ver
  transactions ← supports_transactions drv
  catalogs ← get_info_or_empty infos catalog_name
  pure (record {
    dbname = dbname;
    dbms_name = dbms;
    db_version = db_version;
    username = username;
    sourcename = sourcename;
    servername = servername;
    drivername = drivername;
    odbc_version = odbc_version;
    driver_version = driver_version;
    odbcdriver_version = odbcdriver_version;
    supports_transactions = transactions;
    supports_catalogs = text_eq catalogs (codes "Y");
    supports_schema = not (ext.1 == 0);
    any_column = has_bit 1 ext.0;
    any_order = has_bit 2 ext.0;
  })

unfoldable pub connection_info : {D : Type 0} → Nanodbc D → Infos D → M (Handle D) ConnectionInfo
connection_info drv infos = through (info_of_session drv infos)
