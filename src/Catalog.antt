-- ===== src/Catalog.antt =====
-- What the database holds, as src/connection.cpp hands it to R: its tables, its columns, its
-- catalogs, schemas and types of tables.
pub mod Rows
pub mod TableFrame
pub mod ColumnFrame
use odbc.Prelude.{
  ℕ, zero, suc, Bool, true, false, Option, List, [], ◌∷◌, ◌++◌, codes, if◌then◌else◌,
}
use odbc.Prelude.Int.{ℤ, pos, negsuc}
use odbc.Outcome.{Outcome, M, out_of_fuel, pure, ◌>>=◌}
use odbc.Nanodbc.{Reply, Text}
use odbc.Session.{Session, call}

-- The columns of nanodbc::catalog::tables and of nanodbc::catalog::columns, by the type of their
-- values.
pub data TableText : Type 0 where
  table_name table_type table_schema table_remarks table_catalog : TableText

pub data ColumnText : Type 0 where
  column_name in_table in_schema in_catalog type_name remarks column_default : ColumnText

pub data ColumnNumber : Type 0 where
  data_type column_size buffer_length decimal_digits numeric_precision_radix : ColumnNumber
  nullable sql_data_type sql_datetime_subtype char_octet_length ordinal_position : ColumnNumber

-- What is called of nanodbc::catalog and of the results that it makes. An argument that is R's NULL
-- is a null pointer.
pub record Catalog (D : Type 0) : Type 0 where
  -- The table, its type, the schema and the catalog.
  pub find_tables : Option Text → Option Text → Option Text → Option Text → D → Reply ℕ × D
  -- The column, the table, the schema and the catalog.
  pub find_columns : Option Text → Option Text → Option Text → Option Text → D → Reply ℕ × D
  pub next_row : ℕ → D → Reply Bool × D
  pub table_text : TableText → ℕ → D → Reply Text × D
  pub column_text : ColumnText → ℕ → D → Reply Text × D
  pub column_number : ColumnNumber → ℕ → D → Reply ℤ × D
  pub list_catalogs : D → Reply (List Text) × D
  pub list_schemas : D → Reply (List Text) × D
  pub list_table_types : D → Reply (List Text) × D

-- The vectors that `connection_sql_tables` fills.
pub record Tables : Type 0 where
  pub names : List Text
  pub types : List Text
  pub schemas : List Text
  pub remarks : List Text
  pub catalog : List Text

-- The vectors that `connection_sql_columns` fills.
pub record Columns : Type 0 where
  pub column_names : List Text
  pub table_names : List Text
  pub schema_names : List Text
  pub catalog_names : List Text
  pub data_type : List ℤ
  pub type_name : List Text
  pub column_size : List ℤ
  pub buffer_length : List ℤ
  pub decimal_digits : List ℤ
  pub numeric_precision_radix : List ℤ
  pub nullable : List Bool
  pub remarks : List Text
  pub column_default : List Text
  pub sql_data_type : List ℤ
  pub sql_datetime_subtype : List ℤ
  pub char_octet_length : List ℤ
  pub ordinal_position : List ℤ

abbrev pub no_tables : Tables
no_tables = record { names = []; types = []; schemas = []; remarks = []; catalog = [] }

abbrev pub no_columns : Columns
no_columns = record {
  column_names = [];
  table_names = [];
  schema_names = [];
  catalog_names = [];
  data_type = [];
  type_name = [];
  column_size = [];
  buffer_length = [];
  decimal_digits = [];
  numeric_precision_radix = [];
  nullable = [];
  remarks = [];
  column_default = [];
  sql_data_type = [];
  sql_datetime_subtype = [];
  char_octet_length = [];
  ordinal_position = [];
}

-- A data frame of R: vectors under their names, in order.
pub data RVector : Type 0 where
  text_vector : List Text → RVector
  number_vector : List ℤ → RVector
  bool_vector : List Bool → RVector

abbrev pub DataFrame : Type 0
DataFrame = List (Text × RVector)

-- `Rcpp::DataFrame::create` on the vectors, in both functions.
unfoldable pub create_tables : Tables → DataFrame
create_tables v =
    (codes "table_catalog", text_vector v.catalog)
    ∷ (codes "table_schema", text_vector v.schemas)
    ∷ (codes "table_name", text_vector v.names)
    ∷ (codes "table_type", text_vector v.types)
    ∷ (codes "table_remarks", text_vector v.remarks)
    ∷ []

unfoldable pub create_columns : Columns → DataFrame
create_columns v =
    (codes "name", text_vector v.column_names)
    ∷ (codes "field.type", text_vector v.type_name)
    ∷ (codes "table_name", text_vector v.table_names)
    ∷ (codes "schema_name", text_vector v.schema_names)
    ∷ (codes "catalog_name", text_vector v.catalog_names)
    ∷ (codes "data_type", number_vector v.data_type)
    ∷ (codes "column_size", number_vector v.column_size)
    ∷ (codes "buffer_length", number_vector v.buffer_length)
    ∷ (codes "decimal_digits", number_vector v.decimal_digits)
    ∷ (codes "numeric_precision_radix", number_vector v.numeric_precision_radix)
    ∷ (codes "remarks", text_vector v.remarks)
    ∷ (codes "column_default", text_vector v.column_default)
    ∷ (codes "sql_data_type", number_vector v.sql_data_type)
    ∷ (codes "sql_datetime_subtype", number_vector v.sql_datetime_subtype)
    ∷ (codes "char_octet_length", number_vector v.char_octet_length)
    ∷ (codes "ordinal_position", number_vector v.ordinal_position)
    ∷ (codes "nullable", bool_vector v.nullable)
    ∷ []

-- A number as a `bool`.
abbrev pub to_bool : ℤ → Bool
to_bool (pos zero) = false
to_bool (pos (suc n)) = true
to_bool (negsuc n) = true

-- `xs.push_back(x)`
abbrev pub push_back : {A : Type 0} → List A → A → List A
push_back xs x = xs ++ (x ∷ [])

-- A loop over the rows of a result, to which the model gives fuel.
unfoldable pub while_next :
    {D V : Type 0} → Catalog D → ℕ → (V → M (Session D) V) → ℕ → V → M (Session D) V
while_next c h body zero v s = (out_of_fuel, s)
while_next c h body (suc fuel) v s =
    (do
      more ← call (c.next_row h)
      if more then (do v' ← body v; while_next c h body fuel v') else pure v)
      s

module _ {D : Type 0} (c : Catalog D) where
  unfoldable pub push_table : ℕ → Tables → M (Session D) Tables
  push_table h v = do
    name ← call (c.table_text table_name h)
    type ← call (c.table_text table_type h)
    schema ← call (c.table_text table_schema h)
    remark ← call (c.table_text table_remarks h)
    cat ← call (c.table_text table_catalog h)
    pure (record {
      names = push_back v.names name;
      types = push_back v.types type;
      schemas = push_back v.schemas schema;
      remarks = push_back v.remarks remark;
      catalog = push_back v.catalog cat;
    })

  unfoldable pub connection_sql_tables :
      ℕ → Option Text → Option Text → Option Text → Option Text → M (Session D) DataFrame
  unfolding create_tables
  connection_sql_tables fuel catalog schema table type = do
    h ← call (c.find_tables table type schema catalog)
    v ← while_next c h (push_table h) fuel no_tables
    pure (create_tables v)

  unfoldable pub push_column : ℕ → Columns → M (Session D) Columns
  push_column h v = do
    name ← call (c.column_text column_name h)
    table ← call (c.column_text in_table h)
    schema ← call (c.column_text in_schema h)
    cat ← call (c.column_text in_catalog h)
    data_t ← call (c.column_number data_type h)
    type_n ← call (c.column_text type_name h)
    size ← call (c.column_number column_size h)
    buffer ← call (c.column_number buffer_length h)
    digits ← call (c.column_number decimal_digits h)
    radix ← call (c.column_number numeric_precision_radix h)
    null ← call (c.column_number nullable h)
    remark ← call (c.column_text remarks h)
    default ← call (c.column_text column_default h)
    sql_t ← call (c.column_number sql_data_type h)
    subtype ← call (c.column_number sql_datetime_subtype h)
    octets ← call (c.column_number char_octet_length h)
    position ← call (c.column_number ordinal_position h)
    pure (record {
      column_names = push_back v.column_names name;
      table_names = push_back v.table_names table;
      schema_names = push_back v.schema_names schema;
      catalog_names = push_back v.catalog_names cat;
      data_type = push_back v.data_type data_t;
      type_name = push_back v.type_name type_n;
      column_size = push_back v.column_size size;
      buffer_length = push_back v.buffer_length buffer;
      decimal_digits = push_back v.decimal_digits digits;
      numeric_precision_radix = push_back v.numeric_precision_radix radix;
      nullable = push_back v.nullable (to_bool null);
      remarks = push_back v.remarks remark;
      column_default = push_back v.column_default default;
      sql_data_type = push_back v.sql_data_type sql_t;
      sql_datetime_subtype = push_back v.sql_datetime_subtype subtype;
      char_octet_length = push_back v.char_octet_length octets;
      ordinal_position = push_back v.ordinal_position position;
    })

  unfoldable pub connection_sql_columns :
      ℕ → Option Text → Option Text → Option Text → Option Text → M (Session D) DataFrame
  unfolding create_columns
  connection_sql_columns fuel column catalog schema table = do
    h ← call (c.find_columns column table schema catalog)
    v ← while_next c h (push_column h) fuel no_columns
    pure (create_columns v)

  -- The loops that copy a list into a vector of R.
  push_each : List Text → List Text → List Text
  push_each [] ret = ret
  push_each (val ∷ res) ret = push_each res (push_back ret val)

  unfoldable pub connection_sql_catalogs : M (Session D) (List Text)
  unfolding push_each
  connection_sql_catalogs = do res ← call c.list_catalogs; pure (push_each res [])

  unfoldable pub connection_sql_schemas : M (Session D) (List Text)
  unfolding push_each
  connection_sql_schemas = do res ← call c.list_schemas; pure (push_each res [])

  unfoldable pub connection_sql_table_types : M (Session D) (List Text)
  unfolding push_each
  connection_sql_table_types = do res ← call c.list_table_types; pure (push_each res [])
