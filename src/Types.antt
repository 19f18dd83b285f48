-- ===== src/Types.antt =====
-- The types of columns: `r_type` (src/r_types.h), the mapping from SQL types and from R vectors to
-- it, and the vectors that hold a column (src/odbc_result.cpp).
pub mod Agreement
use odbc.Prelude.{ℕ, Bool, true, false, not, ◌&&◌, Option, none, some, List, [], ◌∷◌, if◌then◌else◌}
use odbc.Prelude.Int.{ℤ}
use odbc.Outcome.{Outcome, ok, throws, r_stop, unsupported_type}

pub data RType : Type 0 where
  logical_t integer_t integer64_t double_t date_int_t date_double_t : RType
  datetime_int_t datetime_double_t time_t string_t ustring_t raw_t dataframe_t : RType

-- `bigint_map_t` (src/odbc_connection.h), with what a cast from another number gives.
pub data BigintMap : Type 0 where
  i64_to_integer64 i64_to_integer i64_to_double i64_to_character : BigintMap
  unknown_mapping : ℤ → BigintMap

-- The SQL type codes that the code names, and any other.
pub data SqlType : Type 0 where
  sql_bit sql_tinyint sql_smallint sql_integer sql_double sql_float sql_decimal sql_real : SqlType
  sql_numeric sql_bigint sql_date sql_type_date sql_time sql_ss_time2 sql_type_time : SqlType
  sql_timestamp sql_type_timestamp sql_ss_timestampoffset sql_char sql_varchar : SqlType
  sql_longvarchar sql_wchar sql_wvarchar sql_wlongvarchar sql_binary sql_varbinary : SqlType
  sql_longvarbinary sql_db2_xml : SqlType
  other_type : ℤ → SqlType

-- The type of a result's column, and whether `signal_unknown_field_type` is called for it.
unfoldable pub bigint_type : BigintMap → RType × Bool
bigint_type i64_to_integer = (integer_t, false)
bigint_type i64_to_double = (double_t, false)
bigint_type i64_to_character = (string_t, false)
bigint_type i64_to_integer64 = (integer64_t, false)
bigint_type (unknown_mapping n) = (string_t, true)

unfoldable pub column_type : BigintMap → SqlType → RType × Bool
unfolding bigint_type
column_type b sql_bit = (logical_t, false)
column_type b sql_tinyint = (integer_t, false)
column_type b sql_smallint = (integer_t, false)
column_type b sql_integer = (integer_t, false)
column_type b sql_double = (double_t, false)
column_type b sql_float = (double_t, false)
column_type b sql_decimal = (double_t, false)
column_type b sql_real = (double_t, false)
column_type b sql_numeric = (double_t, false)
column_type b sql_bigint = bigint_type b
column_type b sql_date = (date_double_t, false)
column_type b sql_type_date = (date_double_t, false)
column_type b sql_time = (time_t, false)
column_type b sql_ss_time2 = (time_t, false)
column_type b sql_type_time = (time_t, false)
column_type b sql_timestamp = (datetime_double_t, false)
column_type b sql_type_timestamp = (datetime_double_t, false)
column_type b sql_ss_timestampoffset = (datetime_double_t, false)
column_type b sql_char = (string_t, false)
column_type b sql_varchar = (string_t, false)
column_type b sql_longvarchar = (string_t, false)
column_type b sql_wchar = (ustring_t, false)
column_type b sql_wvarchar = (ustring_t, false)
column_type b sql_wlongvarchar = (ustring_t, false)
column_type b sql_binary = (raw_t, false)
column_type b sql_varbinary = (raw_t, false)
column_type b sql_longvarbinary = (raw_t, false)
column_type b sql_db2_xml = (raw_t, false)
column_type b (other_type n) = (string_t, true)

-- The SEXP types.
pub data SexpType : Type 0 where
  lglsxp intsxp realsxp strsxp vecsxp rawsxp : SexpType
  other_sexp : ℕ → SexpType

-- What `column_types` looks at in a vector of R.
pub record Shape : Type 0 where
  pub is_data_frame : Bool
  pub sexp_type : SexpType
  pub is_date : Bool
  pub is_posixct : Bool
  pub is_difftime : Bool

unfoldable pub integer_shape : Shape → RType
integer_shape x =
    if x.is_date then date_int_t else if x.is_posixct then datetime_int_t else integer_t

unfoldable pub real_shape : Shape → RType
real_shape x =
    if x.is_date
    then date_double_t
    else if x.is_posixct
    then datetime_double_t
    else if x.is_difftime
    then time_t
    else double_t

-- `none` is the call of `Rcpp::stop`.
unfoldable pub vector_type : Shape → SexpType → Option RType
unfolding integer_shape real_shape
vector_type x lglsxp = some logical_t
vector_type x intsxp = some (integer_shape x)
vector_type x realsxp = some (real_shape x)
vector_type x strsxp = some string_t
vector_type x vecsxp = some raw_t
vector_type x rawsxp = some raw_t
vector_type x (other_sexp n) = none

unfoldable pub parameter_type : Shape → Option RType
unfolding vector_type
parameter_type x = if x.is_data_frame then some dataframe_t else vector_type x x.sexp_type

-- The types of all parameters, or the first error.
unfoldable pub parameter_types : List Shape → Outcome (List RType)
unfolding parameter_type
parameter_types [] = ok []
parameter_types (x ∷ xs) = elim (parameter_type x) [
  | none ↦ throws (r_stop unsupported_type)
  | some t ↦ elim (parameter_types xs) [ ok ts ↦ ok (t ∷ ts) | other ↦ other ]
]

-- The vector that `create_dataframe` allocates.
pub data Storage : Type 0 where
  int_vector real_vector string_vector list_vector logical_vector : Storage

unfoldable pub storage : RType → Storage
storage integer_t = int_vector
storage integer64_t = real_vector
storage date_int_t = real_vector
storage date_double_t = real_vector
storage datetime_int_t = real_vector
storage datetime_double_t = real_vector
storage time_t = real_vector
storage double_t = real_vector
storage ustring_t = string_vector
storage string_t = string_vector
storage raw_t = list_vector
storage dataframe_t = list_vector
storage logical_t = logical_vector

-- The class that `add_classes` sets; the time zone of a POSIXct is the connection's `timezone_out`.
pub data RClass : Type 0 where
  no_class integer64_class date_class posixct_class hms_class blob_class : RClass

unfoldable pub column_class : RType → RClass
column_class integer64_t = integer64_class
column_class date_int_t = date_class
column_class date_double_t = date_class
column_class datetime_int_t = posixct_class
column_class datetime_double_t = posixct_class
column_class time_t = hms_class
column_class raw_t = blob_class
column_class logical_t = no_class
column_class integer_t = no_class
column_class double_t = no_class
column_class string_t = no_class
column_class ustring_t = no_class
column_class dataframe_t = no_class

-- The `assign_` function that `result_to_dataframe` calls; `none` is the default branch.
pub data Reader : Type 0 where
  assign_date assign_datetime assign_double assign_integer assign_integer64 assign_time : Reader
  assign_string assign_ustring assign_logical assign_raw : Reader

unfoldable pub reader : RType → Option Reader
reader date_int_t = some assign_date
reader date_double_t = some assign_date
reader datetime_double_t = some assign_datetime
reader datetime_int_t = some assign_datetime
reader double_t = some assign_double
reader integer_t = some assign_integer
reader integer64_t = some assign_integer64
reader time_t = some assign_time
reader string_t = some assign_string
reader ustring_t = some assign_ustring
reader logical_t = some assign_logical
reader raw_t = some assign_raw
reader dataframe_t = none

-- The vector through which an `assign_` function writes: `INTEGER64` is `REAL`, cast.
unfoldable pub written : Reader → Storage
written assign_date = real_vector
written assign_datetime = real_vector
written assign_double = real_vector
written assign_integer = int_vector
written assign_integer64 = real_vector
written assign_time = real_vector
written assign_string = string_vector
written assign_ustring = string_vector
written assign_logical = logical_vector
written assign_raw = list_vector
