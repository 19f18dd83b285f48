-- ===== src/Types/Agreement.antt =====
-- The switches over column types agree with one another.
use odbc.Prelude.{◌≡◌, ◌≢◌, refl, Bool, true, false, some, arith}
use odbc.Types.{
  RType, logical_t, integer64_t, double_t, date_int_t, date_double_t, datetime_int_t,
  datetime_double_t, string_t, ustring_t, dataframe_t, BigintMap, SqlType, bigint_type, column_type,
  SexpType, lglsxp, intsxp, realsxp, strsxp, vecsxp, Shape, parameter_type, Storage, int_vector,
  real_vector, string_vector, list_vector, logical_vector, storage, RClass, date_class,
  posixct_class, hms_class, column_class, Reader, reader, written,
}

readable :
    (t : RType) → t ≢ dataframe_t → (r : Reader) × (reader t ≡ some r) × (written r ≡ storage t)
unfolding reader written storage
readable logical_t h = (_, refl, refl)
readable dataframe_t h = absurd (h refl)
readable _ h = (_, refl, refl)

bigint_type-ne : (b : BigintMap) → (bigint_type b).0 ≢ dataframe_t
unfolding bigint_type
bigint_type-ne b = ground arith

column_type-ne : (b : BigintMap) (t : SqlType) → (column_type b t).0 ≢ dataframe_t
unfolding column_type
column_type-ne b t = ground (arith, bigint_type-ne b)

-- Every column of a result has an `assign_` function, which writes through the kind of vector that
-- `create_dataframe` allocated for the column, whatever the SQL type and the bigint mapping are.
pub column_type-written :
    (b : BigintMap) (t : SqlType)
    → (r : Reader) × (reader (column_type b t).0 ≡ some r)
      × (written r ≡ storage (column_type b t).0)
column_type-written b t = readable (column_type b t).0 (column_type-ne b t)

-- What R sees of a column with this storage and class.
abbrev sexp_of : Storage → SexpType
sexp_of int_vector = intsxp
sexp_of real_vector = realsxp
sexp_of string_vector = strsxp
sexp_of list_vector = vecsxp
sexp_of logical_vector = lglsxp

abbrev is_date_class : RClass → Bool
is_date_class date_class = true
is_date_class _ = false

abbrev is_posixct_class : RClass → Bool
is_posixct_class posixct_class = true
is_posixct_class _ = false

abbrev is_hms_class : RClass → Bool
is_hms_class hms_class = true
is_hms_class _ = false

abbrev pub fetched_shape : RType → Shape
fetched_shape t = record {
  is_data_frame = false;
  sexp_type = sexp_of (storage t);
  is_date = is_date_class (column_class t);
  is_posixct = is_posixct_class (column_class t);
  is_difftime = is_hms_class (column_class t);
}

-- The type under which a fetched column is bound again.
abbrev pub bound_again : RType → RType
bound_again integer64_t = double_t
bound_again ustring_t = string_t
bound_again date_int_t = date_double_t
bound_again datetime_int_t = datetime_double_t
bound_again t = t

again : (t : RType) → t ≢ dataframe_t → parameter_type (fetched_shape t) ≡ some (bound_again t)
unfolding parameter_type storage column_class
again dataframe_t h = absurd (h refl)
again logical_t h = refl
again _ h = refl

-- A column of a result that is passed back as a parameter is bound under the type it was fetched
-- with, but for two: the bits of a 64-bit integer are bound as a double, and a wide string is
-- bound as a string.
pub fetched_column_bound_again :
    (b : BigintMap) (t : SqlType)
    → parameter_type (fetched_shape (column_type b t).0) ≡ some (bound_again (column_type b t).0)
fetched_column_bound_again b t = again (column_type b t).0 (column_type-ne b t)
