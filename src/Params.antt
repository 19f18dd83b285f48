-- ===== src/Params.antt =====
-- The parameters of a statement as R passes them, the buffers of src/odbc_result.h (`param_data`),
-- and the calls of nanodbc and cctz that bind them.
use odbc.Prelude.{
  ℕ, ◌+◌, Bool, true, false, Option, none, some, List, ◌==◌, leb, length, take, drop, if◌then◌else◌,
}
use odbc.Prelude.Int.{ℤ, pos_part, neg_part}
use odbc.Nanodbc.{Reply, Text, Date, Time, Timestamp, TimestampOffset}
use odbc.Types.{SqlType}

-- A double of R: NA, or a number of billionths.
pub data Real : Type 0 where
  na_number : Real
  billionths : ℤ → Real

abbrev pub is_na : Real → Bool
is_na na_number = true
is_na (billionths n) = false

-- The vectors, and the lists of raw vectors and NULL.
pub data Vector : Type 0 where
  logicals integers : List ℤ → Vector
  doubles : List Real → Vector
  strings : List (Option Text) → Vector
  raws : List (Option (List ℕ)) → Vector
  raw_bytes : List ℕ → Vector

-- `Rf_length` of a vector.
abbrev pub vector_length : Vector → ℕ
vector_length (logicals xs) = length xs
vector_length (integers xs) = length xs
vector_length (doubles xs) = length xs
vector_length (strings xs) = length xs
vector_length (raws xs) = length xs
vector_length (raw_bytes xs) = length xs

-- The classes that the code asks for, and the attribute `tzone`.
pub record Class : Type 0 where
  pub is_date : Bool
  pub is_posixct : Bool
  pub is_difftime : Bool
  pub tzone : Option Text

-- A parameter is a vector or a data frame.
mutual
  pub data Param : Type 0 where
    column : Vector → Class → Param
    frame : Params → Param

  pub data Params : Type 0 where
    nil : Params
    cons : Param → Params → Params

-- `param_data`: a map from columns to vectors for each type. A missing key is an empty vector.
pub record ParamData : Type 0 where
  pub strings : ℕ → List Text
  pub raws : ℕ → List (List ℕ)
  pub times : ℕ → List Time
  pub timestamps : ℕ → List Timestamp
  pub timestampoffsets : ℕ → List TimestampOffset
  pub dates : ℕ → List Date
  pub nulls : ℕ → List Bool

abbrev pub put {ℓ} : {A : Type ℓ} → (ℕ → A) → ℕ → A → ℕ → A
put f i v j = if i == j then v else f j

-- What a call of `bind` is given: the values, and which of them are null.
pub data Bound : Type 0 where
  ints : List ℤ → List Bool → Bound
  reals : List Real → List Bool → Bound
  texts : List Text → List Bool → Bound
  blobs : List (List ℕ) → List Bool → Bound
  times : List Time → List Bool → Bound
  dates : List Date → List Bool → Bound
  timestamps : List Timestamp → List Bool → Bound
  timestampoffsets : List TimestampOffset → List Bool → Bound

-- What a column is bound to: a statement or a table-valued parameter, by its handle.
pub data Target : Type 0 where
  statement : ℕ → Target
  table : ℕ → Target

-- nanodbc's calls on a state `D`, and Rcpp::checkUserInterrupt.
pub record Binder (D : Type 0) : Type 0 where
  pub bind : Target → ℕ → Bound → D → Reply (Unit {0}) × D
  pub parameter_type : Target → ℕ → D → Reply SqlType × D
  pub parameter_scale : Target → ℕ → D → Reply ℕ × D
  pub describe_parameters : ℕ → List ℤ → List ℤ → List ℤ → List ℤ → D → Reply (Unit {0}) × D
  pub new_table : ℕ → ℕ → ℕ → D → Reply ℕ × D
  pub close_table : ℕ → D → Reply (Unit {0}) × D
  pub drop_table : ℕ → D → D
  pub check_user_interrupt : D → Reply (Unit {0}) × D

-- cctz: zones by handles, the civil time of a number of seconds in a zone with the zone's offset,
-- and the seconds of a civil time.
pub record Zones : Type 0 where
  pub utc : ℕ
  pub load_time_zone : Text → Option ℕ
  pub lookup : ℕ → ℤ → Date × (Time × ℤ)
  pub convert : ℕ → Date → Time → ℤ

-- What memory holds that the code reads without having written it: variables before they are set,
-- and a vector through a pointer of another type.
pub record Memory : Type 0 where
  pub date : Date
  pub time : Time
  pub timestampoffset : TimestampOffset
  pub real_at : Vector → ℕ → Real

-- The elements from `start` on, so many; `none` where they reach beyond the end.
abbrev pub slice {ℓ} : {A : Type ℓ} → ℕ → ℕ → List A → Option (List A)
slice start size xs =
    if leb (start + size) (length xs) then some (take size (drop start xs)) else none

abbrev pub magnitude : ℤ → ℕ
magnitude n = pos_part n + neg_part n
