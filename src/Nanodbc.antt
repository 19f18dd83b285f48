-- ===== src/Nanodbc.antt =====
-- What the code calls of nanodbc (src/nanodbc), and through it of the driver: each call gets and
-- gives a state that the model knows nothing of, and returns or throws.
use odbc.Prelude.{ℕ, List, Bool}
use odbc.Prelude.Int.{ℤ}
use odbc.Outcome.{Error}

pub data Reply {ℓ} (A : Type ℓ) : Type ℓ where
  done : A → Reply A
  fails : Error → Reply A

-- A text, by its bytes.
abbrev pub Text : Type 0
Text = List ℕ

-- Statements, results and transactions are named by handles.
pub record Nanodbc (D : Type 0) : Type 0 where
  pub new_statement : D → ℕ × D
  pub prepare : ℕ → Text → D → Reply (Unit {0}) × D
  pub parameters : ℕ → D → Reply ℕ × D
  pub execute_direct : ℕ → Text → D → Reply ℕ × D
  pub execute : ℕ → ℕ → D → Reply ℕ × D
  pub cancel : ℕ → D → Reply (Unit {0}) × D
  pub close : ℕ → D → Reply (Unit {0}) × D
  pub columns : ℕ → D → Reply ℕ × D
  pub affected_rows : ℕ → D → Reply ℤ × D
  pub is_bound : ℕ → ℕ → D → Reply Bool × D
  pub unbind : ℕ → ℕ → D → Reply (Unit {0}) × D
  pub new_transaction : D → Reply ℕ × D
  pub commit : ℕ → D → Reply (Unit {0}) × D
  pub rollback : ℕ → D → Reply (Unit {0}) × D
  pub txn_capable : D → Reply ℕ × D
  pub dbms_name : D → Reply Text × D
  pub driver_name : D → Reply Text × D
  -- The destructors, which throw nothing.
  pub drop_statement : ℕ → D → D
  pub drop_result : ℕ → D → D
  pub drop_transaction : ℕ → D → D
  -- What the formatting of a `database_error` throws: the `odbc_error`, or the encoder's error.
  pub format_error : ℕ → Error

-- nanodbc::date, time, timestamp and timestampoffset.
pub record Date : Type 0 where
  pub year : ℤ
  pub month : ℕ
  pub day : ℕ

pub record Time : Type 0 where
  pub hour : ℤ
  pub min : ℤ
  pub sec : ℤ

pub record Timestamp : Type 0 where
  pub date : Date
  pub time : Time
  pub fract : ℤ

pub record TimestampOffset : Type 0 where
  pub stamp : Timestamp
  pub offset_hour : ℤ
  pub offset_minute : ℤ

-- A double, by what it was computed from: its bits as the driver gave them, R's NA, a count of
-- seconds, one with a number of billionths, or a count of seconds over those of a day.
pub data Double : Type 0 where
  bits : ℕ → Double
  na_real : Double
  seconds : ℤ → Double
  instant : ℤ → ℤ → Double
  days_of : Double → Double

-- The types at which the templates `get<T>` are used, and their values.
pub data CType : Type 0 where
  int_c int64_c double_c string_c timestampoffset_c date_c time_c bytes_c : CType

abbrev pub CValue : CType → Type 0
CValue int_c = ℤ
CValue int64_c = ℤ
CValue double_c = Double
CValue string_c = Text
CValue timestampoffset_c = TimestampOffset
CValue date_c = Date
CValue time_c = Time
CValue bytes_c = List ℕ

-- What is called of nanodbc::result while rows are read, and Rcpp::checkUserInterrupt.
pub record Rows (D : Type 0) : Type 0 where
  pub next : ℕ → D → Reply Bool × D
  pub next_result : ℕ → D → Reply Bool × D
  pub result_columns : ℕ → D → Reply ℕ × D
  pub is_null : ℕ → ℕ → D → Reply Bool × D
  pub fetch_value : (t : CType) → ℕ → ℕ → D → Reply (CValue t) × D
  pub fetch_value_or : (t : CType) → ℕ → ℕ → CValue t → D → Reply (CValue t) × D
  pub check_user_interrupt : D → Reply (Unit {0}) × D
  -- `output_encoder_->makeSEXP`.
  pub make_sexp : Text → D → Reply Text × D
  -- `as_double` of a timestamp and of a date, which go through cctz.
  pub time_of : TimestampOffset → D → Reply Double × D
  pub time_of_date : Date → ℤ
