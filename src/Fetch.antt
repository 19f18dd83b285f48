-- ===== src/Fetch.antt =====
-- `result_to_dataframe` of odbc_result, src/odbc_result.cpp, with `nextResultSet`, `safe_get` and
-- the `assign_` functions: from a nanodbc::result to the columns of a data frame.
pub mod Loop
pub mod Contract
pub mod Cells
pub mod Advance
pub mod Room
pub mod Frame
pub mod Held
pub mod Round
pub mod Rounds
pub mod Whole
pub mod Chunks
use odbc.Prelude.{
  ℕ, zero, suc, ◌+◌, ◌-◌, ◌*◌, ◌%◌, ◌^◌, Bool, true, false, not, Option, none, some, List, [], ◌∷◌,
  map, ◌==◌, leb, ltb, if◌then◌else◌, length, set, take, replicate, ◌++◌,
}
use odbc.Prelude.Int.{ℤ, pos, negsuc, is_negative, ◌+ℤ◌, ◌*ℤ◌}
use odbc.Outcome.{Error, Outcome, ok, throws, crash, out_of_fuel, M, pure, ◌>>=◌, ◌>>◌}
use odbc.Nanodbc.{
  Reply, done, fails, Text, Date, Time, TimestampOffset, Double, bits, na_real, seconds, instant,
  days_of, CType, int_c, int64_c, double_c, string_c, timestampoffset_c, date_c, time_c, bytes_c,
  CValue, Rows,
}
use odbc.Types.{
  RType, Storage, RClass, no_class, list_vector, storage, column_class, Reader, reader, assign_date,
  assign_datetime, assign_double, assign_integer, assign_integer64, assign_time, assign_string,
  assign_ustring, assign_logical, assign_raw,
}

-- An element of an R vector. `unset` is what the allocation of an atomic vector leaves, and `na`
-- what `Rf_lengthgets` pads such a vector with; a list has `null` in both places.
pub data Cell : Type 0 where
  unset na null : Cell
  integer : ℤ → Cell
  real : Double → Cell
  text : Option Text → Cell
  bytes : List ℕ → Cell

pub record Column : Type 0 where
  pub kind : Storage
  pub cells : List Cell
  pub class : RClass

-- The members of odbc_result that the loop moves, and the state of nanodbc.
pub record Cursor (D : Type 0) : Type 0 where
  pub driver : D
  pub rows_fetched : ℕ
  pub complete : Bool

-- R's NA_INTEGER and NA_LOGICAL, and NA_INTEGER64 of src/integer64.h.
abbrev pub na_integer : ℤ
na_integer = negsuc (2 ^ 31 - 1)

abbrev pub na_integer64 : ℤ
na_integer64 = negsuc (2 ^ 63 - 1)

abbrev pub allocated : Storage → Cell
allocated list_vector = null
allocated _ = unset

abbrev pub padding : Storage → Cell
padding list_vector = null
padding _ = na

-- `create_dataframe` and `resize_dataframe`, column by column.
unfoldable pub create_column : ℕ → RType → Column
create_column n t = record {
  kind = storage t;
  cells = replicate n (allocated (storage t));
  class = no_class;
}

unfoldable pub create_dataframe : List RType → ℕ → List Column
unfolding create_column
create_dataframe ts n = map (create_column n) ts

-- `Rf_lengthgets`
unfoldable pub length_gets : {A : Type 0} → A → ℕ → List A → List A
length_gets pad zero xs = []
length_gets pad (suc n) [] = pad ∷ length_gets pad n []
length_gets pad (suc n) (x ∷ xs) = x ∷ length_gets pad n xs

unfoldable pub resize_column : ℕ → Column → Column
unfolding length_gets
resize_column n c = record c { cells = length_gets (padding c.kind) n c.cells }

unfoldable pub resize_dataframe : ℕ → List Column → List Column
unfolding resize_column
resize_dataframe n = map (resize_column n)

unfoldable pub add_classes : List Column → List RType → List Column
add_classes [] ts = []
add_classes (c ∷ cs) [] = c ∷ cs
add_classes (c ∷ cs) (t ∷ ts) = record c { class = column_class t } ∷ add_classes cs ts

module _ {D : Type 0} where
  abbrev pub answer {ℓ} : {A : Type ℓ} → Cursor D → Reply A × D → Outcome A × Cursor D
  answer c (done a, d) = (ok a, record c { driver = d })
  answer c (fails e, d) = (throws e, record c { driver = d })

  abbrev pub call {ℓ} : {A : Type ℓ} → (D → Reply A × D) → M (Cursor D) A
  call f c = answer c (f c.driver)

  abbrev pub set_complete : Bool → M (Cursor D) (Unit {0})
  set_complete b c = (ok tt, record c { complete = b })

unfoldable pub time_cell : Option Time → Cell
time_cell none = real na_real
time_cell (some t) = real (seconds (t.hour *ℤ 3600 +ℤ t.min *ℤ 60 +ℤ t.sec))

module _ {D : Type 0} (rows : Rows D) (r : ℕ) where
  unfoldable pub safe_get : (t : CType) → ℕ → CValue t → M (Cursor D) (CValue t)
  safe_get t col fallback = do
    res ← call (rows.fetch_value_or t r col fallback)
    missing ← call (rows.is_null r col)
    pure (if missing then fallback else res)

  -- Where the null flag is set only by the attempt to get the value, it is asked twice.
  unfoldable pub get_unless_null : (t : CType) → ℕ → M (Cursor D) (Option (CValue t))
  get_unless_null t col = do
    missing ← call (rows.is_null r col)
    if missing then pure none else do
      v ← call (rows.fetch_value t r col)
      missing' ← call (rows.is_null r col)
      pure (if missing' then none else some v)

  unfoldable pub date_cell : Option Date → Cell
  date_cell none = real (days_of na_real)
  date_cell (some d) = real (days_of (seconds (rows.time_of_date d)))

  unfoldable pub datetime_cell : Option TimestampOffset → M (Cursor D) Cell
  datetime_cell none = pure (real na_real)
  datetime_cell (some ts) = do x ← call (rows.time_of ts); pure (real x)

  unfoldable pub encoded_cell : Option Text → M (Cursor D) Cell
  encoded_cell none = pure (text none)
  encoded_cell (some s) = do x ← call (rows.make_sexp s); pure (text (some x))

  unfoldable pub raw_cell : Option (List ℕ) → Option Cell
  raw_cell none = none
  raw_cell (some b) = some (bytes b)

  -- What an `assign_` function writes; `none` if it leaves the element as it is.
  unfoldable pub read_cell : Reader → ℕ → M (Cursor D) (Option Cell)
  unfolding safe_get get_unless_null time_cell date_cell datetime_cell encoded_cell raw_cell
  read_cell assign_integer col = do v ← safe_get int_c col na_integer; pure (some (integer v))
  read_cell assign_integer64 col = do v ← safe_get int64_c col na_integer64; pure (some (integer v))
  read_cell assign_double col = do v ← safe_get double_c col na_real; pure (some (real v))
  read_cell assign_logical col = do v ← safe_get int_c col na_integer; pure (some (integer v))
  read_cell assign_string col = do
    v ← get_unless_null string_c col
    x ← encoded_cell v
    pure (some x)
  read_cell assign_ustring col = do v ← get_unless_null string_c col; pure (some (text v))
  read_cell assign_datetime col = do
    v ← get_unless_null timestampoffset_c col
    x ← datetime_cell v
    pure (some x)
  read_cell assign_date col = do v ← get_unless_null date_c col; pure (some (date_cell v))
  read_cell assign_time col = do v ← get_unless_null time_c col; pure (some (time_cell v))
  read_cell assign_raw col = do v ← get_unless_null bytes_c col; pure (raw_cell v)

  abbrev pub write_cell : Option Cell → ℕ → Column → Column
  write_cell none row c = c
  write_cell (some x) row c = record c { cells = set c.cells row x }

  -- The switch over the types, whose default does nothing but `signal_unknown_field_type`.
  unfoldable pub assign_by : Option Reader → ℕ → ℕ → Column → M (Cursor D) Column
  assign_by none col row c = pure c
  assign_by (some f) col row c = do x ← read_cell f col; pure (write_cell x row c)

  unfoldable pub assign : RType → ℕ → ℕ → Column → M (Cursor D) Column
  unfolding assign_by
  assign t col row c = assign_by (reader t) col row c

  -- The loop over the columns of one row.
  unfoldable pub assign_row : List RType → ℕ → ℕ → List Column → M (Cursor D) (List Column)
  assign_row [] col row out = pure out
  assign_row (t ∷ ts) col row [] = pure []
  assign_row (t ∷ ts) col row (c ∷ cs) = do
    c' ← assign t col row c
    cs' ← assign_row ts (col + 1) row cs
    pure (c' ∷ cs')
