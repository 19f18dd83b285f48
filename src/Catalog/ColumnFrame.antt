-- ===== src/Catalog/ColumnFrame.antt =====
-- The data frame of `connection_sql_columns`.
use odbc.Prelude.{
  ℕ, ◌<◌, ◌≡◌, refl, ◌∙◌, Option, List, [], ◌∷◌, ◌++◌, map, append_assoc, append-nil, length, codes,
  ap,
}
use odbc.Prelude.Int.{ℤ}
use odbc.Outcome.{M, Sat, bind-Sat, pure, ◌>>=◌}
use odbc.Nanodbc.{done, Text}
use odbc.Session.{Session, call}
use odbc.Catalog.{
  DataFrame, text_vector, number_vector, bool_vector, create_columns, Catalog, ColumnText,
  ColumnNumber, column_name, in_table, in_schema, in_catalog, data_type, type_name, column_size,
  buffer_length, decimal_digits, numeric_precision_radix, nullable, remarks, column_default,
  sql_data_type, sql_datetime_subtype, char_octet_length, ordinal_position, Columns, no_columns,
  push_back, to_bool, while_next, push_column, connection_sql_columns,
}
use odbc.Catalog.Rows.{Listing, ColumnRow, At, Reads, read_then, push_rows, while_next_lem}

-- The vectors: the cells of one column of the rows each.
abbrev column_frame : List ColumnRow → Columns
column_frame rs = record {
  column_names = map (λ r. r.texts column_name) rs;
  table_names = map (λ r. r.texts in_table) rs;
  schema_names = map (λ r. r.texts in_schema) rs;
  catalog_names = map (λ r. r.texts in_catalog) rs;
  data_type = map (λ r. r.numbers data_type) rs;
  type_name = map (λ r. r.texts type_name) rs;
  column_size = map (λ r. r.numbers column_size) rs;
  buffer_length = map (λ r. r.numbers buffer_length) rs;
  decimal_digits = map (λ r. r.numbers decimal_digits) rs;
  numeric_precision_radix = map (λ r. r.numbers numeric_precision_radix) rs;
  nullable = map (λ r. to_bool (r.numbers nullable)) rs;
  remarks = map (λ r. r.texts remarks) rs;
  column_default = map (λ r. r.texts column_default) rs;
  sql_data_type = map (λ r. r.numbers sql_data_type) rs;
  sql_datetime_subtype = map (λ r. r.numbers sql_datetime_subtype) rs;
  char_octet_length = map (λ r. r.numbers char_octet_length) rs;
  ordinal_position = map (λ r. r.numbers ordinal_position) rs;
}

-- The data frame of the rows: under each name, the cells of that column of the result.
abbrev pub column_data : List ColumnRow → DataFrame
column_data rs =
    (codes "name", text_vector (map (λ r. r.texts column_name) rs))
    ∷ (codes "field.type", text_vector (map (λ r. r.texts type_name) rs))
    ∷ (codes "table_name", text_vector (map (λ r. r.texts in_table) rs))
    ∷ (codes "schema_name", text_vector (map (λ r. r.texts in_schema) rs))
    ∷ (codes "catalog_name", text_vector (map (λ r. r.texts in_catalog) rs))
    ∷ (codes "data_type", number_vector (map (λ r. r.numbers data_type) rs))
    ∷ (codes "column_size", number_vector (map (λ r. r.numbers column_size) rs))
    ∷ (codes "buffer_length", number_vector (map (λ r. r.numbers buffer_length) rs))
    ∷ (codes "decimal_digits", number_vector (map (λ r. r.numbers decimal_digits) rs))
    ∷ (
      codes "numeric_precision_radix",
      number_vector (map (λ r. r.numbers numeric_precision_radix) rs),
    )
    ∷ (codes "remarks", text_vector (map (λ r. r.texts remarks) rs))
    ∷ (codes "column_default", text_vector (map (λ r. r.texts column_default) rs))
    ∷ (codes "sql_data_type", number_vector (map (λ r. r.numbers sql_data_type) rs))
    ∷ (codes "sql_datetime_subtype", number_vector (map (λ r. r.numbers sql_datetime_subtype) rs))
    ∷ (codes "char_octet_length", number_vector (map (λ r. r.numbers char_octet_length) rs))
    ∷ (codes "ordinal_position", number_vector (map (λ r. r.numbers ordinal_position) rs))
    ∷ (codes "nullable", bool_vector (map (λ r. to_bool (r.numbers nullable)) rs))
    ∷ []

abbrev push_column_row : Columns → ColumnRow → Columns
push_column_row v r = record {
  column_names = push_back v.column_names (r.texts column_name);
  table_names = push_back v.table_names (r.texts in_table);
  schema_names = push_back v.schema_names (r.texts in_schema);
  catalog_names = push_back v.catalog_names (r.texts in_catalog);
  data_type = push_back v.data_type (r.numbers data_type);
  type_name = push_back v.type_name (r.texts type_name);
  column_size = push_back v.column_size (r.numbers column_size);
  buffer_length = push_back v.buffer_length (r.numbers buffer_length);
  decimal_digits = push_back v.decimal_digits (r.numbers decimal_digits);
  numeric_precision_radix = push_back v.numeric_precision_radix (r.numbers numeric_precision_radix);
  nullable = push_back v.nullable (to_bool (r.numbers nullable));
  remarks = push_back v.remarks (r.texts remarks);
  column_default = push_back v.column_default (r.texts column_default);
  sql_data_type = push_back v.sql_data_type (r.numbers sql_data_type);
  sql_datetime_subtype = push_back v.sql_datetime_subtype (r.numbers sql_datetime_subtype);
  char_octet_length = push_back v.char_octet_length (r.numbers char_octet_length);
  ordinal_position = push_back v.ordinal_position (r.numbers ordinal_position);
}

abbrev append_columns : Columns → Columns → Columns
append_columns v w = record {
  column_names = v.column_names ++ w.column_names;
  table_names = v.table_names ++ w.table_names;
  schema_names = v.schema_names ++ w.schema_names;
  catalog_names = v.catalog_names ++ w.catalog_names;
  data_type = v.data_type ++ w.data_type;
  type_name = v.type_name ++ w.type_name;
  column_size = v.column_size ++ w.column_size;
  buffer_length = v.buffer_length ++ w.buffer_length;
  decimal_digits = v.decimal_digits ++ w.decimal_digits;
  numeric_precision_radix = v.numeric_precision_radix ++ w.numeric_precision_radix;
  nullable = v.nullable ++ w.nullable;
  remarks = v.remarks ++ w.remarks;
  column_default = v.column_default ++ w.column_default;
  sql_data_type = v.sql_data_type ++ w.sql_data_type;
  sql_datetime_subtype = v.sql_datetime_subtype ++ w.sql_datetime_subtype;
  char_octet_length = v.char_octet_length ++ w.char_octet_length;
  ordinal_position = v.ordinal_position ++ w.ordinal_position;
}

push_rows-append :
    (v : Columns) (rs : List ColumnRow)
    → push_rows push_column_row v rs ≡ append_columns v (column_frame rs)
push_rows-append v [] = simp append-nil refl
push_rows-append v (r ∷ rs) = push_rows-append (push_column_row v r) rs ∙ simp append_assoc refl

-- The cells of the current row are read by their names.
abbrev pub ReadsCells : {D : Type 0} (c : Catalog D) (h : ℕ) → Listing c h ColumnRow → Type 0
ReadsCells c h l =
    ((t : ColumnText) → Reads l (c.column_text t h) (λ r. r.texts t))
    × ((n : ColumnNumber) → Reads l (c.column_number n h) (λ r. r.numbers n))

module _ {D : Type 0} (c : Catalog D) (h : ℕ) (l : Listing c h ColumnRow)
    (reads : ReadsCells c h l) where
  abbrev Pushed : Columns → ColumnRow → List ColumnRow → Columns → Session D → Type 0
  Pushed v r rs v' s = (v' ≡ push_column_row v r) × (l.rows s.driver ≡ rs)

  push_column_lem :
      (v : Columns) (r : ColumnRow) (rs : List ColumnRow) (s : Session D)
      → At l r rs s
      → Sat (Pushed v r rs) (λ _ _. ⊥) (push_column c h v s)
  unfolding push_column
  push_column_lem v r rs = text column_name _ (
      text in_table _ (
        text in_schema _ (
          text in_catalog _ (
            number data_type _ (
              text type_name _ (
                number column_size _ (
                  number buffer_length _ (
                    number decimal_digits _ (
                      number numeric_precision_radix _ (
                        number nullable _ (
                          text remarks _ (
                            text column_default _ (
                              number sql_data_type _ (
                                number sql_datetime_subtype _ (
                                  number char_octet_length _ (
                                    number ordinal_position _
                                      (λ s' at. (refl, at.1))))))))))))))))))
    where
      text :
          (t : ColumnText) (rest : Text → M (Session D) Columns)
          → ((s : Session D) → At l r rs s → Sat (Pushed v r rs) (λ _ _. ⊥) (rest (r.texts t) s))
          → (s : Session D) → At l r rs s
          → Sat (Pushed v r rs) (λ _ _. ⊥) ((call (c.column_text t h) >>= rest) s)
      text t rest k =
          read_then l (c.column_text t h) (λ r. r.texts t) r rs (Pushed v r rs) rest (reads.0 t) k

      number :
          (n : ColumnNumber) (rest : ℤ → M (Session D) Columns)
          → ((s : Session D) → At l r rs s → Sat (Pushed v r rs) (λ _ _. ⊥) (rest (r.numbers n) s))
          → (s : Session D) → At l r rs s
          → Sat (Pushed v r rs) (λ _ _. ⊥) ((call (c.column_number n h) >>= rest) s)
      number n rest k =
          read_then l (c.column_number n h) (λ r. r.numbers n) r rs (Pushed v r rs) rest (reads.1 n)
            k

module _ {D : Type 0} (c : Catalog D) (column catalog schema table : Option Text)
    (s : Session D) where
  -- Where the catalog finds the columns asked for, `connection_sql_columns` returns them, given fuel
  -- for one round more than there are rows: the data frame has the seventeen columns and names
  -- of `column_data`, each with the cells of the result's column, all of them and in order; `nullable` says which of
  -- its cells are not 0.
  pub connection_sql_columns_lem :
      (h : ℕ) (d : D) (l : Listing c h ColumnRow)
      → ReadsCells c h l
      → c.find_columns column table schema catalog s.driver ≡ (done h, d)
      → (fuel : ℕ) → length (l.rows d) < fuel
      → Sat
          (λ v _. v ≡ column_data (l.rows d))
          (λ _ _. ⊥)
          (connection_sql_columns c fuel column catalog schema table s)
  unfolding connection_sql_columns create_columns
  connection_sql_columns_lem h d l reads found fuel enough = rw found (
      bind-Sat (λ v _. v ≡ push_rows push_column_row no_columns (l.rows d))
        (λ v _. v ≡ column_data (l.rows d)) (λ _ _. ⊥)
        (while_next c h (push_column c h) fuel no_columns) (λ v. pure (create_columns v))
        (record s { driver = d })
        (while_next_lem l (push_column c h) push_column_row (push_column_lem c h l reads) fuel
          no_columns (l.rows d) (record s { driver = d }) refl enough)
        (λ v s' e. ap create_columns (e ∙ push_rows-append no_columns (l.rows d))))
