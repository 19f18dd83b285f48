-- ===== src/Tests/Catalogs.antt =====
-- A catalog whose rows are in memory: the state holds the current row and those ahead.
use odbc.Prelude.{◌≡◌, refl, ap, Bool, true, false, Option, none, some, List, [], ◌∷◌, codes, arith}
use odbc.Prelude.Int.{pos}
use odbc.Outcome.{Sat}
use odbc.Nanodbc.{Reply, done, fails, Text}
use odbc.Outcome.{other_error}
use odbc.Session.{Session}
use odbc.Catalog.{Catalog, TableText, table_name, connection_sql_tables, connection_sql_columns}
use odbc.Catalog.Rows.{Listing, TableRow, ColumnRow, Reads}
use odbc.Catalog.TableFrame.{table_data, connection_sql_tables_lem}
use odbc.Catalog.ColumnFrame.{column_data, connection_sql_columns_lem}

record Memory (Row : Type 0) : Type 0 where
  current : Option Row
  ahead : List Row

abbrev move : {Row : Type 0} → Option Row → List Row → Reply Bool × Memory Row
move c [] = (done false, record { current = c; ahead = [] })
move c (r ∷ rs) = (done true, record { current = some r; ahead = rs })

abbrev cell_of : {Row A : Type 0} → Option Row → (Row → A) → Reply A
cell_of none f = fails (other_error 0)
cell_of (some r) f = done (f r)

module _ {Row : Type 0} (texts : Row → TableText → Text) (column : Row → ColumnRow) where
  abbrev in_memory : Catalog (Memory Row)
  in_memory = record {
    find_tables = λ table type schema catalog d. (done 0, d);
    find_columns = λ column table schema catalog d. (done 0, d);
    next_row = λ h d. move d.current d.ahead;
    table_text = λ t h d. (cell_of d.current (λ r. texts r t), d);
    column_text = λ t h d. (cell_of d.current (λ r. (column r).texts t), d);
    column_number = λ n h d. (cell_of d.current (λ r. (column r).numbers n), d);
    list_catalogs = λ d. (done [], d);
    list_schemas = λ d. (done [], d);
    list_table_types = λ d. (done [], d);
  }

  abbrev listing : Listing in_memory 0 Row
  listing = record {
    rows = λ d. d.ahead;
    current = λ d. d.current;
    next_none = λ d e. rw e (record { current = d.current; ahead = [] }, refl);
    next_some = λ d r rs e. rw e (record { current = some r; ahead = rs }, refl, refl, refl);
  }

  cell-Reads : {A : Type 0} (f : Row → A) → Reads listing (λ d. (cell_of d.current f, d)) f
  cell-Reads f d r e = (d, ap (λ c. (cell_of c f, d)) e, e, refl)

abbrev no_column : ColumnRow
no_column = record { texts = λ t. []; numbers = λ n. pos 0 }

abbrev no_text : ColumnRow → TableText → Text
no_text r t = []

abbrev table_cells : Text → TableRow
table_cells name table_name = name
table_cells name t = codes "x"

abbrev tables : Catalog (Memory TableRow)
tables = in_memory (λ r. r) (λ r. no_column)

abbrev columns : Catalog (Memory ColumnRow)
columns = in_memory no_text (λ r. r)

abbrev session : {D : Type 0} → D → Session D
session d = record {
  driver = d;
  transaction = none;
  current_result = none;
  objects = λ p. none;
  interruptible = false;
  notices = [];
}

abbrev two_tables : Memory TableRow
two_tables = record {
  current = none;
  ahead = table_cells (codes "cars") ∷ table_cells (codes "iris") ∷ [];
}

connection_sql_tables_lem_example :
    Sat
      (λ v _. v ≡ table_data two_tables.ahead)
      (λ _ _. ⊥)
      (connection_sql_tables tables 3 none none none none (session two_tables))
connection_sql_tables_lem_example =
    connection_sql_tables_lem tables none none none none (session two_tables) 0 two_tables
      (listing (λ r. r) (λ r. no_column)) (λ t. cell-Reads (λ r. r) (λ r. no_column) (λ r. r t))
      refl 3 (omega arith)

abbrev one_column : Memory ColumnRow
one_column = record {
  current = none;
  ahead = record { texts = λ t. codes "speed"; numbers = λ n. pos 8 } ∷ [];
}

connection_sql_columns_lem_example :
    Sat
      (λ v _. v ≡ column_data one_column.ahead)
      (λ _ _. ⊥)
      (connection_sql_columns columns 2 none none none none (session one_column))
connection_sql_columns_lem_example =
    connection_sql_columns_lem columns none none none none (session one_column) 0 one_column
      (listing no_text (λ r. r))
      (
        λ t. cell-Reads no_text (λ r. r) (λ r. r.texts t),
        λ n. cell-Reads no_text (λ r. r) (λ r. r.numbers n),
      )
      refl 2 (omega arith)
