-- ===== src/Catalog/TableFrame.antt =====
-- The data frames of a catalog: a column of R for each column of the result.
use odbc.Prelude.{
  ℕ, ◌<◌, ◌≡◌, refl, ◌∙◌, Option, List, [], ◌∷◌, ◌++◌, map, append_assoc, append-nil, length, codes,
  ap,
}
use odbc.Outcome.{M, Sat, bind-Sat, pure, ◌>>=◌}
use odbc.Nanodbc.{done, Text}
use odbc.Session.{Session, call}
use odbc.Catalog.{
  DataFrame, text_vector, create_tables, Catalog, TableText, table_name, table_type, table_schema,
  table_remarks, table_catalog, Tables, no_tables, push_back, while_next, push_table,
  connection_sql_tables,
}
use odbc.Catalog.Rows.{Listing, TableRow, At, Reads, read_then, push_rows, while_next_lem}

-- The vectors: the cells of one column of the rows each.
abbrev table_frame : List TableRow → Tables
table_frame rs = record {
  names = map (λ r. r table_name) rs;
  types = map (λ r. r table_type) rs;
  schemas = map (λ r. r table_schema) rs;
  remarks = map (λ r. r table_remarks) rs;
  catalog = map (λ r. r table_catalog) rs;
}

-- The data frame of the rows: under each name, the cells of that column of the result.
abbrev pub table_data : List TableRow → DataFrame
table_data rs =
    (codes "table_catalog", text_vector (map (λ r. r table_catalog) rs))
    ∷ (codes "table_schema", text_vector (map (λ r. r table_schema) rs))
    ∷ (codes "table_name", text_vector (map (λ r. r table_name) rs))
    ∷ (codes "table_type", text_vector (map (λ r. r table_type) rs))
    ∷ (codes "table_remarks", text_vector (map (λ r. r table_remarks) rs))
    ∷ []

abbrev push_table_row : Tables → TableRow → Tables
push_table_row v r = record {
  names = push_back v.names (r table_name);
  types = push_back v.types (r table_type);
  schemas = push_back v.schemas (r table_schema);
  remarks = push_back v.remarks (r table_remarks);
  catalog = push_back v.catalog (r table_catalog);
}

abbrev append_tables : Tables → Tables → Tables
append_tables v w = record {
  names = v.names ++ w.names;
  types = v.types ++ w.types;
  schemas = v.schemas ++ w.schemas;
  remarks = v.remarks ++ w.remarks;
  catalog = v.catalog ++ w.catalog;
}

push_rows-append :
    (v : Tables) (rs : List TableRow)
    → push_rows push_table_row v rs ≡ append_tables v (table_frame rs)
push_rows-append v [] = simp append-nil refl
push_rows-append v (r ∷ rs) = push_rows-append (push_table_row v r) rs ∙ simp append_assoc refl

module _ {D : Type 0} (c : Catalog D) (h : ℕ) (l : Listing c h TableRow)
    (reads : (t : TableText) → Reads l (c.table_text t h) (λ r. r t)) where
  abbrev Pushed : Tables → TableRow → List TableRow → Tables → Session D → Type 0
  Pushed v r rs v' s = (v' ≡ push_table_row v r) × (l.rows s.driver ≡ rs)

  push_table_lem :
      (v : Tables) (r : TableRow) (rs : List TableRow) (s : Session D)
      → At l r rs s
      → Sat (Pushed v r rs) (λ _ _. ⊥) (push_table c h v s)
  unfolding push_table
  push_table_lem v r rs = cell table_name _ (
      cell table_type _
        (cell table_schema _ (cell table_remarks _ (cell table_catalog _ (λ s' at. (refl, at.1))))))
    where
      cell :
          (t : TableText) (rest : Text → M (Session D) Tables)
          → ((s : Session D) → At l r rs s → Sat (Pushed v r rs) (λ _ _. ⊥) (rest (r t) s))
          → (s : Session D) → At l r rs s
          → Sat (Pushed v r rs) (λ _ _. ⊥) ((call (c.table_text t h) >>= rest) s)
      cell t rest k =
          read_then l (c.table_text t h) (λ r. r t) r rs (Pushed v r rs) rest (reads t) k

module _ {D : Type 0} (c : Catalog D) (catalog schema table type : Option Text)
    (s : Session D) where
  -- Where the catalog finds the tables asked for, `connection_sql_tables` returns them, given fuel
  -- for one round more than there are rows: the data frame
  -- has the columns and names of `table_data`, each with the cells of the result's column, all of them
  -- and in order.
  pub connection_sql_tables_lem :
      (h : ℕ) (d : D) (l : Listing c h TableRow)
      → ((t : TableText) → Reads l (c.table_text t h) (λ r. r t))
      → c.find_tables table type schema catalog s.driver ≡ (done h, d)
      → (fuel : ℕ) → length (l.rows d) < fuel
      → Sat
          (λ v _. v ≡ table_data (l.rows d))
          (λ _ _. ⊥)
          (connection_sql_tables c fuel catalog schema table type s)
  unfolding connection_sql_tables create_tables
  connection_sql_tables_lem h d l reads found fuel enough = rw found (
      bind-Sat (λ v _. v ≡ push_rows push_table_row no_tables (l.rows d))
        (λ v _. v ≡ table_data (l.rows d)) (λ _ _. ⊥)
        (while_next c h (push_table c h) fuel no_tables) (λ v. pure (create_tables v))
        (record s { driver = d })
        (while_next_lem l (push_table c h) push_table_row (push_table_lem c h l reads) fuel
          no_tables (l.rows d) (record s { driver = d }) refl enough)
        (λ v s' e. ap create_tables (e ∙ push_rows-append no_tables (l.rows d))))
