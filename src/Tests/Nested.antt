-- ===== src/Tests/Nested.antt =====
-- A data frame in a data frame, on a database whose calls of `bind` fail for raw vectors.
use odbc.Prelude.{ℕ, ◌≡◌, none, some, List, [], ◌∷◌, false, refl}
use odbc.Prelude.Int.{pos}
use odbc.Outcome.{throws, database_error}
use odbc.Nanodbc.{Reply, done, fails}
use odbc.Types.{sql_varchar, dataframe_t, parameter_types}
use odbc.Params.{Binder, Bound, blobs, integers, raws, Params, column, frame, nil, cons, statement}
use odbc.Bind.{Binding, empty_data, own}
use odbc.Bind.Vectors.{bind_vector}
use odbc.Bind.Frames.{bind_all, bind_columns, bind_df, with_table}
use odbc.Bind.Ends.{Settles}
use odbc.Bind.Tables.{Tables, bind_all-Tables}
use odbc.Tests.Bank.{plain}
use odbc.Tests.Database.{zones, memory}

abbrev without_head : List ℕ → List ℕ
without_head [] = []
without_head (p ∷ ps) = ps

abbrev unless_blob : Bound → Reply (Unit {0})
unless_blob (blobs v b) = fails (database_error 1)
unless_blob b = done tt

-- The state is the live tables.
abbrev nesting : Binder (List ℕ)
nesting = record {
  bind = λ obj col b d. (unless_blob b, d);
  parameter_type = λ obj col d. (done sql_varchar, d);
  parameter_scale = λ obj col d. (done 6, d);
  describe_parameters = λ st idx type size scale d. (done tt, d);
  new_table = λ st col n d. (done n, n ∷ d);
  close_table = λ p d. (done tt, d);
  drop_table = λ p d. without_head d;
  check_user_interrupt = λ d. (done tt, d);
}

abbrev nesting_tables : Tables nesting
nesting_tables = record {
  tables = λ d. d;
  new_table_makes = λ st col n d. refl;
  drop_table_ends = λ p ps d e. rw e refl;
  close_table_same = λ p d. refl;
  bind_same = λ obj col b d. refl;
  parameter_type_same = λ obj col d. refl;
  parameter_scale_same = λ obj col d. refl;
}

abbrev outer : Binding (List ℕ)
outer = record {
  session = record {
    driver = 9 ∷ [];
    transaction = none;
    current_result = none;
    objects = λ p. none;
    interruptible = false;
    notices = [];
  };
  buffers = empty_data;
  tvp_buffers = λ i. empty_data;
}

abbrev frames : Params
frames =
    cons
      (frame (
        cons (column (integers (pos 1 ∷ pos 2 ∷ [])) plain)
          (cons (frame (cons (column (raws (some [] ∷ [])) plain) nil)) nil)))
      nil

-- The inner frame's column is refused.
frames_refused :
    (bind_all nesting zones memory 0 7 (statement 7) own (dataframe_t ∷ []) frames 0 0 2 outer).0
    ≡ throws (database_error 1)
unfolding bind_all bind_columns bind_df with_table bind_vector parameter_types
frames_refused = refl

bind_all-Tables_example :
    Settles
      (λ _ s'. s'.session.driver ≡ 9 ∷ [])
      (λ _ s'. s'.session.driver ≡ 9 ∷ [])
      (bind_all nesting zones memory 0 7 (statement 7) own (dataframe_t ∷ []) frames 0 0 2 outer)
bind_all-Tables_example =
    bind_all-Tables nesting_tables zones memory 0 7 (statement 7) own (dataframe_t ∷ []) frames 0 0
      2 outer
