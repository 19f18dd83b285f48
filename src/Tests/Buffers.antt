-- ===== src/Tests/Buffers.antt =====
-- A driver that keeps which columns are bound, and a result on it.
use odbc.Prelude.{
  ℕ, ◌++◌, ◌∷◌, ◌≡◌, refl, Bool, true, false, Option, none, some, List, [], length, get_elem?, set,
}
use odbc.Prelude.Int.{pos}
use odbc.Outcome.{ok, odbc_error}
use odbc.Nanodbc.{Nanodbc, done}
use odbc.Session.{Session, Object}
use odbc.Connection.{
  text_eq, starts_with, contains, microsoft_sql_server, msodbcsql, get_data_any_order,
}
use odbc.Result.Unbind.{Binding, unbind_if_needed, unbind_if_needed-kept}

abbrev or_unbound : Option Bool → Bool
or_unbound none = false
or_unbound (some b) = b

abbrev buffers : Nanodbc (List Bool)
buffers = record {
  new_statement = λ d. (0, d);
  prepare = λ st sql d. (done tt, d);
  parameters = λ st d. (done 0, d);
  execute_direct = λ st sql d. (done 0, d);
  execute = λ st n d. (done 0, d);
  cancel = λ st d. (done tt, d);
  close = λ st d. (done tt, d);
  columns = λ r d. (done (length d), d);
  affected_rows = λ r d. (done (pos 0), d);
  is_bound = λ r i d. (done (or_unbound (get_elem? d i)), d);
  unbind = λ r i d. (done tt, set d i false);
  new_transaction = λ d. (done 0, d);
  commit = λ t d. (done tt, d);
  rollback = λ t d. (done tt, d);
  txn_capable = λ d. (done 1, d);
  dbms_name = λ d. (done microsoft_sql_server, d);
  driver_name = λ d. (done msodbcsql, d);
  drop_statement = λ st d. d;
  drop_result = λ r d. d;
  drop_transaction = λ t d. d;
  format_error = odbc_error;
}

behind : (xs ys : List Bool) (b : Bool) → get_elem? (xs ++ (b ∷ ys)) (length xs) ≡ some b
behind [] ys b = refl
behind (x ∷ xs) ys b = behind xs ys b

abbrev buffers_binding : Binding buffers 0
buffers_binding = record {
  bound = λ d. d;
  is_bound_done = λ d xs ys b e. (d, rw (e, behind xs ys b), refl);
  unbind_done = λ d i. (set d i false, refl, refl);
}

abbrev fetched : Object
fetched = record {
  statement = some 0;
  result = some 0;
  sql = [];
  rows_fetched = 0;
  num_columns = 3;
  complete = false;
  bound = true;
  immediate = false;
}

abbrev one_object : ℕ → Option Object
one_object p = some fetched

abbrev ordered : Session (List Bool)
ordered = record {
  driver = true ∷ false ∷ true ∷ [];
  transaction = none;
  current_result = some 1;
  objects = one_object;
  interruptible = false;
  notices = [];
}

in_order : get_data_any_order buffers ordered ≡ (ok false, ordered)
unfolding get_data_any_order text_eq contains starts_with
in_order = refl

unbind_if_needed-kept_example :
    (d : List Bool) × (unbind_if_needed buffers 1 ordered ≡ (ok tt, record ordered { driver = d }))
    × (d ≡ true ∷ false ∷ false ∷ [])
unbind_if_needed-kept_example =
    unbind_if_needed-kept buffers_binding 1 ordered ordered fetched in_order refl refl refl
