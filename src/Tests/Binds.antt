-- ===== src/Tests/Binds.antt =====
-- Parameters that are bound on the database of the tests.
use odbc.Prelude.{
  ℕ, ◌≡◌, refl, true, false, Option, none, some, List, [], ◌∷◌, ◌++◌, arith, map, take, drop,
}
use odbc.Prelude.Int.{ℤ, pos, ◌*ℤ◌}
use odbc.Outcome.{Sat}
use odbc.Session.{Object}
use odbc.Types.{RType, integer_t, string_t, datetime_double_t, datetime_int_t, parameter_types}
use odbc.Params.{
  Vector, integers, strings, doubles, na_number, billionths, Class, Param, column, nil, cons,
  statement,
}
use odbc.Bind.{Binding, own, empty_data}
use odbc.Bind.Vectors.{bind_vector}
use odbc.Bind.Meaning.{meaning, stamp_value}
use odbc.Bind.Contract.{Entry, Binds}
use odbc.Bind.Instants.{zone_info}
use odbc.Bind.Faithful.{bind_vector-Binds}
use odbc.Bind.Rounds.{bind_list}
use odbc.Bind.Whole.{Batched}
use odbc.Bind.Refines.{around, IsBound, bind_list-Executes}
use odbc.Bind.Hazards.{int_datetime-na}
use odbc.Clock.{scrubbed}
use odbc.Fetch.{na_integer}
use odbc.Tests.Database.{Base, binder, binder_contract, database, database_executes, zones, memory}

abbrev prepared : Object
prepared = record {
  statement = some 7;
  result = none;
  sql = [];
  rows_fetched = 4;
  num_columns = 0;
  complete = true;
  bound = false;
  immediate = false;
}

abbrev alone : ℕ → Option Object
alone p = some prepared

abbrev started : Binding Base
started = record {
  session = record {
    driver = record { bound = λ t i. none; log = [] };
    transaction = none;
    current_result = some 1;
    objects = alone;
    interruptible = false;
    notices = [];
  };
  buffers = empty_data;
  tvp_buffers = λ i. empty_data;
}

abbrev plain : Class
plain = record { is_date = false; is_posixct = false; is_difftime = false; tzone = none }

abbrev in_zone : Class
in_zone = record plain { is_posixct = true; tzone = some [] }

abbrev instants : Vector
instants = doubles (billionths (pos 1500000000) ∷ na_number ∷ billionths (pos 0) ∷ [])

bind_vector-Binds_example :
    Sat
      (λ _ s'.
        Binds binder_contract
          (statement 7)
          own
          0
          (take 2 (
            drop 1 (
              meaning zones
                (zone_info zones 0 in_zone (binder_contract.sql_type (statement 7) 0))
                (scrubbed (binder_contract.scale (statement 7) 0))
                datetime_double_t
                instants)))
          started
          s')
      (λ _ _. ⊥)
      (bind_vector binder zones memory 0
        (statement 7)
        own
        datetime_double_t
        instants
        in_zone
        0
        1
        2
        started)
bind_vector-Binds_example =
    bind_vector-Binds binder_contract zones memory 0 (statement 7) own datetime_double_t instants
      in_zone 0 1 2 started tt (omega arith) (refl, refl, refl, refl, refl, refl)

abbrev numbers : Param
numbers = column (integers (pos 1 ∷ na_integer ∷ pos 3 ∷ [])) plain

abbrev names : Param
names = column (strings (some [] ∷ some (65 ∷ []) ∷ none ∷ [])) plain

abbrev two_types : List RType
two_types = integer_t ∷ string_t ∷ []

bind_list-Executes_example :
    Sat
      (λ _ s'.
        (es : List Entry) × Batched database_executes zones memory 0 1 3 2 two_types
          (cons numbers (cons names nil))
          es
        × (s'.session.driver.log ≡ [] ++ around true es)
        × IsBound 1 s'.session)
      (λ _ _. ⊥)
      (bind_list database binder zones memory 0 1 4 (cons numbers (cons names nil)) true 2 started)
unfolding parameter_types
bind_list-Executes_example =
    bind_list-Executes database_executes zones memory 0 1 3 2 two_types numbers (cons names nil)
      true started prepared (tt, refl, (tt, refl, tt)) (omega arith) (omega arith) (omega arith)
      refl refl refl refl

int_datetime-na_example :
    Sat
      (λ _ s'.
        Binds binder_contract
          (statement 7)
          own
          0
          (map
            (λ (n : ℤ). stamp_value zones true 6 1 (billionths (n *ℤ 1000000000)))
            (na_integer ∷ []))
          started
          s')
      (λ _ _. ⊥)
      (bind_vector binder zones memory 0
        (statement 7)
        own
        datetime_int_t
        (integers (na_integer ∷ []))
        in_zone
        0
        0
        1
        started)
unfolding scrubbed
int_datetime-na_example =
    int_datetime-na binder_contract zones memory 0 (statement 7) (na_integer ∷ []) in_zone 0 0 1
      started (omega arith) (refl, refl, refl, refl, refl, refl)
