-- ===== src/Tests/Calls.antt =====
-- A result is made, interrupted and fetched from, and the user commits and destroys it.
use odbc.Prelude.{ℕ, refl, ◌≡◌, inr, true, false, none, [], ◌∷◌}
use odbc.Prelude.Int.{pos, negsuc}
use odbc.Nanodbc.{done, fails, Rows, seconds}
use odbc.Outcome.{other_error}
use odbc.Types.{sql_varchar, i64_to_integer64}
use odbc.Session.{Session}
use odbc.Result.{new_result, destroy, let_go, free}
use odbc.Result.Safety.{IsSafe}
use odbc.Result.Fetches.{Headers}
use odbc.Result.Reach.{
  Reach, here, then_step, new_at, bind_list_at, fetch_from, begin_one, commit_one, destroy_at,
  reach-IsSafe,
}
use odbc.Connection.{
  begin, commit, set_current_result, is_current_result, cancel_current_result, cancel_through,
}
use odbc.Result.Fetches.{fetch}
use odbc.Tests.Drivers.{quiet}
use odbc.Tests.Results.{busy, executed, schedule}
use odbc.Params.{Binder, Params, column, nil, cons, doubles, na_number, billionths, Class}
use odbc.Bind.{Binding, empty_data}
use odbc.Bind.Rounds.{bind_list}
use odbc.Tests.Database.{zones, memory}

abbrev pub headers : Headers ℕ
headers = record {
  column_datatype = λ r i d. (done sql_varchar, d);
  column_name = λ r i d. (done [], d);
  make_string = λ t d. (done t, d);
}

abbrev pub empty : Rows ℕ
empty = record {
  next = λ r d. (done false, d);
  next_result = λ r d. (done false, d);
  result_columns = λ r d. (done 0, d);
  is_null = λ r i d. (done true, d);
  fetch_value = λ t r i d. (fails (other_error 0), d);
  fetch_value_or = λ t r i v d. (done v, d);
  check_user_interrupt = λ d. (done tt, d);
  make_sexp = λ t d. (done t, d);
  time_of = λ t d. (done (seconds (pos 0)), d);
  time_of_date = λ d. pos 0;
}

-- The first result is destroyed, another is made, bound and fetched from, in a transaction.
abbrev destroyed : Session ℕ
destroyed = (destroy quiet 1 busy).1

abbrev begun : Session ℕ
begun = (begin quiet destroyed).1

abbrev made : Session ℕ
made = (new_result quiet 2 [] false schedule begun).1

abbrev binder : Binder ℕ
binder = record {
  bind = λ obj col b d. (done tt, d);
  parameter_type = λ obj col d. (fails (other_error 0), d);
  parameter_scale = λ obj col d. (done 6, d);
  describe_parameters = λ st idx type size scale d. (done tt, d);
  new_table = λ st col n d. (done 0, d);
  close_table = λ p d. (done tt, d);
  drop_table = λ p d. d;
  check_user_interrupt = λ d. (done tt, d);
}

abbrev instant_class : Class
instant_class = record { is_date = false; is_posixct = true; is_difftime = false; tzone = none }

-- A column of two time stamps, whose type the driver does not know.
abbrev stamps : Params
stamps = cons (column (doubles (billionths (pos 0) ∷ na_number ∷ [])) instant_class) nil

abbrev buffered : Binding ℕ
buffered = record { session = made; buffers = empty_data; tvp_buffers = λ i. empty_data }

abbrev bound : Session ℕ
bound = (bind_list quiet binder zones memory 0 2 5 stamps true 2 buffered).1.session

abbrev fetched : Session ℕ
fetched = (fetch quiet empty headers i64_to_integer64 5 2 (negsuc 0) bound).1

free_address : begun.objects 2 ≡ none
unfolding begin destroy let_go free set_current_result is_current_result cancel_current_result
    cancel_through
free_address = refl

reach : Reach quiet empty headers i64_to_integer64 busy (commit quiet fetched).1
reach =
    then_step
      (then_step
        (then_step
          (then_step (then_step (then_step here (destroy_at 1 executed refl)) begin_one)
            (new_at 2 [] false schedule free_address tt))
          (bind_list_at binder zones memory 0 2 5 stamps true 2 buffered))
        (fetch_from 5 2 (negsuc 0)))
      commit_one

reach-IsSafe_example : IsSafe (commit quiet fetched).1
reach-IsSafe_example =
    reach-IsSafe quiet empty headers i64_to_integer64 (λ st d. (d, refl)) reach
      (inr (1, refl, (executed, 5, refl, refl)))
