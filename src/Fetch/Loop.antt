-- ===== src/Fetch/Loop.antt =====
-- The loop over the rows of `result_to_dataframe`, and `nextResultSet`.
use odbc.Prelude.{
  ℕ, zero, suc, ◌+◌, ◌*◌, ◌%◌, ◌^◌, Bool, true, false, not, ◌&&◌, List, ◌==◌, leb, ltb,
  if◌then◌else◌,
}
use odbc.Prelude.Int.{ℤ, is_negative, pos_part}
use odbc.Outcome.{ok, crash, out_of_fuel, M, pure, ◌>>=◌, ◌>>◌}
use odbc.Nanodbc.{Rows}
use odbc.Types.{RType}
use odbc.Fetch.{
  Column, Cursor, create_dataframe, resize_dataframe, add_classes, call, set_complete, assign_row,
}

-- The local variables of the loop.
pub record Loop : Type 0 where
  pub row : ℕ
  pub n : ℕ
  pub out : List Column

-- The room for one more row: doubled where the number of rows was not limited.
abbrev pub grow : Loop → Loop
grow v =
    if leb v.n v.row then record v { n = v.n * 2; out = resize_dataframe (v.n * 2) v.out } else v

-- `n *= 2` of an `int`, which is undefined behaviour from 2 ^ 31 on; `row` is counted up below `n` only.
abbrev pub overflows : Loop → Bool
overflows v = leb v.n v.row && leb (2 ^ 31) (v.n * 2)

abbrev pub is_full : ℤ → Loop → Bool
is_full n_max v = leb v.n v.row && not (is_negative n_max)

abbrev pub initial_size : ℤ → ℕ
initial_size n_max = if is_negative n_max then 100 else pos_part n_max

abbrev pub trim : Loop → List Column
trim v = if ltb v.row v.n then resize_dataframe v.row v.out else v.out

module _ {D : Type 0} (rows : Rows D) (r : ℕ) where
  -- `while (r.next_result()) if (r.columns() && r.next()) return true; return false;`
  unfoldable pub next_result_set : ℕ → M (Cursor D) Bool
  next_result_set zero c = (out_of_fuel, c)
  next_result_set (suc fuel) c =
      (do
        more ← call (rows.next_result r)
        if more
            then (do
              k ← call (rows.result_columns r)
              any ← (if k == 0 then pure false else call (rows.next r))
              if any then pure true else next_result_set fuel)
            else pure false)
        c

  -- `complete_ = !r.next() && !nextResultSet(r);`, before the first row.
  unfoldable pub first_row : ℕ → M (Cursor D) (Unit {0})
  first_row fuel = do
    any ← call (rows.next r)
    if any then set_complete false else (do more ← next_result_set fuel; set_complete (not more))

  abbrev pub count_row : M (Cursor D) ℕ
  count_row c = (ok (c.rows_fetched + 1), record c { rows_fetched = c.rows_fetched + 1 })

  -- After a row: the next row, the counters, a look for interrupts, and the next result set.
  unfoldable pub advance : ℕ → M (Cursor D) (Unit {0})
  advance fuel = do
    any ← call (rows.next r)
    set_complete (not any)
    k ← count_row
    (if k % 16384 == 0 then call rows.check_user_interrupt else pure tt)
    if any then pure tt else (do more ← next_result_set fuel; set_complete (not more))

  unfoldable pub one_row : ℕ → List RType → Loop → M (Cursor D) Loop
  one_row fuel types v = do
    out ← assign_row rows r types 0 v.row v.out
    advance fuel
    pure (record v { row = v.row + 1; out = out })

  unfoldable pub fetch_loop : ℕ → List RType → ℤ → Loop → M (Cursor D) Loop
  fetch_loop zero types n_max v c = (out_of_fuel, c)
  fetch_loop (suc fuel) types n_max v c =
      let next = one_row (suc fuel) types (grow v) >>= fetch_loop fuel types n_max in
      if c.complete
      then (ok v, c)
      else if is_full n_max v
      then (ok v, c)
      else if overflows v
      then (crash, c)
      else next c

  unfoldable pub start : ℕ → ℕ → M (Cursor D) (Unit {0})
  unfolding first_row
  start fuel n c = (if c.rows_fetched == 0 && ltb 0 n then first_row fuel else pure tt) c

  -- `result_to_dataframe(r, n_max)`, for the types of the columns of `r`.
  unfoldable pub result_to_dataframe : ℕ → List RType → ℤ → M (Cursor D) (List Column)
  unfolding start
  result_to_dataframe fuel types n_max = do
    let n = initial_size n_max
    start fuel n
    v ← fetch_loop fuel types n_max (record { row = 0; n = n; out = create_dataframe types n })
    pure (add_classes (trim v) types)
