-- ===== src/Batches.antt =====
-- The batches of `bind_list`, src/odbc_result.cpp: how many rows are bound, in which pieces.
pub mod Cover
use odbc.Prelude.{
  ℕ, zero, suc, ◌+◌, ◌-◌, ◌%◌, ◌^◌, Bool, true, false, List, [], ◌∷◌, ltb, if◌then◌else◌,
}
use odbc.Outcome.{Outcome, ok, throws, crash, out_of_fuel, M, pure, and_then, ◌>>=◌, ◌>>◌}

-- A parameter, as `get_parameter_rows` sees it: a data frame, or a vector and its length.
pub record Extent : Type 0 where
  pub is_frame : Bool
  pub extent : ℕ

-- The length of the first vector; 1 where all parameters are data frames, and 0 where there are
-- none. `nrows` is what the frames before have left in the variable.
unfoldable pub parameter_rows_from : ℕ → List Extent → ℕ
parameter_rows_from nrows [] = nrows
parameter_rows_from nrows (x ∷ xs) =
    let rest = parameter_rows_from 1 xs in if x.is_frame then rest else x.extent

unfoldable pub get_parameter_rows : List Extent → ℕ
unfolding parameter_rows_from
get_parameter_rows xs = parameter_rows_from 0 xs

-- `size_t` addition.
abbrev pub add_size : ℕ → ℕ → ℕ
add_size a b = (a + b) % 2 ^ 64

abbrev pub batch_end : ℕ → ℕ → ℕ → ℕ
batch_end nrows batch_rows start =
    if ltb nrows (add_size start batch_rows) then nrows else add_size start batch_rows

-- `while (start < nrows) { ... start += batch_rows; }`, over what one round does with its start and
-- its size.
unfoldable pub batch_loop {ℓ} :
    {S : Type ℓ} → ℕ → ℕ → ℕ → (ℕ → ℕ → M S (Unit {0})) → ℕ → M S (Unit {0})
batch_loop zero nrows batch_rows round start s = (out_of_fuel, s)
batch_loop (suc fuel) nrows batch_rows round start s =
    let next =
      round start (batch_end nrows batch_rows start - start)
      >> batch_loop fuel nrows batch_rows round (add_size start batch_rows) in
    if ltb start nrows then next s else (ok tt, s)
