-- ===== src/Entry/Connect/Mappings.antt =====
-- The numbers of the bigint mappings, and what `odbc_connect` makes of them.
use odbc.Prelude.{◌≡◌, refl, Bool, false, not, ◌||◌, List, [], ◌∷◌, ◌==◌, arith}
use odbc.Prelude.Int.{ℤ, pos, negsuc}
use odbc.Nanodbc.{Text}
use odbc.Types.{bigint_type, column_type, sql_bigint}
use odbc.Entry.Connect.{cast_bigint, number_of, bigint_mappings}

abbrev same_number : ℤ → ℤ → Bool
same_number (pos m) (pos n) = m == n
same_number (pos m) (negsuc n) = false
same_number (negsuc m) (pos n) = false
same_number (negsuc m) (negsuc n) = m == n

-- Whether the number has a name.
abbrev pub is_named : ℤ → List (Text × ℤ) → Bool
is_named n [] = false
is_named n ((name, m) ∷ ms) = same_number n m || is_named n ms

-- `odbc_connect` keeps the number of the mapping that it is given, and a column of 64-bit integers
-- is read without the condition for an unknown type exactly for the numbers that `bigint_mappings`
-- names.
pub number_of-cast_bigint :
    (n : ℤ)
    → (number_of (cast_bigint n) ≡ n)
      × ((column_type (cast_bigint n) sql_bigint).1 ≡ not (is_named n bigint_mappings))
unfolding number_of cast_bigint bigint_mappings column_type bigint_type
number_of-cast_bigint (negsuc n) = (refl, refl)
number_of-cast_bigint (pos n) = ground arith
