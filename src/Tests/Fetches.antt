-- ===== src/Tests/Fetches.antt =====
-- Fetches from rows in memory.
use odbc.Prelude.{◌++◌, ◌≡◌, refl, inl, true, false, none, some, List, [], ◌∷◌, arith}
use odbc.Prelude.Int.{pos, negsuc}
use odbc.Outcome.{Sat}
use odbc.Types.{RType, integer_t, string_t, assign_integer, assign_string, reader}
use odbc.Fetch.{Cursor}
use odbc.Fetch.Held.{AllHold}
use odbc.Fetch.Advance.{Reads}
use odbc.Fetch.Loop.{result_to_dataframe}
use odbc.Fetch.Chunks.{in_two, in_two-AllHold}
use odbc.Fetch.Whole.{result_to_dataframe-AllHold}
use odbc.Tests.Drivers.{Row, Reading, at_view, memory, memory_contract}

abbrev first : Row
first = some 1 ∷ none ∷ []

abbrev second : Row
second = none ∷ some 2 ∷ []

abbrev third : Row
third = some 3 ∷ some 4 ∷ []

-- Three rows in two result sets, between which there is one without columns.
abbrev before : Cursor Reading
before = record {
  driver = at_view (record {
    current = none;
    pending = first ∷ [];
    later = (0, []) ∷ (2, second ∷ third ∷ []) ∷ [];
    width = 2;
  });
  rows_fetched = 0;
  complete = false;
}

abbrev columns : List RType
columns = integer_t ∷ string_t ∷ []

result_to_dataframe-AllHold_example :
    Sat
      (λ out c'.
        AllHold memory_contract columns 0 (first ∷ second ∷ []) out
        × Reads memory_contract (third ∷ []) c'
        × (c'.rows_fetched ≡ 2))
      (λ _ _. ⊥)
      (result_to_dataframe memory 0 9 columns (pos 2) before)
unfolding reader
result_to_dataframe-AllHold_example =
    result_to_dataframe-AllHold memory_contract columns
      ((assign_integer, refl), ((assign_string, refl), tt)) (first ∷ second ∷ third ∷ []) 9 (pos 2)
      before (inl (refl, refl)) (omega arith) (omega arith) (λ _. omega arith)

in_two-AllHold_example :
    Sat
      (λ out c'.
        AllHold memory_contract columns 0 (first ∷ second ∷ []) out.0
        × AllHold memory_contract columns 0 (third ∷ []) out.1
        × ((first ∷ second ∷ []) ++ (third ∷ []) ≡ first ∷ second ∷ third ∷ [])
        × (c'.complete ≡ true)
        × (c'.rows_fetched ≡ 3))
      (λ _ _. ⊥)
      (in_two memory 0 9 columns 2 before)
    × Sat
        (λ out c'.
          AllHold memory_contract columns 0 ((first ∷ second ∷ []) ++ (third ∷ [])) out
          × (c'.complete ≡ true)
          × (c'.rows_fetched ≡ 3))
        (λ _ _. ⊥)
        (result_to_dataframe memory 0 9 columns (negsuc 0) before)
unfolding reader
in_two-AllHold_example =
    in_two-AllHold memory_contract columns ((assign_integer, refl), ((assign_string, refl), tt))
      (first ∷ second ∷ third ∷ []) 9 2 before (inl (refl, refl)) (omega arith) (omega arith)
      (omega arith) (omega arith)
