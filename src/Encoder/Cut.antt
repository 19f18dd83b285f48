-- ===== src/Encoder/Cut.antt =====
-- `my_strnlen` against the text up to its first null byte.
use odbc.Prelude.{
  ℕ, suc, ◌+◌, ◌≤◌, ◌<◌, ◌^◌, ◌≡◌, refl, ap, ◌∙◌, inl, inr, Bool, false, ◌||◌, some, List, [], ◌∷◌,
  ◌++◌, ◌==◌, if◌then◌else◌, length, length-append, get_elem?, take, append_assoc, arith,
  Bool-cases,
}
use odbc.Prelude.Int.{pos}
use odbc.Encoder.{strnlen_from, my_strnlen, to_int}

abbrev pub until_nul : List ℕ → List ℕ
until_nul [] = []
until_nul (c ∷ cs) = let rest = c ∷ until_nul cs in if c == 0 then [] else rest

abbrev pub has_nul : List ℕ → Bool
has_nul [] = false
has_nul (c ∷ cs) = c == 0 || has_nul cs

pub has_nul-until_nul : (t : List ℕ) → has_nul (until_nul t) ≡ false
has_nul-until_nul [] = refl
has_nul-until_nul (c ∷ cs) = elim (Bool-cases (c == 0)) [
  | inl e ↦ rw e refl
  | inr e ↦ rw e (rw e (has_nul-until_nul cs))
]

pub length-until_nul : (t : List ℕ) → length (until_nul t) ≤ length t
length-until_nul [] = omega arith
length-until_nul (c ∷ cs) = elim (Bool-cases (c == 0)) [
  | inl e ↦ rw e (omega arith)
  | inr e ↦ rw e (omega (arith, length-until_nul cs))
]

pub take-until_nul : (t rest : List ℕ) → take (length (until_nul t)) (t ++ rest) ≡ until_nul t
take-until_nul [] rest = refl
take-until_nul (c ∷ cs) rest = elim (Bool-cases (c == 0)) [
  | inl e ↦ rw e refl
  | inr e ↦ rw e (ap (λ x. c ∷ x) (take-until_nul cs rest))
]

get_elem?-here :
    (xs : List ℕ) (c : ℕ) (rest : List ℕ) → get_elem? (xs ++ (c ∷ rest)) (length xs) ≡ some c
get_elem?-here [] c rest = refl
get_elem?-here (x ∷ xs) c rest = get_elem?-here xs c rest

step_over :
    (xs : List ℕ) (c : ℕ) (ys : List ℕ) (k n : ℕ)
    → let before = xs ++ (c ∷ []) in
      strnlen_from k (length before) (before ++ ys) ≡ some (length before + n)
      → strnlen_from k (suc (length xs)) (xs ++ (c ∷ ys)) ≡ some (length xs + suc n)
step_over xs c ys k n h =
    rw⁻¹ (moved, append_assoc xs (c ∷ []) ys) (h ∙ ap some (omega (arith, moved)))
  where
    moved : length (xs ++ (c ∷ [])) ≡ suc (length xs)
    moved = omega (arith, length-append xs (c ∷ []))

-- The loop from the place behind `xs` on.
strnlen_from-until_nul :
    (xs t rest : List ℕ)
    → strnlen_from (length t) (length xs) (xs ++ (t ++ rest))
      ≡ some (length xs + length (until_nul t))
unfolding strnlen_from
strnlen_from-until_nul xs [] rest = ap some (omega arith)
strnlen_from-until_nul xs (c ∷ cs) rest =
    rw (strnlen_from, get_elem?-here xs c (cs ++ rest))
      (elim (Bool-cases (c == 0)) [
        | inl e ↦ rw e (ap some (omega arith))
        | inr e ↦ rw e (
            step_over xs c (cs ++ rest) (length cs) (length (until_nul cs))
              (strnlen_from-until_nul (xs ++ (c ∷ [])) cs rest))
      ])

-- The bytes of a text in front of a memory are counted up to the first that is null.
pub my_strnlen-until_nul :
    (t rest : List ℕ) → my_strnlen (t ++ rest) (pos (length t)) ≡ some (pos (length (until_nul t)))
unfolding my_strnlen
my_strnlen-until_nul t rest =
    rw (strnlen_from-until_nul [] t rest) (ap (λ n. some (pos n)) (omega arith))

-- A size below 2^31 is the same as an `int`.
pub to_int-small : (n : ℕ) → n < 2 ^ 31 → to_int n ≡ pos n
to_int-small n h = ground arith
