-- ===== src/Fetch/Room.antt =====
-- Vectors of R that grow and shrink: what `length_gets` and `set` keep, and the room left blank.
use odbc.Prelude.{
  ℕ, zero, suc, ◌-◌, ◌≤◌, ◌≡◌, refl, ◌∙◌, ap, Option, none, some, List, [], ◌∷◌, ◌++◌, arith,
  length, set, replicate,
}
use odbc.Types.{
  RType, Storage, int_vector, real_vector, string_vector, list_vector, logical_vector, Reader,
  reader,
}
use odbc.Fetch.{Cell, null, length_gets, allocated, padding}

module _ {A : Type 0} where
  pub set-append : (xs ys : List A) (y v : A) → set (xs ++ (y ∷ ys)) (length xs) v ≡ xs ++ (v ∷ ys)
  set-append [] ys y v = refl
  set-append (x ∷ xs) ys y v = ap (◌∷◌ x) (set-append xs ys y v)

  -- Cut to the length of its first part, a list is that part.
  pub length_gets-append : (pad : A) (xs ys : List A) → length_gets pad (length xs) (xs ++ ys) ≡ xs
  unfolding length_gets
  length_gets-append pad [] ys = refl
  length_gets-append pad (x ∷ xs) ys = ap (◌∷◌ x) (length_gets-append pad xs ys)

  length_gets-nil : (pad : A) (n : ℕ) → length_gets pad n [] ≡ replicate n pad
  unfolding length_gets
  length_gets-nil pad zero = refl
  length_gets-nil pad (suc n) = ap (◌∷◌ pad) (length_gets-nil pad n)

  -- Made longer, a list keeps its elements and is padded.
  pub length_gets-pad :
      (pad : A) (xs : List A) (n : ℕ)
      → length xs ≤ n
      → length_gets pad n xs ≡ xs ++ replicate (n - length xs) pad
  unfolding length_gets
  length_gets-pad pad [] n h = length_gets-nil pad n ∙ ap (λ k. replicate k pad) (omega arith)
  length_gets-pad pad (x ∷ xs) zero h = absurd (omega arith)
  length_gets-pad pad (x ∷ xs) (suc n) h =
      ap (◌∷◌ x)
        (length_gets-pad pad xs n (omega arith) ∙ ap (λ k. xs ++ replicate k pad) (omega arith))

-- Nothing but NULL in a list's free part.
abbrev pub Blank : Storage → List Cell → Type 0
Blank list_vector [] = Unit {0}
Blank list_vector (x ∷ xs) = (x ≡ null) × Blank list_vector xs
Blank _ xs = Unit {0}

pub Blank-replicate : (k : Storage) (n : ℕ) → Blank k (replicate n (allocated k))
Blank-replicate list_vector zero = tt
Blank-replicate list_vector (suc n) = (refl, Blank-replicate list_vector n)
Blank-replicate _ n = tt

pub Blank-pad :
    (k : Storage) (xs : List Cell) (n : ℕ) → Blank k xs → Blank k (xs ++ replicate n (padding k))
Blank-pad list_vector [] n h = Blank-replicate list_vector n
Blank-pad list_vector (x ∷ xs) n h = (h.0, Blank-pad list_vector xs n h.1)
Blank-pad int_vector xs n h = tt
Blank-pad real_vector xs n h = tt
Blank-pad string_vector xs n h = tt
Blank-pad logical_vector xs n h = tt

pub Blank-tail : (k : Storage) (x : Cell) (xs : List Cell) → Blank k (x ∷ xs) → Blank k xs
Blank-tail list_vector x xs h = h.1
Blank-tail _ x xs h = tt

pub Blank-nil : (k : Storage) → Blank k []
Blank-nil list_vector = tt
Blank-nil _ = tt

-- The types that have an `assign_` function.
abbrev pub AllReadable : List RType → Type 0
AllReadable [] = Unit {0}
AllReadable (t ∷ ts) = ((f : Reader) × (reader t ≡ some f)) × AllReadable ts

abbrev pub or_null : Option Cell → Cell
or_null none = null
or_null (some x) = x
