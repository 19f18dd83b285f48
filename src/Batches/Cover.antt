-- ===== src/Batches/Cover.antt =====
-- The batches cover the rows, in order and once each.
use odbc.Prelude.{
  ℕ, zero, suc, ◌+◌, ◌-◌, ◌^◌, ◌≤◌, ◌<◌, min, ◌≡◌, refl, sym, ◌∙◌, ap, ap₂, List, [], ◌∷◌, ◌++◌,
  ltb, arith, take, drop, length, length-drop, pick_then, pick_else,
}
use mathlib.Core.Path.{fun_ext}
use odbc.Outcome.{ok, M, pure, ◌>>◌}
use odbc.Batches.{add_size, batch_loop}

module _ {ℓ} {A : Type ℓ} where
  -- The elements that a batch binds.
  abbrev pub slice : ℕ → ℕ → List A → List A
  slice start size xs = take size (drop start xs)

  -- The batches, one after the other.
  abbrev pub pieces : List (ℕ × ℕ) → List A → List A
  pieces [] xs = []
  pieces ((start, size) ∷ bs) xs = slice start size xs ++ pieces bs xs

-- The rounds, as starts and sizes without overflow: `rest` rows from `start` on.
abbrev pub rounds : ℕ → ℕ → ℕ → ℕ → List (ℕ × ℕ)
rounds zero batch_rows start rest = []
rounds (suc fuel) batch_rows start zero = []
rounds (suc fuel) batch_rows start (suc rest) =
    (start, min batch_rows (suc rest))
    ∷ rounds fuel batch_rows (start + batch_rows) (suc rest - batch_rows)

abbrev pub for_each {ℓ} : {S : Type ℓ} → (ℕ → ℕ → M S (Unit {0})) → List (ℕ × ℕ) → M S (Unit {0})
for_each round [] = pure tt
for_each round ((start, size) ∷ bs) = round start size >> for_each round bs

module _ {S : Type 0} (round : ℕ → ℕ → M S (Unit {0})) (nrows batch_rows : ℕ) where
  loop_from :
      (fuel start rest : ℕ) (s : S)
      → 0 < batch_rows
      → nrows ≤ 2 ^ 63
      → batch_rows < 2 ^ 64
      → rest ≡ nrows - start
      → rest < fuel
      → (start < nrows → start + batch_rows < 2 ^ 64)
      → batch_loop fuel nrows batch_rows round start s
        ≡ for_each round (rounds fuel batch_rows start rest) s
  unfolding batch_loop
  loop_from zero start rest s b n w e f g = absurd (omega arith)
  loop_from (suc fuel) start zero s b n w e f g =
      pick_else (λ z. z ≡ (ok tt, s)) (ltb start nrows) _ _ (ground arith) refl
  loop_from (suc fuel) start (suc rest) s b n w e f g =
      pick_then (λ z. z ≡ for_each round (rounds (suc fuel) batch_rows start (suc rest)) s)
        (ltb start nrows) _ _ (ground arith)
        (ap₂ (λ size k. (round start size >> k) s) (ground arith)
          (fun_ext λ s'.
            ap (λ p. batch_loop fuel nrows batch_rows round p s') no_wrap
            ∙ loop_from fuel (start + batch_rows) (suc rest - batch_rows) s' b n w (omega arith)
                (omega arith) (λ h. omega arith)))
    where
      no_wrap : add_size start batch_rows ≡ start + batch_rows
      no_wrap = let bound : start + batch_rows < 2 ^ 64 = g (omega arith) in omega arith

  -- With a positive batch size and one unit of fuel more than rows, the loop of `bind_list` ends,
  -- no sum of sizes wraps around, and the rounds are those of the batches in order.
  pub batch_loop-rounds :
      (s : S)
      → 0 < batch_rows
      → nrows ≤ 2 ^ 63
      → batch_rows < 2 ^ 64
      → batch_loop (suc nrows) nrows batch_rows round 0 s
        ≡ for_each round (rounds (suc nrows) batch_rows 0 nrows) s
  batch_loop-rounds s b n w =
      loop_from (suc nrows) 0 nrows s b n w (omega arith) (omega arith) (λ h. omega arith)

module _ {ℓ} {A : Type ℓ} where
  drop-nil : (n : ℕ) → drop {A = A} n [] ≡ []
  drop-nil zero = refl
  drop-nil (suc n) = refl

  take-nil : (n : ℕ) → take {A = A} n [] ≡ []
  take-nil zero = refl
  take-nil (suc n) = refl

  drop-drop : (m n : ℕ) (xs : List A) → drop n (drop m xs) ≡ drop (m + n) xs
  drop-drop zero n xs = let e : n ≡ zero + n = omega arith in ap (λ p. drop p xs) e
  drop-drop (suc m) n [] = drop-nil n ∙ sym (drop-nil (suc m + n))
  drop-drop (suc m) n (x ∷ xs) =
      let e : suc (m + n) ≡ suc m + n = omega arith in
      drop-drop m n xs ∙ ap (λ p. drop p (x ∷ xs)) e

  drop-all : (n : ℕ) (xs : List A) → length xs ≤ n → drop n xs ≡ []
  drop-all n [] h = drop-nil n
  drop-all zero (x ∷ xs) h = absurd (omega arith)
  drop-all (suc n) (x ∷ xs) h = drop-all n xs (omega arith)

  take_min-drop : (b : ℕ) (ys : List A) → take (min b (length ys)) ys ++ drop b ys ≡ ys
  take_min-drop b [] = ap₂ ◌++◌ (take-nil (min b 0)) (drop-nil b)
  take_min-drop zero (y ∷ ys) =
      let e : min zero (suc (length ys)) ≡ zero = omega arith in
      ap (λ k. take k (y ∷ ys) ++ (y ∷ ys)) e
  take_min-drop (suc b) (y ∷ ys) =
      let e : min (suc b) (suc (length ys)) ≡ suc (min b (length ys)) = omega arith in
      ap (λ k. take k (y ∷ ys) ++ drop b ys) e ∙ ap (◌∷◌ y) (take_min-drop b ys)

  pieces-from :
      (fuel b start rest : ℕ) (xs : List A)
      → 0 < b
      → rest ≡ length xs - start
      → rest < fuel
      → pieces (rounds fuel b start rest) xs ≡ drop start xs
  pieces-from zero b start rest xs p e f = absurd (omega arith)
  pieces-from (suc fuel) b start zero xs p e f = sym (drop-all start xs (omega arith))
  pieces-from (suc fuel) b start (suc rest) xs p e f =
      ap (λ t. slice start (min b (suc rest)) xs ++ t)
        (pieces-from fuel b (start + b) (suc rest - b) xs p (omega arith) (omega arith)
          ∙ sym (drop-drop start b xs))
      ∙ ap (λ n. take (min b n) (drop start xs) ++ drop b (drop start xs))
          (e ∙ sym (length-drop start xs))
      ∙ take_min-drop b (drop start xs)

  -- The batches of a vector, one after the other, are the vector: no row is bound twice or left out.
  pub pieces-rounds :
      (b : ℕ) (xs : List A) → 0 < b → pieces (rounds (suc (length xs)) b 0 (length xs)) xs ≡ xs
  pieces-rounds b xs p =
      pieces-from (suc (length xs)) b 0 (length xs) xs p (omega arith) (omega arith)

-- With a positive batch size the loop of `bind_list` ends, within one unit of fuel more than rows,
-- and makes the rounds of a list of batches in order; and the batches of any vector of that many
-- rows, one after the other, are the vector: no row is bound twice or left out.
pub batch_loop-covers :
    {S A : Type 0} (round : ℕ → ℕ → M S (Unit {0})) (xs : List A) (b : ℕ) (s : S)
    → 0 < b
    → b < 2 ^ 64
    → length xs ≤ 2 ^ 63
    → (batch_loop (suc (length xs)) (length xs) b round 0 s
        ≡ for_each round (rounds (suc (length xs)) b 0 (length xs)) s)
      × (pieces (rounds (suc (length xs)) b 0 (length xs)) xs ≡ xs)
batch_loop-covers round xs b s p w n =
    (batch_loop-rounds round (length xs) b s p n w, pieces-rounds b xs p)
