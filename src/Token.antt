-- ===== src/Token.antt =====
-- `serialize_azure_token`, src/utils.cpp: the access token as the driver wants it.
use odbc.Prelude.{
  ℕ, zero, suc, ◌+◌, ◌*◌, ◌/◌, ◌%◌, ◌^◌, ◌<◌, ◌≡◌, refl, ap, ◌∙◌, List, [], ◌∷◌, ◌++◌, length,
  arith, Option, none, some,
}
use odbc.Nanodbc.{Text}

-- A 32-bit number in a buffer of bytes, on a little-endian machine.
unfoldable pub bytes32 : ℕ → List ℕ
bytes32 n = n % 256 ∷ n / 256 % 256 ∷ n / 65536 % 256 ∷ n / 16777216 % 256 ∷ []

-- The loop: each byte of the token, and a zero behind it.
unfoldable pub widened : Text → List ℕ
widened [] = []
widened (b ∷ token) = b ∷ 0 ∷ widened token

-- `tokenSize` is stored as a `uint32_t`.
unfoldable pub serialize_azure_token : Text → List ℕ
unfolding bytes32 widened
serialize_azure_token token = bytes32 (2 * length token % 2 ^ 32) ++ widened token

-- The structure as its documentation describes it: a size in bytes, and so many bytes, of which
-- every second one is zero.
abbrev read32 : List ℕ → ℕ
read32 (a ∷ b ∷ c ∷ d ∷ rest) = a + 256 * b + 65536 * c + 16777216 * d
read32 _ = 0

abbrev narrowed : ℕ → List ℕ → Option Text
narrowed zero [] = some []
narrowed (suc (suc n)) (b ∷ zero ∷ rest) = elim (narrowed n rest) [
  | none ↦ none
  | some t ↦ some (b ∷ t)
]
narrowed _ _ = none

abbrev body : List ℕ → List ℕ
body (a ∷ b ∷ c ∷ d ∷ rest) = rest
body _ = []

abbrev pub deserialize : List ℕ → Option Text
deserialize buffer = narrowed (read32 buffer) (body buffer)

abbrev double : ℕ → ℕ
double zero = zero
double (suc n) = suc (suc (double n))

double_lem : (n : ℕ) → double n ≡ 2 * n
double_lem zero = refl
double_lem (suc n) = omega (arith, double_lem n)

narrowed-widened : (token : Text) → narrowed (double (length token)) (widened token) ≡ some token
unfolding widened
narrowed-widened [] = refl
narrowed-widened (b ∷ token) = rw (narrowed-widened token)

-- A token whose size fits 32 bits is read back from its structure.
pub deserialize-serialize :
    (token : Text)
    → 2 * length token < 2 ^ 32
    → deserialize (serialize_azure_token token) ≡ some token
unfolding serialize_azure_token
deserialize-serialize token h = ap (λ n. narrowed n (widened token)) size ∙ narrowed-widened token
  where
    size : read32 (serialize_azure_token token) ≡ double (length token)
    size = omega (arith, double_lem (length token))
