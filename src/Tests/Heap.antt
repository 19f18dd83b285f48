-- ===== src/Tests/Heap.antt =====
-- An allocator, and the attributes of a connection with a token and a key.
use odbc.Prelude.{ℕ, suc, ◌≤◌, ◌≡◌, refl, max, none, some, List, [], ◌∷◌, ◌++◌, arith, codes}
use odbc.Prelude.Int.{pos}
use odbc.Attributes.{Options, prepare_connection_attributes}
use odbc.Attributes.Buffers.{
  bytes_at, Says, wants_timeout, wants_options, prepare_connection_attributes-Says,
}

abbrev above : List (ℕ × List ℕ) → ℕ
above [] = 0
above ((b, bytes) ∷ live) = suc (max b (above live))

bytes_at-above : (live : List (ℕ × List ℕ)) (a : ℕ) → above live ≤ a → bytes_at live a ≡ none
bytes_at-above [] a h = refl
bytes_at-above ((b, bytes) ∷ live) a h = ground (arith, bytes_at-above live a)

abbrev options : Options
options = record {
  azure_token = some (codes "token");
  sf_private_key = none;
  sf_private_key_password = some (codes "key");
}

prepare_connection_attributes-Says_example :
    let p = prepare_connection_attributes above (pos 10) (some options) in
    Says p.buffer_context p.attributes (wants_timeout (pos 10) ++ wants_options (some options))
prepare_connection_attributes-Says_example =
    prepare_connection_attributes-Says above
      (λ live. bytes_at-above live (above live) (omega arith)) (pos 10) (some options) (omega arith)
