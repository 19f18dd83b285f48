-- ===== src/Attributes/Buffers.antt =====
-- What the driver reads from the attributes of a connection.
use odbc.Prelude.{
  ℕ, zero, suc, ◌*◌, ◌^◌, ◌<◌, length, ◌≡◌, refl, subst, sym, Option, none, some, List, [], ◌∷◌,
  ◌++◌, ◌==◌, if◌then◌else◌, arith, append_assoc, append-nil,
}
use odbc.Prelude.Int.{ℤ, pos, negsuc}
use odbc.Nanodbc.{Text}
use odbc.Token.{serialize_azure_token, deserialize, deserialize-serialize}
use odbc.Attributes.{
  Attribute, sql_attr_login_timeout, sql_copt_ss_access_token, sql_sf_conn_attr_priv_key_content,
  sql_sf_conn_attr_priv_key_password, ValueType, sql_is_uinteger, sql_is_pointer, sql_nts, Value,
  number, pointer, Options, Prepared, c_str, push_buffer, push_options, push_timeout,
  prepare_connection_attributes,
}

-- What an attribute says: a number, a text, or an access token.
pub data Content : Type 0 where
  a_number : ℕ → Content
  a_text : Text → Content
  a_token : Text → Content

abbrev pub bytes_at : List (ℕ × List ℕ) → ℕ → Option (List ℕ)
bytes_at [] a = none
bytes_at ((b, bytes) ∷ live) a = if a == b then some bytes else bytes_at live a

-- What the driver reads at the address: for a text, its bytes and a null byte, and nothing after it;
-- for a token, the structure that its documentation describes.
abbrev pub Reads : List (ℕ × List ℕ) → Value → Content → Type 0
Reads live (number n) (a_number m) = n ≡ m
Reads live (pointer a) (a_text s) = bytes_at live a ≡ some (s ++ (0 ∷ []))
Reads live (pointer a) (a_token s) =
    (bytes : List ℕ) × (bytes_at live a ≡ some bytes) × (deserialize bytes ≡ some s)
Reads live v c = ⊥

abbrev pub Wanted : Type 0
Wanted = Attribute × (ValueType × Content)

-- The attributes say what is wanted, one by one.
abbrev pub Says : List (ℕ × List ℕ) → List (Attribute × (ValueType × Value)) → List Wanted → Type 0
Says live [] [] = Unit {0}
Says live [] (w ∷ ws) = ⊥
Says live (x ∷ xs) [] = ⊥
Says live ((a, (t, v)) ∷ xs) ((a', (t', c)) ∷ ws) =
    ((a ≡ a') × (t ≡ t') × Reads live v c) × Says live xs ws

bytes_at-append :
    (live : List (ℕ × List ℕ)) (b a : ℕ) (bytes found : List ℕ)
    → bytes_at live a ≡ some found
    → bytes_at (live ++ ((b, bytes) ∷ [])) a ≡ some found
bytes_at-append [] b a bytes found e = ground arith
bytes_at-append ((b', bytes') ∷ live) b a bytes found e =
    ground (arith, bytes_at-append live b a bytes found)

Reads-append :
    (live : List (ℕ × List ℕ)) (b : ℕ) (bytes : List ℕ) (v : Value) (c : Content)
    → Reads live v c
    → Reads (live ++ ((b, bytes) ∷ [])) v c
Reads-append live b bytes (number n) (a_number m) e = e
Reads-append live b bytes (number n) (a_text s) e = absurd e
Reads-append live b bytes (number n) (a_token s) e = absurd e
Reads-append live b bytes (pointer a) (a_number m) e = absurd e
Reads-append live b bytes (pointer a) (a_text s) e = bytes_at-append live b a bytes _ e
Reads-append live b bytes (pointer a) (a_token s) (found, e, f) =
    (found, bytes_at-append live b a bytes found e, f)

Says-append :
    (live : List (ℕ × List ℕ)) (b : ℕ) (bytes : List ℕ)
    (xs : List (Attribute × (ValueType × Value))) (ws : List Wanted)
    → Says live xs ws
    → Says (live ++ ((b, bytes) ∷ [])) xs ws
Says-append live b bytes [] [] h = h
Says-append live b bytes [] (w ∷ ws) h = h
Says-append live b bytes (x ∷ xs) [] h = h
Says-append live b bytes ((a, (t, v)) ∷ xs) ((a', (t', c)) ∷ ws) ((p, q, e), h) =
    ((p, q, Reads-append live b bytes v c e), Says-append live b bytes xs ws h)

Says-snoc :
    (live : List (ℕ × List ℕ)) (xs : List (Attribute × (ValueType × Value))) (ws : List Wanted)
    (a : Attribute) (t : ValueType) (v : Value) (c : Content)
    → Says live xs ws
    → Reads live v c
    → Says live (xs ++ ((a, (t, v)) ∷ [])) (ws ++ ((a, (t, c)) ∷ []))
Says-snoc live [] [] a t v c h e = ((refl, refl, e), tt)
Says-snoc live [] (w ∷ ws) a t v c h e = absurd h
Says-snoc live (x ∷ xs) [] a t v c h e = absurd h
Says-snoc live ((a₁, (t₁, v₁)) ∷ xs) ((a₂, (t₂, c₂)) ∷ ws) a t v c (g, h) e =
    (g, Says-snoc live xs ws a t v c h e)

bytes_at-fresh :
    (live : List (ℕ × List ℕ)) (a : ℕ) (bytes : List ℕ)
    → bytes_at live a ≡ none
    → bytes_at (live ++ ((a, bytes) ∷ [])) a ≡ some bytes
bytes_at-fresh [] a bytes e = ground arith
bytes_at-fresh ((b, bytes') ∷ live) a bytes e = ground (arith, bytes_at-fresh live a bytes)

-- What an option asks for.
abbrev wants : Attribute → ValueType → (Text → Content) → Option Text → List Wanted
wants a t f none = []
wants a t f (some s) = (a, (t, f s)) ∷ []

abbrev pub wants_timeout : ℤ → List Wanted
wants_timeout (negsuc n) = []
wants_timeout (pos zero) = []
wants_timeout (pos (suc n)) = (sql_attr_login_timeout, (sql_is_uinteger, a_number (suc n))) ∷ []

abbrev pub wants_options : Option Options → List Wanted
wants_options none = []
wants_options (some o) =
    wants sql_copt_ss_access_token sql_is_pointer a_token o.azure_token
    ++ (wants sql_sf_conn_attr_priv_key_content sql_nts a_text o.sf_private_key
        ++ wants sql_sf_conn_attr_priv_key_password sql_nts a_text o.sf_private_key_password)

-- The size of the token's structure fits 32 bits.
abbrev Short : Option Text → Type 0
Short none = Unit {0}
Short (some s) = 2 * length s < 2 ^ 32

abbrev pub ShortToken : Option Options → Type 0
ShortToken none = Unit {0}
ShortToken (some o) = Short o.azure_token

module _ (malloc : List (ℕ × List ℕ) → ℕ)
    (fresh : (live : List (ℕ × List ℕ)) → bytes_at live (malloc live) ≡ none) where
  abbrev Meets : Prepared → List Wanted → Type 0
  Meets p ws = Says p.buffer_context p.attributes ws

  push_buffer-Meets :
      (a : Attribute) (t : ValueType) (f : Text → List ℕ) (g : Text → Content) (o : Option Text)
      (p : Prepared) (ws : List Wanted)
      → ((live : List (ℕ × List ℕ)) (b : ℕ) (s : Text)
          → o ≡ some s
          → bytes_at live b ≡ some (f s)
          → Reads live (pointer b) (g s))
      → Meets p ws
      → Meets (push_buffer malloc a t f o p) (ws ++ wants a t g o)
  unfolding push_buffer
  push_buffer-Meets a t f g none p ws right h = rw (append-nil ws) h
  push_buffer-Meets a t f g (some s) p ws right h =
      let b = malloc p.buffer_context in
      Says-snoc (p.buffer_context ++ ((b, f s) ∷ [])) p.attributes ws a t (pointer b) (g s)
        (Says-append p.buffer_context b (f s) p.attributes ws h)
        (right (p.buffer_context ++ ((b, f s) ∷ [])) b s refl
          (bytes_at-fresh p.buffer_context b (f s) (fresh p.buffer_context)))

  push_options-Meets :
      (o : Option Options) (p : Prepared) (ws : List Wanted)
      → ShortToken o
      → Meets p ws
      → Meets (push_options malloc o p) (ws ++ wants_options o)
  push_options-Meets none p ws short h = rw (append-nil ws) h
  push_options-Meets (some o) p ws short h =
      let token = wants sql_copt_ss_access_token sql_is_pointer a_token o.azure_token in
      let key = wants sql_sf_conn_attr_priv_key_content sql_nts a_text o.sf_private_key in
      let password =
        wants sql_sf_conn_attr_priv_key_password sql_nts a_text o.sf_private_key_password in
      rw (sym (append_assoc ws token (key ++ password))) (
        rw (sym (append_assoc (ws ++ token) key password)) (
          push_buffer-Meets sql_sf_conn_attr_priv_key_password sql_nts c_str a_text
            o.sf_private_key_password _ ((ws ++ token) ++ key) (λ live b s e r. r)
            (push_buffer-Meets sql_sf_conn_attr_priv_key_content sql_nts c_str a_text
              o.sf_private_key _ (ws ++ token) (λ live b s e r. r)
              (push_buffer-Meets sql_copt_ss_access_token sql_is_pointer serialize_azure_token
                a_token o.azure_token p ws
                (λ live b s e r.
                  (serialize_azure_token s, r, deserialize-serialize s (subst Short e short)))
                h))))

  push_timeout-Meets :
      (timeout : ℤ)
      → Meets
          (push_timeout malloc timeout (record { attributes = []; buffer_context = [] }))
          (wants_timeout timeout)
  push_timeout-Meets (negsuc n) = tt
  push_timeout-Meets (pos zero) = tt
  push_timeout-Meets (pos (suc n)) = ((refl, refl, refl), tt)

  -- Where `malloc` returns an address that is not in use and the size of a token fits 32 bits, the
  -- attributes are a positive timeout and the options that are there, in this order, and every
  -- pointer among them is to a buffer that the caller still holds, in which the driver reads the
  -- option: a text and its null byte, or the structure from which the token is read back.
  pub prepare_connection_attributes-Says :
      (timeout : ℤ) (o : Option Options)
      → ShortToken o
      → let p = prepare_connection_attributes malloc timeout o in
        Says p.buffer_context p.attributes (wants_timeout timeout ++ wants_options o)
  unfolding prepare_connection_attributes
  prepare_connection_attributes-Says timeout o short =
      push_options-Meets o _ (wants_timeout timeout) short (push_timeout-Meets timeout)
