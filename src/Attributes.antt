-- ===== src/Attributes.antt =====
-- `prepare_connection_attributes`, src/utils.cpp: the attributes of a connection and the buffers that
-- they point to.
pub mod Buffers
use odbc.Prelude.{
  ℕ, zero, suc, ◌<◌, ◌≡◌, ◌≢◌, refl, sym, Bool, true, false, Option, none, some, List, [], ◌∷◌,
  ◌++◌, map, ◌==◌, if◌then◌else◌, arith, Bool-cases, inl, inr,
}
use odbc.Prelude.Int.{ℤ, pos, negsuc}
use odbc.Nanodbc.{Text}
use odbc.Token.{serialize_azure_token}

-- The attributes and the types of their values.
pub data Attribute : Type 0 where
  sql_attr_login_timeout sql_copt_ss_access_token : Attribute
  sql_sf_conn_attr_priv_key_content sql_sf_conn_attr_priv_key_password : Attribute

pub data ValueType : Type 0 where
  sql_is_uinteger sql_is_pointer sql_nts : ValueType

pub data Value : Type 0 where
  number : ℕ → Value
  pointer : ℕ → Value

-- The named list of R: an element that is absent or NULL is `none`.
pub record Options : Type 0 where
  pub azure_token : Option Text
  pub sf_private_key : Option Text
  pub sf_private_key_password : Option Text

-- `attributes` and `buffer_context`: a buffer is its address and its bytes, and is released where
-- no shared pointer to it is left.
pub record Prepared : Type 0 where
  pub attributes : List (Attribute × (ValueType × Value))
  pub buffer_context : List (ℕ × List ℕ)

-- A text with its null terminator.
abbrev pub c_str : Text → List ℕ
c_str s = s ++ (0 ∷ [])

-- `malloc` is told the buffers that are live.
module _ (malloc : List (ℕ × List ℕ) → ℕ) where
  unfoldable pub push_buffer :
      Attribute → ValueType → (Text → List ℕ) → Option Text → Prepared → Prepared
  push_buffer a t f none p = p
  push_buffer a t f (some s) p =
      let buffer = malloc p.buffer_context in
      record {
        attributes = p.attributes ++ ((a, (t, pointer buffer)) ∷ []);
        buffer_context = p.buffer_context ++ ((buffer, f s) ∷ []);
      }

  abbrev pub push_options : Option Options → Prepared → Prepared
  push_options none p = p
  push_options (some o) p =
      push_buffer sql_sf_conn_attr_priv_key_password sql_nts c_str o.sf_private_key_password (
        push_buffer sql_sf_conn_attr_priv_key_content sql_nts c_str o.sf_private_key (
          push_buffer sql_copt_ss_access_token sql_is_pointer serialize_azure_token o.azure_token
            p))

  -- `if (timeout > 0)`
  abbrev pub push_timeout : ℤ → Prepared → Prepared
  push_timeout (negsuc n) p = p
  push_timeout (pos zero) p = p
  push_timeout (pos (suc n)) p = record p {
    attributes = p.attributes ++ ((sql_attr_login_timeout, (sql_is_uinteger, number (suc n))) ∷ []);
  }

  unfoldable pub prepare_connection_attributes : ℤ → Option Options → Prepared
  prepare_connection_attributes timeout r_attributes =
      push_options r_attributes
        (push_timeout timeout (record { attributes = []; buffer_context = [] }))
