-- ===== src/Message.antt =====
-- The message of `odbc_error`, src/odbc_result.h, through the encoder of the connection.
use odbc.Prelude.{
  ℕ, ◌+◌, ◌<◌, ◌^◌, ◌≡◌, refl, ap, true, some, [], ◌∷◌, ◌++◌, codes, length, length-append,
  if◌then◌else◌, arith,
}
use odbc.Outcome.{M, pure, ◌>>=◌, Sat, bind-Sat}
use odbc.Nanodbc.{Text}
use odbc.Connection.{text_eq}
use odbc.Encoder.{Coding, Iconv, make_sexp}
use odbc.Encoder.Cut.{until_nul}
use odbc.Encoder.Meaning.{Copies, Converts, text, Rejected, make_sexp_lem}

-- `e.what()`, and the statement in a line of its own if there is one.
unfoldable pub error_text : Text → Text → Text
error_text what sql =
    if text_eq sql [] then what else what ++ ((10 ∷ codes "<SQL> '") ++ (sql ++ codes "'"))

module _ {D : Type 0} (coding : Coding D) (translate_char : Text → Text) where
  -- The constructor of `odbc_error`: the message, by `Rf_translateChar`. Where the encoder stops, the
  -- stop leaves in place of the `odbc_error`.
  unfoldable pub make_odbc_error : Text → Text → M (Iconv D) Text
  make_odbc_error what sql = do
    m ← make_sexp coding (error_text what sql) true
    pure (translate_char m)

-- The message that a reader is to see: what the database said, and in a line of its own the
-- statement in quotes, unless it is empty.
abbrev pub message : Text → Text → Text
message what [] = what
message what (c ∷ sql) = what ++ ((10 ∷ codes "<SQL> '") ++ (((c ∷ sql) ++ (39 ∷ []))))

error_text-message : (what sql : Text) → error_text what sql ≡ message what sql
unfolding error_text text_eq
error_text-message what [] = refl
error_text-message what (c ∷ sql) = refl

message-bound : (what sql : Text) → length (message what sql) < length what + length sql + 10
message-bound what [] = omega arith
message-bound what (c ∷ sql) =
    rw
      (
        length-append what ((10 ∷ codes "<SQL> '") ++ ((c ∷ sql) ++ (39 ∷ []))),
        length-append (10 ∷ codes "<SQL> '") ((c ∷ sql) ++ (39 ∷ [])),
        length-append (c ∷ sql) (39 ∷ []),
      )
      (omega arith)

module _ {D : Type 0} (coding : Coding D) (cd : ℕ) (converts : Converts coding cd) where
  -- Through a descriptor whose conversion behaves as documented, where R copies bytes without a null
  -- and the database's message and the statement have less than 2^28 bytes together, `odbc_error` is
  -- made with the conversion of `message`, which has both, up to its first null byte, as R translates
  -- it. Where there is no conversion, the encoder's stop leaves in place of the error, and
  -- what the database said is lost.
  pub make_odbc_error_lem :
      (copies : Copies coding) (translate_char : Text → Text) (what sql : Text) (s : Iconv D)
      → s.cd ≡ some cd
      → length what + length sql < 2 ^ 28
      → Sat
          (λ m _.
            (t : Text) × (converts.meaning (message what sql) ≡ text t)
            × (m ≡ translate_char (until_nul t)))
          (λ e _. Rejected coding cd converts (message what sql) e)
          (make_odbc_error coding translate_char what sql s)
  unfolding make_odbc_error
  make_odbc_error_lem copies translate_char what sql s opened small =
      rw (error_text-message what sql) (
        bind-Sat
          (λ x _. (t : Text) × (converts.meaning (message what sql) ≡ text t) × (x ≡ until_nul t))
          (λ m _.
            (t : Text) × (converts.meaning (message what sql) ≡ text t)
            × (m ≡ translate_char (until_nul t)))
          (λ e _. Rejected coding cd converts (message what sql) e)
          (make_sexp coding (message what sql) true) (λ m. pure (translate_char m)) s
          (make_sexp_lem coding cd converts copies (message what sql) s opened
            (omega (arith, message-bound what sql, small)))
          (λ x _ (t, e, f). (t, e, ap translate_char f)))
