-- ===== src/Tests/Encoders.antt =====
-- A conversion that marks every byte, and an encoder that converts nothing.
use odbc.Prelude.{
  ℕ, ◌+◌, ◌*◌, ◌-◌, ◌≤◌, ◌≡◌, refl, ap, inr, true, none, some, List, [], ◌∷◌, ◌++◌, length, take,
  arith, codes,
}
use odbc.Outcome.{Sat, pure, ◌>>=◌, ◌>>◌}
use odbc.Prelude.Int.{ℤ, pos, negsuc}
use odbc.Nanodbc.{done, Text}
use odbc.Encoder.{Coding, Iconv, descriptor, make_sexp, new_iconv, make_string, delete_iconv}
use odbc.Encoder.Cut.{until_nul}
use odbc.Message.{message, make_odbc_error, make_odbc_error_lem}
use odbc.Encoder.Meaning.{Meaning, text, Converts, Rejected, make_sexp_lem, unconverted_lem}

-- A mark in front of each byte, so that a text of n bytes becomes one of 2 n.
abbrev marked : Text → Text
marked [] = []
marked (c ∷ cs) = 195 ∷ c ∷ marked cs

length-marked : (t : Text) → length (marked t) ≤ length t * 4
length-marked [] = omega arith
length-marked (c ∷ cs) = omega (arith, length-marked cs)

abbrev text_of : Meaning → Text
text_of (text t) = t
text_of m = []

abbrev copied : List ℕ → ℤ → Text
copied start (pos n) = take n start
copied start (negsuc n) = []

abbrev marking : Coding ℕ
marking = record {
  open_descriptor = λ to from d. (descriptor d, d + 1);
  riconv = λ cd source buffer room d. (
    record {
      failed = none;
      buffer = marked source ++ [];
      outbytesleft = room - length (marked source);
    },
    d,
  );
  close_descriptor = λ cd d. d;
  mk_char = λ start n d. (done (copied start n), d);
}

abbrev converts : Converts marking 7
converts = record {
  meaning = λ source. text (marked source);
  fits = λ source t e. rw⁻¹ (ap text_of e) (length-marked source);
  riconv_text = λ source t buffer room d e fits big. (
    d,
    [],
    ap (λ x. (record { failed = none; buffer = x ++ []; outbytesleft = room - length x }, d))
        (ap text_of e),
  );
  riconv_error = λ source e buffer room d h big. absurd (ground (arith, h));
}

abbrev encoder : Iconv ℕ
encoder = record { driver = 8; cd = some 7; buffer = [] }

make_sexp_lem_example :
    Sat
      (λ x _. (t : Text) × (text (marked (codes "abc")) ≡ text t) × (x ≡ until_nul t))
      (λ e _. Rejected marking 7 converts (codes "abc") e)
      (make_sexp marking (codes "abc") true encoder)
make_sexp_lem_example =
    make_sexp_lem marking 7 converts (λ start n d h e. (d, refl)) (codes "abc") encoder refl
      (omega arith)

unconverted_lem_example :
    Sat
      (λ t s'. (t ≡ codes "abc") × (s'.driver ≡ 8))
      (λ _ _. ⊥)
      ((new_iconv marking (codes "UTF-8") (codes "UTF-8")
          >> (make_string marking (codes "abc") >>= λ t. delete_iconv marking >> pure t))
        encoder)
unconverted_lem_example =
    unconverted_lem marking (codes "UTF-8") (codes "UTF-8") (codes "abc") encoder (inr refl)

make_odbc_error_lem_example :
    Sat
      (λ m _.
        (t : Text) × (text (marked (message (codes "no such table") (codes "SELECT 1"))) ≡ text t)
        × (m ≡ until_nul t))
      (λ e _. Rejected marking 7 converts (message (codes "no such table") (codes "SELECT 1")) e)
      (make_odbc_error marking (λ t. t) (codes "no such table") (codes "SELECT 1") encoder)
make_odbc_error_lem_example =
    make_odbc_error_lem marking 7 converts (λ start n d h e. (d, refl)) (λ t. t)
      (codes "no such table") (codes "SELECT 1") encoder refl (omega arith)
