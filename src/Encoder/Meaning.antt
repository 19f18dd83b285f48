-- ===== src/Encoder/Meaning.antt =====
-- What `makeSEXP` makes of a text, where the conversion of R behaves as documented.
use odbc.Prelude.{
  ℕ, ◌*◌, ◌-◌, ◌%◌, ◌^◌, ◌≤◌, ◌<◌, ◌≡◌, refl, ap, ◌∙◌, ◌⊎◌, inl, inr, true, false, ◌||◌, Option,
  none, some, List, [], ◌∷◌, ◌++◌, ltb, if◌then◌else◌, length, length-append, take, replicate,
  length-replicate, arith, Bool-cases,
}
use odbc.Prelude.Int.{pos}
use odbc.Outcome.{
  Error, r_stop, invalid_multibyte, incomplete_multibyte, Sat, Sat-mono, bind-Sat, ◌>>=◌, ◌>>◌,
  pure,
}
use odbc.Nanodbc.{done, Text}
use odbc.Connection.{text_eq}
use odbc.Encoder.{
  Coding, Iconv, Converted, Errno, eilseq, einval, resize, stop_of, to_int, to_size, convert,
  safe_make_char, make_sexp, new_iconv, make_string, delete_iconv,
}
use odbc.Encoder.Cut.{
  until_nul, has_nul, has_nul-until_nul, length-until_nul, take-until_nul, my_strnlen-until_nul,
  to_int-small,
}

-- What a descriptor makes of a text.
pub data Meaning : Type 0 where
  text : Text → Meaning
  invalid incomplete : Meaning

abbrev errno_of : Meaning → Option Errno
errno_of (text t) = none
errno_of invalid = some eilseq
errno_of incomplete = some einval

-- What iconv documents of a conversion: the converted bytes, where there is room for them, are at
-- the front of the buffer, and `outbytesleft` is reduced by their number; or the error is told. And
-- what the code says of it: a byte never becomes more than four.
pub record Converts {D : Type 0} (coding : Coding D) (cd : ℕ) : Type 0 where
  pub meaning : Text → Meaning
  pub fits : (source t : Text) → meaning source ≡ text t → length t ≤ length source * 4
  pub riconv_text :
      (source t : Text) (buffer : List ℕ) (room : ℕ) (d : D)
      → meaning source ≡ text t
      → length t ≤ room
      → room ≤ length buffer
      → (d' : D) × (rest : List ℕ) × (coding.riconv cd source buffer room d
          ≡ (record { failed = none; buffer = t ++ rest; outbytesleft = room - length t }, d'))
  pub riconv_error :
      (source : Text) (e : Errno) (buffer : List ℕ) (room : ℕ) (d : D)
      → errno_of (meaning source) ≡ some e
      → room ≤ length buffer
      → (x : Converted) × (d' : D) × (coding.riconv cd source buffer room d ≡ (x, d'))
        × (x.failed ≡ some e)

-- `Rf_mkCharLenCE` copies bytes without a null.
abbrev pub Copies : {D : Type 0} → Coding D → Type 0
Copies {D} coding =
    (start : List ℕ) (n : ℕ) (d : D)
    → n ≤ length start
    → has_nul (take n start) ≡ false
    → (d' : D) × (coding.mk_char start (pos n) d ≡ (done (take n start), d'))

module _ {D : Type 0} (coding : Coding D) (copies : Copies coding) where
  -- A text at the front of a memory, up to its first null.
  safe_make_char_lem :
      (start : List ℕ) (k : ℕ) (t rest : Text) (s : Iconv D)
      → start ≡ t ++ rest
      → k ≡ length t
      → length t < 2 ^ 31
      → Sat (λ x _. x ≡ until_nul t) (λ _ _. ⊥) (safe_make_char coding start k true s)
  unfolding safe_make_char
  safe_make_char_lem start k t rest s e f small =
      let n = length (until_nul t) in
      let within : n ≤ length (t ++ rest) =
        omega (arith, length-until_nul t, length-append t rest) in
      let x =
        copies (t ++ rest) n s.driver within
          (ap has_nul (take-until_nul t rest) ∙ has_nul-until_nul t) in
      rw (e, f, to_int-small (length t) small, my_strnlen-until_nul t rest, x.1)
        (take-until_nul t rest)

module _ {D : Type 0} (coding : Coding D) (cd : ℕ) (converts : Converts coding cd) where
  grown :
      (n : ℕ) (buffer : List ℕ)
      → n ≤ length (if ltb (length buffer) n then resize n buffer else buffer)
  grown n buffer = elim (Bool-cases (ltb (length buffer) n)) [
    | inl e ↦ rw e (
        omega (
          arith,
          length-append buffer (replicate (n - length buffer) 0),
          length-replicate {A = ℕ} (n - length buffer) 0,
        ))
    | inr e ↦ rw e (ground arith)
  ]

  -- The error of a text that has no conversion.
  abbrev pub Rejected : Text → Error → Type 0
  Rejected source e =
      ((converts.meaning source ≡ invalid) × (e ≡ r_stop invalid_multibyte))
      ⊎ ((converts.meaning source ≡ incomplete) × (e ≡ r_stop incomplete_multibyte))

  meaning-cases : (m : Meaning) → ((t : Text) × (m ≡ text t)) ⊎ ((m ≡ invalid) ⊎ (m ≡ incomplete))
  meaning-cases (text t) = inl (t, refl)
  meaning-cases invalid = inr (inl refl)
  meaning-cases incomplete = inr (inr refl)

  convert_lem :
      (source : Text) (s : Iconv D)
      → length source < 2 ^ 29
      → Sat
          (λ n s'.
            (t : Text) × (rest : List ℕ) × (converts.meaning source ≡ text t)
            × (s'.buffer ≡ t ++ rest)
            × (n ≡ length t)
            × (length t < 2 ^ 31))
          (λ e _. Rejected source e)
          (convert coding cd source s)
  unfolding convert stop_of
  convert_lem source s small =
      let m = length source * 4 in
      let full : m % 2 ^ 64 ≡ m = omega (arith, small) in
      let buffer = if ltb (length s.buffer) m then resize m s.buffer else s.buffer in
      rw full (elim (meaning-cases (converts.meaning source)) [
        | inl (t, e) ↦
            let fits = converts.fits source t e in
            let x = converts.riconv_text source t buffer m s.driver e fits (grown m s.buffer) in
            rw x.2 (t, x.1, e, refl, omega (arith, fits, small), omega (arith, fits, small))
        | inr (inl e) ↦
            let x =
              converts.riconv_error source eilseq buffer m s.driver (ap errno_of e)
                (grown m s.buffer) in
            rw (x.2, x.3) (inl (e, refl))
        | inr (inr e) ↦
            let x =
              converts.riconv_error source einval buffer m s.driver (ap errno_of e)
                (grown m s.buffer) in
            rw (x.2, x.3) (inr (e, refl))
      ])

  -- Through a descriptor whose conversion behaves as documented, `makeSEXP` of at most 2^29 bytes
  -- returns the converted text up to its first null byte, and stops where the text has no
  -- conversion, with the message for an invalid or for an incomplete sequence. It never runs out of
  -- buffer.
  pub make_sexp_lem :
      (copies : Copies coding) (source : Text) (s : Iconv D)
      → s.cd ≡ some cd
      → length source < 2 ^ 29
      → Sat
          (λ x _. (t : Text) × (converts.meaning source ≡ text t) × (x ≡ until_nul t))
          (λ e _. Rejected source e)
          (make_sexp coding source true s)
  unfolding make_sexp
  make_sexp_lem copies source s opened small = rw opened (
      bind-Sat
        (λ n s'.
          (t : Text) × (rest : List ℕ) × (converts.meaning source ≡ text t)
          × (s'.buffer ≡ t ++ rest)
          × (n ≡ length t)
          × (length t < 2 ^ 31))
        (λ x _. (t : Text) × (converts.meaning source ≡ text t) × (x ≡ until_nul t))
        (λ e _. Rejected source e) (convert coding cd source)
        (λ n s'. safe_make_char coding s'.buffer (to_size (to_int n)) true s')
        (record s { cd = some cd }) (convert_lem source (record s { cd = some cd }) small)
        (λ n s' (t, rest, e, b, l, h).
          Sat-mono (λ x _. x ≡ until_nul t)
            (λ x _. (t : Text) × (converts.meaning source ≡ text t) × (x ≡ until_nul t)) (λ _ _. ⊥)
            (λ e _. Rejected source e)
            (safe_make_char coding s'.buffer (to_size (to_int n)) true s')
            (safe_make_char_lem coding copies s'.buffer (to_size (to_int n)) t rest s' b
              (ap (λ k. to_size (to_int k)) l ∙ ap to_size (to_int-small (length t) h)) h)
            (λ x _ k. (t, e, k)) (λ _ _ b. absurd b)))

text_eq-same : (t : Text) → text_eq t t ≡ true
unfolding text_eq
text_eq-same [] = refl
text_eq-same (c ∷ cs) = ground (arith, text_eq-same cs)

text_eq-either :
    (from to : Text) → (from ≡ []) ⊎ (from ≡ to) → text_eq from [] || text_eq from to ≡ true
unfolding text_eq
text_eq-either from to (inl e) = rw e refl
text_eq-either [] to (inr e) = refl
text_eq-either (c ∷ cs) to (inr e) = rw⁻¹ e (text_eq-same (c ∷ cs))

-- An encoder that is made for the empty encoding, or for the one that it converts to, gives a text
-- as it is and calls nothing of R, from its constructor to its destructor.
pub unconverted_lem :
    {D : Type 0} (coding : Coding D) (from to source : Text) (s : Iconv D)
    → (from ≡ []) ⊎ (from ≡ to)
    → Sat
        (λ t s'. (t ≡ source) × (s'.driver ≡ s.driver))
        (λ _ _. ⊥)
        ((new_iconv coding from to
            >> (make_string coding source >>= λ t. delete_iconv coding >> pure t))
          s)
unfolding new_iconv make_string delete_iconv
unconverted_lem coding from to source s same = rw (text_eq-either from to same) (refl, refl)
