-- ===== src/Encoder.antt =====
-- The class Iconv, src/Iconv.cpp, over the functions of R that it calls.
pub mod Cut
pub mod Meaning
use odbc.Prelude.{
  ℕ, zero, suc, ◌+◌, ◌-◌, ◌*◌, ◌%◌, ◌^◌, ltb, leb, Bool, true, false, ◌||◌, Option, none, some,
  List, [], ◌∷◌, ◌++◌, ◌==◌, if◌then◌else◌, length, get_elem?, take, replicate,
}
use odbc.Prelude.Int.{ℤ, pos, negsuc}
use odbc.Outcome.{
  Outcome, ok, Stop, r_stop, cannot_convert, iconv_initialisation, invalid_multibyte,
  incomplete_multibyte, buffer_too_small, unknown_iconv_failure, other_error, M, pure, throw, fault,
  ◌>>=◌, ◌>>◌,
}
use odbc.Nanodbc.{Reply, done, fails, Text}
use odbc.Connection.{text_eq}

pub data Errno : Type 0 where
  eilseq einval e2big : Errno
  other_errno : ℕ → Errno

pub data Opened : Type 0 where
  descriptor : ℕ → Opened
  open_failed : Errno → Opened

-- What `Riconv` leaves: an error or none, the buffer, and `outbytesleft`.
pub record Converted : Type 0 where
  pub failed : Option Errno
  pub buffer : List ℕ
  pub outbytesleft : ℕ

-- `Riconv_open`, which is told what to convert to first, `Riconv`, `Riconv_close`, and
-- `Rf_mkCharLenCE` on a memory.
pub record Coding (D : Type 0) : Type 0 where
  pub open_descriptor : Text → Text → D → Opened × D
  pub riconv : ℕ → Text → List ℕ → ℕ → D → Converted × D
  pub close_descriptor : ℕ → D → D
  pub mk_char : List ℕ → ℤ → D → Reply Text × D

-- The members `cd_` and `buffer_`, with the state of R.
pub record Iconv (D : Type 0) : Type 0 where
  pub driver : D
  pub cd : Option ℕ
  pub buffer : List ℕ

-- `buffer_.resize(n)` for a buffer that is not longer.
abbrev pub resize : ℕ → List ℕ → List ℕ
resize n buffer = buffer ++ replicate (n - length buffer) 0

unfoldable pub stop_of : Errno → Stop
stop_of eilseq = invalid_multibyte
stop_of einval = incomplete_multibyte
stop_of e2big = buffer_too_small
stop_of (other_errno n) = unknown_iconv_failure

-- A `size_t` as an `int`, and back.
abbrev pub to_int : ℕ → ℤ
to_int n = if ltb (n % 2 ^ 32) (2 ^ 31) then pos (n % 2 ^ 32) else negsuc (2 ^ 32 - 1 - n % 2 ^ 32)

abbrev pub to_size : ℤ → ℕ
to_size (pos n) = n
to_size (negsuc n) = (2 ^ 64 - 1 - n) % 2 ^ 64

-- The loop, from `n` on and for so many bytes; a read behind the memory is none.
unfoldable pub strnlen_from : ℕ → ℕ → List ℕ → Option ℕ
strnlen_from zero n s = some n
strnlen_from (suc k) n s =
    let rest = strnlen_from k (suc n) s in
    elim (get_elem? s n) [ none ↦ none | some c ↦ if c == 0 then some n else rest ]

pos_of : Option ℕ → Option ℤ
pos_of none = none
pos_of (some n) = some (pos n)

unfoldable pub my_strnlen : List ℕ → ℤ → Option ℤ
unfolding pos_of
my_strnlen s (pos maxlen) = pos_of (strnlen_from maxlen 0 s)
my_strnlen s (negsuc n) = some (negsuc n)

abbrev pub answer : {D A : Type 0} → Iconv D → Reply A × D → Outcome A × Iconv D
answer s (done a, d) = (ok a, record s { driver = d })
answer s (fails e, d) = throw e (record s { driver = d })

module _ {D : Type 0} (coding : Coding D) where
  initialised : Opened × D → M (Iconv D) (Unit {0})
  initialised (descriptor cd, d) s =
      (ok tt, record s { driver = d; cd = some cd; buffer = resize 1024 s.buffer })
  initialised (open_failed einval, d) s = throw (r_stop cannot_convert) (record s { driver = d })
  initialised (open_failed e, d) s = throw (r_stop iconv_initialisation) (record s { driver = d })

  -- The constructor, on an object with an empty buffer.
  unfoldable pub new_iconv : Text → Text → M (Iconv D) (Unit {0})
  unfolding initialised
  new_iconv from to s =
      if text_eq from [] || text_eq from to
      then (ok tt, record s { cd = none })
      else initialised (coding.open_descriptor to from s.driver) s

  -- The destructor.
  unfoldable pub delete_iconv : M (Iconv D) (Unit {0})
  delete_iconv s = elim s.cd [
    | none ↦ (ok tt, s)
    | some cd ↦ (ok tt, record s { driver = coding.close_descriptor cd s.driver; cd = none })
  ]

  converted : ℕ → Converted × D → M (Iconv D) ℕ
  converted max_size (x, d) s =
      let s' = record s { driver = d; buffer = x.buffer } in
      elim x.failed [
        | some e ↦ throw (r_stop (stop_of e)) s'
        | none ↦ (ok ((max_size + 2 ^ 64 - x.outbytesleft) % 2 ^ 64), s')
      ]

  -- `convert`, through a descriptor that is not null.
  unfoldable pub convert : ℕ → Text → M (Iconv D) ℕ
  unfolding converted
  convert cd source s =
      let max_size = length source * 4 % 2 ^ 64 in
      let grown = if ltb (length s.buffer) max_size then resize max_size s.buffer else s.buffer in
      converted max_size (coding.riconv cd source grown max_size s.driver)
        (record s { buffer = grown })

  char_of_length : List ℕ → Option ℤ → M (Iconv D) Text
  char_of_length start none s = fault s
  char_of_length start (some m) s = answer s (coding.mk_char start m s.driver)

  -- `my_strnlen` stands for `strnlen`, which the C library documents in the same way.
  unfoldable pub safe_make_char : List ℕ → ℕ → Bool → M (Iconv D) Text
  unfolding char_of_length
  safe_make_char start n has_null =
      char_of_length start (if has_null then my_strnlen start (to_int n) else some (to_int n))

  unfoldable pub make_sexp : Text → Bool → M (Iconv D) Text
  make_sexp source has_null s = elim s.cd [
    | none ↦ safe_make_char source (length source) has_null s
    | some cd ↦
        (do n ← convert cd source; λ s'. safe_make_char s'.buffer (to_size (to_int n)) has_null s')
          s
  ]

  -- `std::string(&buffer_[0], n)`, which throws `std::length_error` for a size out of range.
  string_of : ℤ → M (Iconv D) Text
  string_of (negsuc n) s = throw (other_error 0) s
  string_of (pos n) s = if leb n (length s.buffer) then pure (take n s.buffer) s else fault s

  unfoldable pub make_string : Text → M (Iconv D) Text
  unfolding string_of
  make_string source s = elim s.cd [
    | none ↦ pure source s
    | some cd ↦ (do n ← convert cd source; string_of (to_int n)) s
  ]
