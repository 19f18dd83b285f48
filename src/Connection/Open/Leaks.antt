-- ===== src/Connection/Open/Leaks.antt =====
-- The descriptors of conversions that the constructor of odbc_connection holds when it ends.
use odbc.Prelude.{ℕ, suc, ◌+◌, ◌≡◌, none, some}
use odbc.Outcome.{Outcome, Sat}
use odbc.Nanodbc.{Text}
use odbc.Attributes.{Prepared}
use odbc.Encoder.{descriptor, open_failed, Errno}
use odbc.Connection.Open.{Settings, Encoder, OdbcConnection, Surroundings}

-- What is documented of descriptors: opening one adds it to those that are open, closing one takes it
-- away, and a connection is opened without touching them.
pub record Descriptors {D : Type 0} (around : Surroundings D) : Type 0 where
  pub count : D → ℕ
  pub opened :
      (to from : Text) (d : D) (cd : ℕ) (d' : D)
      → around.coding.open_descriptor to from d ≡ (descriptor cd, d')
      → count d' ≡ suc (count d)
  pub not_opened :
      (to from : Text) (d : D) (e : Errno) (d' : D)
      → around.coding.open_descriptor to from d ≡ (open_failed e, d')
      → count d' ≡ count d
  pub closed :
      (cd n : ℕ) (d : D) → count d ≡ suc n → count (around.coding.close_descriptor cd d) ≡ n
  pub connected : (text : Text) (p : Prepared) (d : D) → count (around.connect text p d).1 ≡ count d

abbrev pub descriptors : Encoder → ℕ
descriptors e = elim e.cd [ none ↦ 0 | some cd ↦ 1 ]

-- The members that the constructor sets: both time zones are those that were asked for, there is no
-- transaction and no result.
abbrev pub IsConfigured : {D : Type 0} → Surroundings D → Settings → OdbcConnection → Type 0
IsConfigured around settings c =
    (around.load_time_zone settings.timezone ≡ some c.timezone)
    × (around.load_time_zone settings.timezone_out ≡ some c.timezone_out)
    × (c.timezone_out_str ≡ settings.timezone_out)
    × (c.bigint_mapping ≡ settings.bigint_mapping)
    × (c.interruptible_execution ≡ settings.interruptible_execution)
    × (c.transaction ≡ none)
    × (c.current_result ≡ none)

module _ {D : Type 0} (around : Surroundings D) (l : Descriptors around) where
  -- How many more descriptors are open than `n`, on a return and on a throw.
  abbrev pub Holds : {A : Type 0} → (A → ℕ) → ℕ → Outcome A × D → Type 0
  Holds more n r = Sat (λ a d'. l.count d' ≡ more a + n) (λ _ d'. l.count d' ≡ n) r
