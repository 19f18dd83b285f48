-- ===== src/Bind/Faithful.antt =====
-- `bind_columns` for every type of vector.
use odbc.Prelude.{ℕ, ◌+◌, ◌≤◌, take, drop}
use odbc.Outcome.{Sat}
use odbc.Types.{
  RType, logical_t, integer_t, double_t, date_double_t, datetime_double_t, time_t, string_t, raw_t,
}
use odbc.Clock.{scrubbed}
use odbc.Params.{
  vector_length, Vector, logicals, integers, doubles, strings, raws, Class, Target, Binder, Zones,
  Memory,
}
use odbc.Bind.{Binding, Buffers, read_buffers}
use odbc.Bind.Vectors.{bind_vector}
use odbc.Bind.Meaning.{meaning, Fits}
use odbc.Bind.Contract.{Contract, IsClear, Binds}
use odbc.Bind.Correct.{
  logical-Correct, integer-Correct, double-Correct, string-Correct, raw-Correct, time-Correct,
  date-Correct,
}
use odbc.Bind.Instants.{zone_info, datetime-Correct}

module _ {D : Type 0} {binder : Binder D} (k : Contract binder) (zones : Zones) (mem : Memory)
    (timezone : ℕ) (obj : Target) (to : Buffers) where
  -- Where nanodbc accepts what is bound and the buffers of a column are empty, `bind_columns` binds
  -- so many elements of a vector from `start` on: the driver reads the value of each, and null for
  -- each NA. It touches neither the other columns nor the results. Integer vectors of dates and
  -- instants are left aside.
  pub bind_vector-Binds :
      (t : RType) (x : Vector) (class : Class) (col start size : ℕ) (s : Binding D)
      → Fits t x
      → start + size ≤ vector_length x
      → IsClear col (read_buffers to s)
      → Sat
          (λ _ s'.
            Binds k obj to col
              (take size (
                drop start (
                  meaning zones
                    (zone_info zones timezone class (k.sql_type obj col))
                    (scrubbed (k.scale obj col))
                    t
                    x)))
              s
              s')
          (λ _ _. ⊥)
          (bind_vector binder zones mem timezone obj to t x class col start size s)
  unfolding bind_vector meaning
  bind_vector-Binds logical_t (logicals xs) class col start size s f h c =
      logical-Correct k zones mem timezone obj to xs col start size s h c
  bind_vector-Binds integer_t (integers xs) class col start size s f h c =
      integer-Correct k zones mem timezone obj to xs col start size s h c
  bind_vector-Binds double_t (doubles xs) class col start size s f h c =
      double-Correct k zones mem timezone obj to xs col start size s h c
  bind_vector-Binds string_t (strings xs) class col start size s f h c =
      string-Correct k zones mem timezone obj to xs col start size s h c
  bind_vector-Binds raw_t (raws xs) class col start size s f h c =
      raw-Correct k zones mem timezone obj to xs col start size s h c
  bind_vector-Binds time_t (doubles xs) class col start size s f h c =
      time-Correct k zones mem timezone obj to xs col start size s h c
  bind_vector-Binds date_double_t (doubles xs) class col start size s f h c =
      date-Correct k zones mem timezone obj to xs col start size s h c
  bind_vector-Binds datetime_double_t (doubles xs) class col start size s f h c =
      datetime-Correct k zones mem timezone obj to xs class col start size s h c
  bind_vector-Binds _ _ class col start size s f h c = absurd f
