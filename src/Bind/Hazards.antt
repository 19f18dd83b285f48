-- ===== src/Bind/Hazards.antt =====
-- Integer vectors of dates and instants: NA is bound as a value.
use odbc.Prelude.{
  ℕ, ◌+◌, ◌≤◌, ◌≡◌, refl, sym, ap, List, [], ◌∷◌, map, length, length-map, take, drop,
}
use odbc.Prelude.Int.{ℤ, ◌*ℤ◌}
use odbc.Outcome.{Sat}
use odbc.Types.{datetime_int_t}
use odbc.Params.{billionths, integers, Class, Target, Binder, Zones, Memory}
use odbc.Bind.{Binding, own, read_buffers, real_of, int_source, source_slice, as_date}
use odbc.Bind.Vectors.{bind_vector}
use odbc.Bind.Meaning.{Value, date, stamp_value}
use odbc.Bind.Contract.{Contract, IsClear, Binds}
use odbc.Bind.Correct.{slice-eq-some, length-slice, map-slice}
use odbc.Bind.Instants.{zone_info, bind_datetime-Correct}
use odbc.Clock.{scrubbed}

map-map :
    {A B C : Type 0} (f : B → C) (g : A → B) (xs : List A)
    → map f (map g xs) ≡ map (λ x. f (g x)) xs
map-map f g [] = refl
map-map f g (x ∷ xs) = ap (◌∷◌ (f (g x))) (map-map f g xs)

module _ (zones : Zones) where
  -- The day that the code computes for an integer, also for NA.
  abbrev pub day_of : ℤ → Value
  day_of n = date (as_date zones (n *ℤ 1000000000 *ℤ 86400))

module _ {D : Type 0} {binder : Binder D} (k : Contract binder) (zones : Zones) (mem : Memory)
    (timezone : ℕ) (obj : Target) where
  -- An instant that R holds as an integer is never null: NA is bound as the instant of that number
  -- of seconds.
  pub int_datetime-na :
      (xs : List ℤ) (class : Class) (col start size : ℕ) (s : Binding D)
      → start + size ≤ length xs
      → IsClear col (read_buffers own s)
      → let info = zone_info zones timezone class (k.sql_type obj col) in
        let instant = λ (n : ℤ).
          stamp_value zones info.0
            (scrubbed (k.scale obj col))
            info.1
            (billionths (n *ℤ 1000000000)) in
        Sat
          (λ _ s'. Binds k obj own col (take size (drop start (map instant xs))) s s')
          (λ _ _. ⊥)
          (bind_vector binder zones mem timezone obj own datetime_int_t
            (integers xs)
            class
            col
            start
            size
            s)
  unfolding bind_vector source_slice
  int_datetime-na xs class col start size s h clear =
      let info = zone_info zones timezone class (k.sql_type obj col) in
      let instant =
        λ (n : ℤ). stamp_value zones info.0 (scrubbed (k.scale obj col)) info.1 (real_of n) in
      let m : start + size ≤ length (map real_of xs) = rw (length-map xs real_of) h in
      let stamp = stamp_value zones info.0 (scrubbed (k.scale obj col)) info.1 in
      rw (sym (map-slice instant start size xs)) (
        rw (sym (map-map stamp real_of (take size (drop start xs)))) (
          rw (map-slice real_of start size xs) (
            bind_datetime-Correct k zones mem timezone obj own int_source (integers xs)
              (take size (drop start (map real_of xs))) class col start size s
              (slice-eq-some start size (map real_of xs) m)
              (length-slice start size (map real_of xs) m) clear)))
