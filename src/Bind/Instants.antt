-- ===== src/Bind/Instants.antt =====
-- `bind_datetime` binds instants as they are meant.
use odbc.Prelude.{
  ℕ, ◌+◌, ◌≤◌, ◌≡◌, refl, sym, ap, ◌∙◌, Bool, true, false, Option, none, some, List, ◌∷◌, map,
  length, length-map, take, drop, if◌then◌else◌, arith, Bool-cases, Option-cases, inl, inr,
}
use odbc.Outcome.{Sat, bind-Sat, Sat-mono}
use odbc.Nanodbc.{Text}
use odbc.Session.{Session, unknown_time_zone}
use odbc.Types.{SqlType}
use odbc.Clock.{scrubbed}
use odbc.Params.{Real, is_na, Vector, doubles, Class, Target, Binder, Zones, Memory}
use odbc.Bind.{
  Binding, Buffers, read_buffers, SourceType, double_source, source_slice, stamp_loop, stamp_of,
  own, tvp,
}
use odbc.Bind.Vectors.{
  is_timestampoffset, get_tz_bind_info, get_precision, bind_stamps, bind_datetime,
}
use odbc.Bind.Meaning.{
  Value, timestamp, timestampoffset, stamp_value, read_with, read_with-offset, read_with-stamp,
}
use odbc.Bind.Contract.{Contract, IsClear, Binds, bind-Binds, Quiet}
use odbc.Bind.Correct.{
  map-slice, slice-eq-some, length-slice, take-fresh, length-stamp_loop, Correct,
}

module _ (zones : Zones) (timezone : ℕ) where
  abbrev loaded_zone : Option ℕ → Bool × ℕ
  loaded_zone none = (false, timezone)
  loaded_zone (some tz) = (true, tz)

  abbrev named_zone : Option Text → Bool × ℕ
  named_zone none = (false, timezone)
  named_zone (some name) = loaded_zone (zones.load_time_zone name)

  -- Offsets are bound where the parameter has them and R's vector has a zone that can be loaded.
  abbrev pub zone_info : Class → SqlType → Bool × ℕ
  zone_info class t = if is_timestampoffset t then named_zone class.tzone else (false, timezone)

read-session :
    {D : Type 0} (to : Buffers) (s : Binding D) (t : Session D)
    → read_buffers to (record s { session = t }) ≡ read_buffers to s
read-session own s t = refl
read-session (tvp i) s t = refl

module _ {D : Type 0} {binder : Binder D} (k : Contract binder) (zones : Zones) (mem : Memory)
    (timezone : ℕ) (obj : Target) (to : Buffers) where
  -- Nothing is bound in between, and no buffer is written.
  pub record Same (s s' : Binding D) : Type 0 where
    pub buffers : read_buffers to s' ≡ read_buffers to s
    pub bound : k.bound s'.session.driver ≡ k.bound s.session.driver
    pub quiet : Quiet k s s'

  pub Binds-Same :
      (col : ℕ) (vs : List Value) (s s' s'' : Binding D)
      → Same s s'
      → Binds k obj to col vs s' s''
      → Binds k obj to col vs s s''
  Binds-Same col vs s s' s'' h b = record {
    what = b.what;
    is_bound = b.is_bound;
    says = b.says;
    others = λ i ne. b.others i ne ∙ ap (λ f. f obj i) h.bound;
    clear = λ i ne c. b.clear i ne (rw h.buffers c);
    quiet = record {
      objects = b.quiet.objects ∙ h.quiet.objects;
      current_result = b.quiet.current_result ∙ h.quiet.current_result;
      transaction = b.quiet.transaction ∙ h.quiet.transaction;
      log = b.quiet.log ∙ h.quiet.log;
    };
  }

  session_Same :
      (s : Binding D) (t : Session D)
      → k.bound t.driver ≡ k.bound s.session.driver
      → Quiet k s (record s { session = t })
      → Same s (record s { session = t })
  session_Same s t e q = record { buffers = read-session to s t; bound = e; quiet = q }

  pub get_tz_bind_info-Same :
      (class : Class) (col : ℕ) (s : Binding D)
      → Sat
          (λ info s'. (info ≡ zone_info zones timezone class (k.sql_type obj col)) × Same s s')
          (λ _ _. ⊥)
          (get_tz_bind_info binder zones mem timezone obj to class col s)
  unfolding get_tz_bind_info
  get_tz_bind_info-Same class col s =
      let u = k.type_done obj col s.session.driver in
      let t = record s.session { driver = u.0 } in
      let same =
        session_Same s t u.2
          (record { objects = refl; current_result = refl; transaction = refl; log = u.3 }) in
      rw u.1 (elim (Bool-cases (is_timestampoffset (k.sql_type obj col))) [
        | inr e ↦ rw e (refl, same)
        | inl e ↦ rw e (elim (Option-cases class.tzone) [
          | inl n ↦ rw n (refl, same)
          | inr (name, n) ↦ rw n (elim (Option-cases (zones.load_time_zone name)) [
            | inl m ↦ rw m (
              refl,
              session_Same s (record t { notices = unknown_time_zone ∷ t.notices }) u.2
                  (record { objects = refl; current_result = refl; transaction = refl; log = u.3 }),
            )
            | inr (tz, m) ↦ rw m (refl, same)
          ])
        ])
      ])

  pub get_precision-Same :
      (col : ℕ) (s : Binding D)
      → Sat
          (λ n s'. (n ≡ k.scale obj col) × Same s s')
          (λ _ _. ⊥)
          (get_precision binder zones mem timezone obj to col s)
  unfolding get_precision
  get_precision-Same col s =
      let u = k.scale_done obj col s.session.driver in
      rw u.1 (
        refl,
        session_Same s (record s.session { driver = u.0 }) u.2
            (record { objects = refl; current_result = refl; transaction = refl; log = u.3 }),
      )

  pub bind_stamps-Correct :
      (info : Bool × ℕ) (precision col size : ℕ) (v : List Real) (s : Binding D)
      → length v ≡ size
      → IsClear col (read_buffers to s)
      → Correct k zones mem timezone obj to col
          (map (stamp_value zones info.0 precision info.1) v)
          s
          (bind_stamps binder zones mem timezone obj to info.0 col size
            (stamp_loop zones precision info.1 mem.timestampoffset v)
            (map is_na v)
            s)
  unfolding bind_stamps
  bind_stamps-Correct (true, tz) precision col size v s n clear =
      let w = stamp_loop zones precision tz mem.timestampoffset v in
      bind-Binds k obj to col _ _ _ s
        (ap (λ z. read_with timestampoffset z (map is_na v))
            (take-fresh size _ w clear.4
              (length-stamp_loop zones precision tz mem.timestampoffset v ∙ n))
          ∙ read_with-offset zones precision tz mem.timestampoffset v)
        (λ i ne c. ground arith)
  bind_stamps-Correct (false, tz) precision col size v s n clear =
      let w = stamp_loop zones precision tz mem.timestampoffset v in
      bind-Binds k obj to col _ _ _ s
        (ap (λ z. read_with timestamp z (map is_na v))
            (take-fresh size _ (map stamp_of w) clear.3 (
              length-map w stamp_of
              ∙ length-stamp_loop zones precision tz mem.timestampoffset v
              ∙ n))
          ∙ read_with-stamp zones precision tz mem.timestampoffset v)
        (λ i ne c. ground arith)

  -- `bind_datetime` binds what it reads of a vector.
  pub bind_datetime-Correct :
      (source : SourceType) (x : Vector) (v : List Real) (class : Class) (col start size : ℕ)
      (s : Binding D)
      → source_slice mem source x start size ≡ some v
      → length v ≡ size
      → IsClear col (read_buffers to s)
      → let info = zone_info zones timezone class (k.sql_type obj col) in
        Correct k zones mem timezone obj to col
          (map (stamp_value zones info.0 (scrubbed (k.scale obj col)) info.1) v)
          s
          (bind_datetime binder zones mem timezone obj to source x class col start size s)
  unfolding bind_datetime
  bind_datetime-Correct source x v class col start size s read n clear =
      let info = zone_info zones timezone class (k.sql_type obj col) in
      let vs = map (stamp_value zones info.0 (scrubbed (k.scale obj col)) info.1) v in
      bind-Sat (λ i s'. (i ≡ info) × Same s s') (λ _ s'. Binds k obj to col vs s s') (λ _ _. ⊥)
        (get_tz_bind_info binder zones mem timezone obj to class col) _ s
        (get_tz_bind_info-Same class col s)
        (λ i s' g.
          bind-Sat (λ m s''. (m ≡ k.scale obj col) × Same s' s'')
            (λ _ s''. Binds k obj to col vs s s'') (λ _ _. ⊥)
            (get_precision binder zones mem timezone obj to col) _ s' (get_precision-Same col s')
            (λ m s'' p. rw read (
              Sat-mono (λ _ z. Binds k obj to col vs s'' z) (λ _ z. Binds k obj to col vs s z)
                (λ _ _. ⊥) (λ _ _. ⊥) _
                (rw g.0 (
                  rw p.0 (
                    bind_stamps-Correct info (scrubbed (k.scale obj col)) col size v s'' n
                      (rw p.1.buffers (rw g.1.buffers clear)))))
                (λ _ z b. Binds-Same col vs s s' z g.1 (Binds-Same col vs s' s'' z p.1 b))
                (λ _ _ b. b))))

  pub datetime-Correct :
      (xs : List Real) (class : Class) (col start size : ℕ) (s : Binding D)
      → start + size ≤ length xs
      → IsClear col (read_buffers to s)
      → let info = zone_info zones timezone class (k.sql_type obj col) in
        Correct k zones mem timezone obj to col
          (take size
            (drop start (map (stamp_value zones info.0 (scrubbed (k.scale obj col)) info.1) xs)))
          s
          (bind_datetime binder zones mem timezone obj to double_source
            (doubles xs)
            class
            col
            start
            size
            s)
  unfolding source_slice
  datetime-Correct xs class col start size s h clear =
      let info = zone_info zones timezone class (k.sql_type obj col) in
      rw
        (sym
          (map-slice (stamp_value zones info.0 (scrubbed (k.scale obj col)) info.1) start size xs))
        (bind_datetime-Correct double_source (doubles xs) (take size (drop start xs)) class col
          start size s (slice-eq-some start size xs h) (length-slice start size xs h) clear)
