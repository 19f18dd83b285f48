-- ===== src/Bind/Stable/Vectors.antt =====
-- `bind_logical` to `bind_time`, and `bind_columns` on a vector, keep what each single call keeps.
use odbc.Prelude.{ℕ, Bool, true, false, inl, inr, Option-cases, Option, List, ◌++◌, map, take}
use odbc.Outcome.{Error, ok, database_error, ◌>>=◌, ◌>>◌}
use odbc.Nanodbc.{TimestampOffset}
use odbc.Session.{Session, Notice, call, notify, unknown_precision, unknown_time_zone}
use odbc.Types.{
  RType, logical_t, integer_t, integer64_t, double_t, date_int_t, date_double_t, datetime_int_t,
  datetime_double_t, time_t, string_t, ustring_t, raw_t, dataframe_t,
}
use odbc.Clock.{scrubbed}
use odbc.Params.{
  ParamData, Vector, logicals, integers, doubles, strings, raws, Class, Bound, ints, reals, texts,
  blobs, times, dates, timestamps, timestampoffsets, put, is_na, Target, Binder, Zones, Memory,
  slice,
}
use odbc.Bind.{
  Buffers, in_session, get_buffers, put_buffers, in_range, is_na_integer, is_null, char_of, raw_of,
  date_loop, stamp_of, stamp_loop, time_loop, source_slice, SourceType, int_source, double_source,
}
use odbc.Bind.Vectors.{
  bind_logical, bind_integer, bind_double, bind_string, bind_raw, bind_date, bind_time,
  get_tz_bind_info, default_precision, get_precision, bind_stamps, bind_datetime, bind_vector,
  is_timestampoffset,
}
use odbc.Bind.Stable.{
  Keeps, Stable, Around, bind-Keeps, catch-Keeps, if-Keeps, same-Keeps, in_session-Keeps,
  in_range-Keeps, get_buffers-Keeps, put_buffers-Keeps,
}

module _ {D : Type 0} {P : Session D → Type 0} {binder : Binder D} (k : Stable P binder)
    (zones : Zones) (mem : Memory) (timezone : ℕ) (obj : Target) (to : Buffers) where
  bound-Keeps : (col : ℕ) (b : Bound) → Keeps (Around P) (in_session (call (binder.bind obj col b)))
  bound-Keeps col b = in_session-Keeps (call (binder.bind obj col b)) (k.bind obj col b)

  -- Values are read, the buffers written and bound.
  filled {ℓ} :
      {A : Type ℓ} (o : Option A) (q : A → ParamData → ParamData) (b : A → ParamData → Bound)
      (col : ℕ)
      → Keeps (Around P) (
          in_range o >>= λ v. get_buffers to >>= λ p.
          put_buffers to (q v p) >> in_session (call (binder.bind obj col (b v p))))
  filled o q b col = bind-Keeps (in_range-Keeps o) λ v.
      bind-Keeps (get_buffers-Keeps to)
        λ p. bind-Keeps (put_buffers-Keeps P to (q v p)) λ _. bound-Keeps col (b v p)

  bind_logical-Keeps :
      (x : Vector) (col start size : ℕ)
      → Keeps (Around P) (bind_logical binder zones mem timezone obj to x col start size)
  unfolding bind_logical
  bind_logical-Keeps (logicals xs) col start size =
      filled (slice start size xs)
        (λ v p. record p { nulls = put p.nulls col (map is_na_integer v) })
        (λ v p. ints v (map is_na_integer v)) col
  bind_logical-Keeps _ col start size = same-Keeps _

  bind_integer-Keeps :
      (x : Vector) (col start size : ℕ)
      → Keeps (Around P) (bind_integer binder zones mem timezone obj to x col start size)
  unfolding bind_integer
  bind_integer-Keeps (integers xs) col start size =
      filled (slice start size xs)
        (λ v p. record p { nulls = put p.nulls col (map is_na_integer v) })
        (λ v p. ints v (map is_na_integer v)) col
  bind_integer-Keeps _ col start size = same-Keeps _

  bind_double-Keeps :
      (x : Vector) (col start size : ℕ)
      → Keeps (Around P) (bind_double binder zones mem timezone obj to x col start size)
  unfolding bind_double
  bind_double-Keeps (doubles xs) col start size =
      filled (slice start size xs) (λ v p. record p { nulls = put p.nulls col (map is_na v) })
        (λ v p. reals v (map is_na v)) col
  bind_double-Keeps _ col start size = same-Keeps _

  bind_string-Keeps :
      (x : Vector) (col start size : ℕ)
      → Keeps (Around P) (bind_string binder zones mem timezone obj to x col start size)
  unfolding bind_string
  bind_string-Keeps (strings xs) col start size =
      filled (slice start size xs)
        (λ v p. record p {
          nulls = put p.nulls col (map is_null v);
          strings = put p.strings col (p.strings col ++ map char_of v);
        })
        (λ v p. texts (p.strings col ++ map char_of v) (map is_null v)) col
  bind_string-Keeps _ col start size = same-Keeps _

  bind_raw-Keeps :
      (x : Vector) (col start size : ℕ)
      → Keeps (Around P) (bind_raw binder zones mem timezone obj to x col start size)
  unfolding bind_raw
  bind_raw-Keeps (raws xs) col start size =
      filled (slice start size xs)
        (λ v p. record p {
          nulls = put p.nulls col (map is_null v);
          raws = put p.raws col (p.raws col ++ map raw_of v);
        })
        (λ v p. blobs (p.raws col ++ map raw_of v) (map is_null v)) col
  bind_raw-Keeps _ col start size = same-Keeps _

  bind_date-Keeps :
      (source : SourceType) (x : Vector) (col start size : ℕ)
      → Keeps (Around P) (bind_date binder zones mem timezone obj to source x col start size)
  unfolding bind_date
  bind_date-Keeps source x col start size =
      filled (source_slice mem source x start size)
        (λ v p. record p {
          nulls = put p.nulls col (map is_na v);
          dates = put p.dates col (p.dates col ++ date_loop zones mem.date v);
        })
        (λ v p. dates (take size (p.dates col ++ date_loop zones mem.date v)) (map is_na v)) col

  bind_time-Keeps :
      (x : Vector) (col start size : ℕ)
      → Keeps (Around P) (bind_time binder zones mem timezone obj to x col start size)
  unfolding bind_time
  bind_time-Keeps (doubles xs) col start size =
      filled (slice start size xs)
        (λ v p. record p {
          nulls = put p.nulls col (map is_na v);
          times = put p.times col (p.times col ++ time_loop mem.time v);
        })
        (λ v p. times (take size (p.times col ++ time_loop mem.time v)) (map is_na v)) col
  bind_time-Keeps _ col start size = same-Keeps _

  told-Keeps : (n : Notice) → Keeps (Around P) (in_session (notify n))
  told-Keeps n = in_session-Keeps (notify n) (k.told n)

  get_tz_bind_info-Keeps :
      (class : Class) (col : ℕ)
      → Keeps (Around P) (get_tz_bind_info binder zones mem timezone obj to class col)
  unfolding get_tz_bind_info
  get_tz_bind_info-Keeps class col =
      bind-Keeps
        (in_session-Keeps (call (binder.parameter_type obj col)) (k.parameter_type obj col))
        λ t.
          if-Keeps (is_timestampoffset t)
            (elim (Option-cases class.tzone) [
              | inl e ↦ rw e (same-Keeps (ok (false, timezone)))
              | inr (name, e) ↦ rw e (elim (Option-cases (zones.load_time_zone name)) [
                | inl f ↦ rw f (
                    bind-Keeps (told-Keeps unknown_time_zone)
                      λ _. same-Keeps (ok (false, timezone)))
                | inr (tz, f) ↦ rw f (same-Keeps (ok (true, tz)))
              ])
            ])
            (same-Keeps (ok (false, timezone)))

  default_precision-Keeps :
      (e : Error) → Keeps P (default_precision binder zones mem timezone obj to e)
  unfolding default_precision
  default_precision-Keeps (database_error c) =
      bind-Keeps (k.told unknown_precision) λ _. same-Keeps (ok 3)
  default_precision-Keeps e = record { after = λ s p. p }

  get_precision-Keeps :
      (col : ℕ) → Keeps (Around P) (get_precision binder zones mem timezone obj to col)
  unfolding get_precision
  get_precision-Keeps col =
      in_session-Keeps _ (catch-Keeps (k.parameter_scale obj col) default_precision-Keeps)

  bind_stamps-Keeps :
      (offsets : Bool) (col size : ℕ) (v : List TimestampOffset) (b : List Bool)
      → Keeps (Around P) (bind_stamps binder zones mem timezone obj to offsets col size v b)
  unfolding bind_stamps
  bind_stamps-Keeps true col size v b = bind-Keeps (get_buffers-Keeps to) λ p.
      bind-Keeps
        (put_buffers-Keeps P to (record p {
          nulls = put p.nulls col b;
          timestampoffsets = put p.timestampoffsets col (p.timestampoffsets col ++ v);
        }))
        λ _. bound-Keeps col (timestampoffsets (take size (p.timestampoffsets col ++ v)) b)
  bind_stamps-Keeps false col size v b = bind-Keeps (get_buffers-Keeps to) λ p.
      bind-Keeps
        (put_buffers-Keeps P to (record p {
          nulls = put p.nulls col b;
          timestamps = put p.timestamps col (p.timestamps col ++ map stamp_of v);
        }))
        λ _. bound-Keeps col (timestamps (take size (p.timestamps col ++ map stamp_of v)) b)

  bind_datetime-Keeps :
      (source : SourceType) (x : Vector) (class : Class) (col start size : ℕ)
      → Keeps
          (Around P)
          (bind_datetime binder zones mem timezone obj to source x class col start size)
  unfolding bind_datetime
  bind_datetime-Keeps source x class col start size =
      bind-Keeps (get_tz_bind_info-Keeps class col) λ info.
        bind-Keeps (get_precision-Keeps col) λ precision.
          bind-Keeps (in_range-Keeps (source_slice mem source x start size)) λ v.
            bind_stamps-Keeps info.0 col size
              (stamp_loop zones (scrubbed precision) info.1 mem.timestampoffset v) (map is_na v)

  pub bind_vector-Keeps :
      (t : RType) (x : Vector) (class : Class) (col start size : ℕ)
      → Keeps (Around P) (bind_vector binder zones mem timezone obj to t x class col start size)
  unfolding bind_vector
  bind_vector-Keeps logical_t x class col start size = bind_logical-Keeps x col start size
  bind_vector-Keeps date_int_t x class col start size =
      bind-Keeps (bind_date-Keeps int_source x col start size)
        λ _. bind_date-Keeps double_source x col start size
  bind_vector-Keeps date_double_t x class col start size =
      bind_date-Keeps double_source x col start size
  bind_vector-Keeps datetime_int_t x class col start size =
      bind_datetime-Keeps int_source x class col start size
  bind_vector-Keeps datetime_double_t x class col start size =
      bind_datetime-Keeps double_source x class col start size
  bind_vector-Keeps double_t x class col start size = bind_double-Keeps x col start size
  bind_vector-Keeps integer_t x class col start size = bind_integer-Keeps x col start size
  bind_vector-Keeps time_t x class col start size = bind_time-Keeps x col start size
  bind_vector-Keeps ustring_t x class col start size = bind_string-Keeps x col start size
  bind_vector-Keeps string_t x class col start size = bind_string-Keeps x col start size
  bind_vector-Keeps raw_t x class col start size = bind_raw-Keeps x col start size
  bind_vector-Keeps integer64_t x class col start size = same-Keeps _
  bind_vector-Keeps dataframe_t x class col start size = same-Keeps _
