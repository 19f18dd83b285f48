-- ===== src/Bind/Ends/Vectors.antt =====
-- `bind_logical` to `bind_time`, and `bind_columns` on a vector, do not use the fuel.
use odbc.Prelude.{ℕ, Bool, true, false, inl, inr, Option-cases, Option, List, ◌++◌, map, take}
use odbc.Outcome.{Error, database_error, ◌>>=◌, ◌>>◌}
use odbc.Nanodbc.{TimestampOffset}
use odbc.Session.{call}
use odbc.Types.{
  RType, logical_t, integer_t, integer64_t, double_t, date_int_t, date_double_t, datetime_int_t,
  datetime_double_t, time_t, string_t, ustring_t, raw_t, dataframe_t,
}
use odbc.Clock.{scrubbed}
use odbc.Params.{
  ParamData, Vector, logicals, integers, doubles, strings, raws, Class, Bound, ints, reals, texts,
  blobs, times, dates, timestamps, timestampoffsets, put, is_na, Target, Binder, Zones, Memory,
  slice,
}
use odbc.Bind.{
  Buffers, in_session, get_buffers, put_buffers, in_range, is_na_integer, is_null, char_of, raw_of,
  date_loop, stamp_of, stamp_loop, time_loop, source_slice, SourceType, int_source, double_source,
}
use odbc.Bind.Vectors.{
  bind_logical, bind_integer, bind_double, bind_string, bind_raw, bind_date, bind_time,
  get_tz_bind_info, default_precision, get_precision, bind_stamps, bind_datetime, bind_vector,
  is_timestampoffset,
}
use odbc.Bind.Ends.{
  Ends, bind-Ends, call-Ends, catch-Ends, if-Ends, in_session-Ends, in_range-Ends, get_buffers-Ends,
  put_buffers-Ends,
}

module _ {D : Type 0} (binder : Binder D) (zones : Zones) (mem : Memory) (timezone : ℕ)
    (obj : Target) (to : Buffers) where
  bound-Ends : (col : ℕ) (b : Bound) → Ends (in_session (call (binder.bind obj col b)))
  bound-Ends col b = in_session-Ends (call (binder.bind obj col b)) (call-Ends _)

  -- Values are read, the buffers written and bound.
  filled {ℓ} :
      {A : Type ℓ} (o : Option A) (q : A → ParamData → ParamData) (b : A → ParamData → Bound)
      (col : ℕ)
      → Ends (
          in_range o >>= λ v. get_buffers to >>= λ p.
          put_buffers to (q v p) >> in_session (call (binder.bind obj col (b v p))))
  filled o q b col = bind-Ends (in_range-Ends o) λ v.
      bind-Ends (get_buffers-Ends to)
        λ p. bind-Ends (put_buffers-Ends to (q v p)) λ _. bound-Ends col (b v p)

  bind_logical-Ends :
      (x : Vector) (col start size : ℕ)
      → Ends (bind_logical binder zones mem timezone obj to x col start size)
  unfolding bind_logical
  bind_logical-Ends (logicals xs) col start size =
      filled (slice start size xs)
        (λ v p. record p { nulls = put p.nulls col (map is_na_integer v) })
        (λ v p. ints v (map is_na_integer v)) col
  bind_logical-Ends _ col start size = record { ends = λ s. tt }

  bind_integer-Ends :
      (x : Vector) (col start size : ℕ)
      → Ends (bind_integer binder zones mem timezone obj to x col start size)
  unfolding bind_integer
  bind_integer-Ends (integers xs) col start size =
      filled (slice start size xs)
        (λ v p. record p { nulls = put p.nulls col (map is_na_integer v) })
        (λ v p. ints v (map is_na_integer v)) col
  bind_integer-Ends _ col start size = record { ends = λ s. tt }

  bind_double-Ends :
      (x : Vector) (col start size : ℕ)
      → Ends (bind_double binder zones mem timezone obj to x col start size)
  unfolding bind_double
  bind_double-Ends (doubles xs) col start size =
      filled (slice start size xs) (λ v p. record p { nulls = put p.nulls col (map is_na v) })
        (λ v p. reals v (map is_na v)) col
  bind_double-Ends _ col start size = record { ends = λ s. tt }

  bind_string-Ends :
      (x : Vector) (col start size : ℕ)
      → Ends (bind_string binder zones mem timezone obj to x col start size)
  unfolding bind_string
  bind_string-Ends (strings xs) col start size =
      filled (slice start size xs)
        (λ v p. record p {
          nulls = put p.nulls col (map is_null v);
          strings = put p.strings col (p.strings col ++ map char_of v);
        })
        (λ v p. texts (p.strings col ++ map char_of v) (map is_null v)) col
  bind_string-Ends _ col start size = record { ends = λ s. tt }

  bind_raw-Ends :
      (x : Vector) (col start size : ℕ)
      → Ends (bind_raw binder zones mem timezone obj to x col start size)
  unfolding bind_raw
  bind_raw-Ends (raws xs) col start size =
      filled (slice start size xs)
        (λ v p. record p {
          nulls = put p.nulls col (map is_null v);
          raws = put p.raws col (p.raws col ++ map raw_of v);
        })
        (λ v p. blobs (p.raws col ++ map raw_of v) (map is_null v)) col
  bind_raw-Ends _ col start size = record { ends = λ s. tt }

  bind_date-Ends :
      (source : SourceType) (x : Vector) (col start size : ℕ)
      → Ends (bind_date binder zones mem timezone obj to source x col start size)
  unfolding bind_date
  bind_date-Ends source x col start size =
      filled (source_slice mem source x start size)
        (λ v p. record p {
          nulls = put p.nulls col (map is_na v);
          dates = put p.dates col (p.dates col ++ date_loop zones mem.date v);
        })
        (λ v p. dates (take size (p.dates col ++ date_loop zones mem.date v)) (map is_na v)) col

  bind_time-Ends :
      (x : Vector) (col start size : ℕ)
      → Ends (bind_time binder zones mem timezone obj to x col start size)
  unfolding bind_time
  bind_time-Ends (doubles xs) col start size =
      filled (slice start size xs)
        (λ v p. record p {
          nulls = put p.nulls col (map is_na v);
          times = put p.times col (p.times col ++ time_loop mem.time v);
        })
        (λ v p. times (take size (p.times col ++ time_loop mem.time v)) (map is_na v)) col
  bind_time-Ends _ col start size = record { ends = λ s. tt }

  get_tz_bind_info-Ends :
      (class : Class) (col : ℕ) → Ends (get_tz_bind_info binder zones mem timezone obj to class col)
  unfolding get_tz_bind_info
  get_tz_bind_info-Ends class col =
      bind-Ends (in_session-Ends (call (binder.parameter_type obj col)) (call-Ends _)) λ t.
        if-Ends (is_timestampoffset t)
          (elim (Option-cases class.tzone) [
            | inl e ↦ rw e record { ends = λ s. tt }
            | inr (name, e) ↦ rw e (elim (Option-cases (zones.load_time_zone name)) [
              | inl f ↦ rw f (record { ends = λ s. tt })
              | inr (tz, f) ↦ rw f record { ends = λ s. tt }
            ])
          ])
          record { ends = λ s. tt }

  default_precision-Ends : (e : Error) → Ends (default_precision binder zones mem timezone obj to e)
  unfolding default_precision
  default_precision-Ends (database_error c) = record { ends = λ s. tt }
  default_precision-Ends e = record { ends = λ s. tt }

  get_precision-Ends : (col : ℕ) → Ends (get_precision binder zones mem timezone obj to col)
  unfolding get_precision
  get_precision-Ends col = in_session-Ends _ (catch-Ends (call-Ends _) default_precision-Ends)

  bind_stamps-Ends :
      (offsets : Bool) (col size : ℕ) (v : List TimestampOffset) (b : List Bool)
      → Ends (bind_stamps binder zones mem timezone obj to offsets col size v b)
  unfolding bind_stamps
  bind_stamps-Ends true col size v b = bind-Ends (get_buffers-Ends to) λ p.
      bind-Ends
        (put_buffers-Ends to (record p {
          nulls = put p.nulls col b;
          timestampoffsets = put p.timestampoffsets col (p.timestampoffsets col ++ v);
        }))
        λ _. bound-Ends col (timestampoffsets (take size (p.timestampoffsets col ++ v)) b)
  bind_stamps-Ends false col size v b = bind-Ends (get_buffers-Ends to) λ p.
      bind-Ends
        (put_buffers-Ends to (record p {
          nulls = put p.nulls col b;
          timestamps = put p.timestamps col (p.timestamps col ++ map stamp_of v);
        }))
        λ _. bound-Ends col (timestamps (take size (p.timestamps col ++ map stamp_of v)) b)

  bind_datetime-Ends :
      (source : SourceType) (x : Vector) (class : Class) (col start size : ℕ)
      → Ends (bind_datetime binder zones mem timezone obj to source x class col start size)
  unfolding bind_datetime
  bind_datetime-Ends source x class col start size =
      bind-Ends (get_tz_bind_info-Ends class col) λ info.
        bind-Ends (get_precision-Ends col) λ precision.
          bind-Ends (in_range-Ends (source_slice mem source x start size)) λ v.
            bind_stamps-Ends info.0 col size
              (stamp_loop zones (scrubbed precision) info.1 mem.timestampoffset v) (map is_na v)

  pub bind_vector-Ends :
      (t : RType) (x : Vector) (class : Class) (col start size : ℕ)
      → Ends (bind_vector binder zones mem timezone obj to t x class col start size)
  unfolding bind_vector
  bind_vector-Ends logical_t x class col start size = bind_logical-Ends x col start size
  bind_vector-Ends date_int_t x class col start size =
      bind-Ends (bind_date-Ends int_source x col start size)
        λ _. bind_date-Ends double_source x col start size
  bind_vector-Ends date_double_t x class col start size =
      bind_date-Ends double_source x col start size
  bind_vector-Ends datetime_int_t x class col start size =
      bind_datetime-Ends int_source x class col start size
  bind_vector-Ends datetime_double_t x class col start size =
      bind_datetime-Ends double_source x class col start size
  bind_vector-Ends double_t x class col start size = bind_double-Ends x col start size
  bind_vector-Ends integer_t x class col start size = bind_integer-Ends x col start size
  bind_vector-Ends time_t x class col start size = bind_time-Ends x col start size
  bind_vector-Ends ustring_t x class col start size = bind_string-Ends x col start size
  bind_vector-Ends string_t x class col start size = bind_string-Ends x col start size
  bind_vector-Ends raw_t x class col start size = bind_raw-Ends x col start size
  bind_vector-Ends integer64_t x class col start size = record { ends = λ s. tt }
  bind_vector-Ends dataframe_t x class col start size = record { ends = λ s. tt }
