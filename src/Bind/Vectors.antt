-- ===== src/Bind/Vectors.antt =====
-- `bind_logical` to `bind_time`, and the cases of `bind_columns` for a vector.
use odbc.Prelude.{ℕ, Bool, true, false, Option, none, some, List, ◌++◌, map, take, if◌then◌else◌}
use odbc.Outcome.{
  M, Error, database_error, r_stop, not_implemented, pure, throw, ◌>>=◌, ◌>>◌, try_catch,
}
use odbc.Nanodbc.{Text, TimestampOffset}
use odbc.Session.{Session, unknown_precision, unknown_time_zone, call, notify}
use odbc.Types.{
  RType, logical_t, integer_t, integer64_t, double_t, date_int_t, date_double_t, datetime_int_t,
  datetime_double_t, time_t, string_t, ustring_t, raw_t, dataframe_t, SqlType,
  sql_ss_timestampoffset,
}
use odbc.Clock.{scrubbed}
use odbc.Params.{
  is_na, Vector, logicals, integers, doubles, strings, raws, Class, put, Bound, ints, reals, texts,
  blobs, times, dates, timestamps, timestampoffsets, Target, Binder, Zones, Memory, slice,
}
use odbc.Bind.{
  Binding, Buffers, in_session, get_buffers, put_buffers, in_range, wrong_vector, is_na_integer,
  is_null, char_of, raw_of, SourceType, int_source, double_source, source_slice, date_loop,
  stamp_of, stamp_loop, time_loop,
}

abbrev pub is_timestampoffset : SqlType → Bool
is_timestampoffset sql_ss_timestampoffset = true
is_timestampoffset _ = false

module _ {D : Type 0} (binder : Binder D) (zones : Zones) (mem : Memory) (timezone : ℕ)
    (obj : Target) (to : Buffers) where
  abbrev bind : ℕ → Bound → M (Binding D) (Unit {0})
  bind col b = in_session (call (binder.bind obj col b))

  unfoldable pub bind_logical : Vector → ℕ → ℕ → ℕ → M (Binding D) (Unit {0})
  bind_logical (logicals xs) col start size = do
    v ← in_range (slice start size xs)
    p ← get_buffers to
    put_buffers to (record p { nulls = put p.nulls col (map is_na_integer v) })
    bind col (ints v (map is_na_integer v))
  bind_logical v col start size = wrong_vector

  unfoldable pub bind_integer : Vector → ℕ → ℕ → ℕ → M (Binding D) (Unit {0})
  bind_integer (integers xs) col start size = do
    v ← in_range (slice start size xs)
    p ← get_buffers to
    put_buffers to (record p { nulls = put p.nulls col (map is_na_integer v) })
    bind col (ints v (map is_na_integer v))
  bind_integer v col start size = wrong_vector

  unfoldable pub bind_double : Vector → ℕ → ℕ → ℕ → M (Binding D) (Unit {0})
  bind_double (doubles xs) col start size = do
    v ← in_range (slice start size xs)
    p ← get_buffers to
    put_buffers to (record p { nulls = put p.nulls col (map is_na v) })
    bind col (reals v (map is_na v))
  bind_double v col start size = wrong_vector

  -- The buffer is not cleared here: its elements from before are bound, too.
  unfoldable pub bind_string : Vector → ℕ → ℕ → ℕ → M (Binding D) (Unit {0})
  bind_string (strings xs) col start size = do
    v ← in_range (slice start size xs)
    p ← get_buffers to
    let new = p.strings col ++ map char_of v
    put_buffers to
        (record p { nulls = put p.nulls col (map is_null v); strings = put p.strings col new })
    bind col (texts new (map is_null v))
  bind_string v col start size = wrong_vector

  unfoldable pub bind_raw : Vector → ℕ → ℕ → ℕ → M (Binding D) (Unit {0})
  bind_raw (raws xs) col start size = do
    v ← in_range (slice start size xs)
    p ← get_buffers to
    let new = p.raws col ++ map raw_of v
    put_buffers to (record p { nulls = put p.nulls col (map is_null v); raws = put p.raws col new })
    bind col (blobs new (map is_null v))
  bind_raw v col start size = wrong_vector

  -- The pointer to the buffer goes with `size`, so that its first elements are bound.
  unfoldable pub bind_date : SourceType → Vector → ℕ → ℕ → ℕ → M (Binding D) (Unit {0})
  bind_date source x col start size = do
    v ← in_range (source_slice mem source x start size)
    p ← get_buffers to
    let new = p.dates col ++ date_loop zones mem.date v
    put_buffers to (record p { nulls = put p.nulls col (map is_na v); dates = put p.dates col new })
    bind col (dates (take size new) (map is_na v))

  unfoldable pub bind_time : Vector → ℕ → ℕ → ℕ → M (Binding D) (Unit {0})
  bind_time (doubles xs) col start size = do
    v ← in_range (slice start size xs)
    p ← get_buffers to
    let new = p.times col ++ time_loop mem.time v
    put_buffers to (record p { nulls = put p.nulls col (map is_na v); times = put p.times col new })
    bind col (times (take size new) (map is_na v))
  bind_time v col start size = wrong_vector

  unknown_zone : Option ℕ → M (Binding D) (Bool × ℕ)
  unknown_zone none = do in_session (notify unknown_time_zone); pure (false, timezone)
  unknown_zone (some tz) = pure (true, tz)

  zone_of : Option Text → M (Binding D) (Bool × ℕ)
  zone_of none = pure (false, timezone)
  zone_of (some name) = unknown_zone (zones.load_time_zone name)

  -- Whether to bind offsets, and the time zone.
  unfoldable pub get_tz_bind_info : Class → ℕ → M (Binding D) (Bool × ℕ)
  unfolding zone_of unknown_zone
  get_tz_bind_info class col = do
    t ← in_session (call (binder.parameter_type obj col))
    if is_timestampoffset t then zone_of class.tzone else pure (false, timezone)

  unfoldable pub default_precision : Error → M (Session D) ℕ
  default_precision (database_error c) = do notify unknown_precision; pure 3
  default_precision e = throw e

  unfoldable pub get_precision : ℕ → M (Binding D) ℕ
  unfolding default_precision
  get_precision col =
      in_session (try_catch (call (binder.parameter_scale obj col)) default_precision)

  -- The loop over the values, with or without offsets, and the call of `bind`.
  unfoldable pub bind_stamps :
      Bool → ℕ → ℕ → List TimestampOffset → List Bool → M (Binding D) (Unit {0})
  bind_stamps true col size v b = do
    p ← get_buffers to
    let new = p.timestampoffsets col ++ v
    put_buffers to
        (record p { nulls = put p.nulls col b; timestampoffsets = put p.timestampoffsets col new })
    bind col (timestampoffsets (take size new) b)
  bind_stamps false col size v b = do
    p ← get_buffers to
    let new = p.timestamps col ++ map stamp_of v
    put_buffers to (record p { nulls = put p.nulls col b; timestamps = put p.timestamps col new })
    bind col (timestamps (take size new) b)

  unfoldable pub bind_datetime : SourceType → Vector → Class → ℕ → ℕ → ℕ → M (Binding D) (Unit {0})
  bind_datetime source x class col start size = do
    info ← get_tz_bind_info class col
    precision ← get_precision col
    v ← in_range (source_slice mem source x start size)
    bind_stamps info.0 col size (stamp_loop zones (scrubbed precision) info.1 mem.timestampoffset v)
        (map is_na v)

  -- `bind_columns`, for a vector. The case `date_int_t` has no `break`.
  unfoldable pub bind_vector : RType → Vector → Class → ℕ → ℕ → ℕ → M (Binding D) (Unit {0})
  unfolding bind_logical bind_integer bind_double bind_string bind_raw bind_date bind_time
      bind_datetime
  bind_vector logical_t x class col start size = bind_logical x col start size
  bind_vector date_int_t x class col start size =
      bind_date int_source x col start size >> bind_date double_source x col start size
  bind_vector date_double_t x class col start size = bind_date double_source x col start size
  bind_vector datetime_int_t x class col start size =
      bind_datetime int_source x class col start size
  bind_vector datetime_double_t x class col start size =
      bind_datetime double_source x class col start size
  bind_vector double_t x class col start size = bind_double x col start size
  bind_vector integer_t x class col start size = bind_integer x col start size
  bind_vector time_t x class col start size = bind_time x col start size
  bind_vector ustring_t x class col start size = bind_string x col start size
  bind_vector string_t x class col start size = bind_string x col start size
  bind_vector raw_t x class col start size = bind_raw x col start size
  bind_vector integer64_t x class col start size = throw (r_stop not_implemented)
  bind_vector dataframe_t x class col start size = wrong_vector
