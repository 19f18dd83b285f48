-- ===== src/Bind/Stable.antt =====
-- Properties of the session that every single call of a binding keeps: rules for the ways to put calls
-- together.
pub mod Vectors
pub mod Frames
pub mod Rounds
pub mod Whole
pub mod Triples
use odbc.Prelude.{
  ◌≡◌, refl, ap, ◌∙◌, ℕ, Bool, true, false, inl, inr, Option-cases, Option, none, some, List, ◌++◌,
  map, take, if◌then◌else◌,
}
use odbc.Outcome.{
  M, Error, Outcome, ok, throws, crash, database_error, ◌>>=◌, ◌>>◌, pure, throw, try_catch,
}
use odbc.Nanodbc.{Text, TimestampOffset}
use odbc.Nanodbc.{Reply, done, fails}
use odbc.Session.{
  answer, Session, Notice, call, modify, notify, unknown_precision, unknown_time_zone,
}
use odbc.Types.{
  RType, logical_t, integer_t, integer64_t, double_t, date_int_t, date_double_t, datetime_int_t,
  datetime_double_t, time_t, string_t, ustring_t, raw_t, dataframe_t,
}
use odbc.Clock.{scrubbed}
use odbc.Params.{
  ParamData, Vector, logicals, integers, doubles, strings, raws, raw_bytes, Class, Bound, ints,
  reals, texts, blobs, times, dates, timestamps, timestampoffsets, put, is_na, Target, table, Param,
  column, frame, Params, nil, cons, Binder, Zones, Memory, slice,
}
use odbc.Bind.{
  Binding, Buffers, own, tvp, in_session, get_buffers, put_buffers, clear_buffers, in_range,
  is_na_integer, is_null, char_of, raw_of, date_loop, stamp_of, stamp_loop, time_loop, source_slice,
  SourceType, int_source, double_source,
}
use odbc.Bind.Vectors.{
  bind_logical, bind_integer, bind_double, bind_string, bind_raw, bind_date, bind_time,
  get_tz_bind_info, default_precision, get_precision, bind_stamps, bind_datetime, bind_vector,
  is_timestampoffset,
}
use odbc.Result.Always.{Always, bind-Always, catch-Always, if-Always, keep-Always}

-- The property holds of the state after `m`, if it does before, whether `m` returns, throws or is
-- cut off.
pub record Keeps {ℓ} {S : Type 0} {A : Type ℓ} (P : S → Type 0) (m : M S A) : Type ℓ where
  pub after : Always P m

module _ {S : Type 0} {P : S → Type 0} where
  pub bind-Keeps {ℓ κ} :
      {A : Type ℓ} {B : Type κ} {m : M S A} {f : A → M S B}
      → Keeps P m
      → ((a : A) → Keeps P (f a))
      → Keeps P (m >>= f)
  bind-Keeps {m} {f} k h = record { after = bind-Always P m f k.after (λ a. (h a).after) }

  pub catch-Keeps {ℓ} :
      {A : Type ℓ} {m : M S A} {f : Error → M S A}
      → Keeps P m
      → ((e : Error) → Keeps P (f e))
      → Keeps P (try_catch m f)
  catch-Keeps {m} {f} k h = record { after = catch-Always P m f k.after (λ e. (h e).after) }

  pub if-Keeps {ℓ} :
      {A : Type ℓ} (b : Bool) {m k : M S A} → Keeps P m → Keeps P k → Keeps P (if b then m else k)
  if-Keeps true h g = h
  if-Keeps false h g = g

  pub same-Keeps {ℓ} : {A : Type ℓ} (r : Outcome A) → Keeps P (λ s. (r, s))
  same-Keeps r = record { after = λ s p. p }

-- Each call that binding a vector makes keeps `P`, and so does a message to the user.
pub record Stable {D : Type 0} (P : Session D → Type 0) (binder : Binder D) : Type 0 where
  pub bind : (obj : Target) (col : ℕ) (b : Bound) → Keeps P (call (binder.bind obj col b))
  pub parameter_type : (obj : Target) (col : ℕ) → Keeps P (call (binder.parameter_type obj col))
  pub parameter_scale : (obj : Target) (col : ℕ) → Keeps P (call (binder.parameter_scale obj col))
  pub told : (n : Notice) → Keeps P (notify n)

-- A property of the session, of the state that binding works on.
abbrev pub Around : {D : Type 0} → (Session D → Type 0) → Binding D → Type 0
Around P s = P s.session

module _ {D : Type 0} {P : Session D → Type 0} where
  pub in_session-Keeps {ℓ} :
      {A : Type ℓ} (m : M (Session D) A) → Keeps P m → Keeps (Around P) (in_session m)
  in_session-Keeps m k = record { after = λ s p. k.after s.session p }

module _ {D : Type 0} {P : Binding D → Type 0} where
  pub in_range-Keeps {ℓ} : {A : Type ℓ} (o : Option A) → Keeps P (in_range o)
  in_range-Keeps none = same-Keeps crash
  in_range-Keeps (some a) = same-Keeps (ok a)

  pub get_buffers-Keeps : (to : Buffers) → Keeps P (get_buffers to)
  get_buffers-Keeps to = record { after = λ s p. p }

module _ {D : Type 0} (P : Session D → Type 0) where
  pub put_buffers-Keeps : (to : Buffers) (d : ParamData) → Keeps (Around P) (put_buffers to d)
  put_buffers-Keeps own d = record { after = λ s p. p }
  put_buffers-Keeps (tvp i) d = record { after = λ s p. p }

  pub clear_buffers-Keeps : Keeps (Around P) clear_buffers
  unfolding clear_buffers
  clear_buffers-Keeps = record { after = λ s p. p }

module _ {D V : Type 0} (measure : D → V) (v : V) where
  answered {ℓ} : {A : Type ℓ} (s : Session D) (r : Reply A × D) → (answer s r).1.driver ≡ r.1
  answered s (done x, d) = refl
  answered s (fails e, d) = refl

  -- A call that does not change a measure of the driver's state.
  pub measured-Keeps {ℓ} :
      {A : Type ℓ} (f : D → Reply A × D)
      → ((d : D) → measure d ≡ v → measure (f d).1 ≡ v)
      → Keeps (λ s. measure s.driver ≡ v) (call f)
  measured-Keeps f h = record { after = λ s p. ap measure (answered s (f s.driver)) ∙ h s.driver p }
