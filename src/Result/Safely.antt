-- ===== src/Result/Safely.antt =====
-- The calls of a fetch keep the connection safe, on every path.
use odbc.Prelude.{
  ℕ, zero, suc, ◌+◌, ◌≡◌, refl, inl, inr, Bool, true, false, not, none, ◌==◌, if◌then◌else◌, arith,
  Option-cases,
}
use odbc.Prelude.Int.{ℤ}
use odbc.Outcome.{M, Sat-mono, ◌>>◌, pure}
use odbc.Nanodbc.{Nanodbc, Rows}
use odbc.Session.{Session, call, deref, unknown_field_type}
use odbc.Connection.{set_current_result, get_data_any_order}
use odbc.Types.{BigintMap, column_type}
use odbc.Fetch.{Cursor}
use odbc.Fetch.Loop.{result_to_dataframe}
use odbc.Result.Safety.{IsSafe, IsSafe-same, set_current_result_lem}
use odbc.Result.Unbind.{unbound_here, unbind_from, unbind_columns, unbind_if_needed}
use odbc.Result.Fetches.{
  Headers, signal_unknown, column_types, column_names, in_cursor, cursor_of, read_frame,
  fetch_bound, fetch,
}
use odbc.Result.Always.{
  Always, bind-Always, catch-Always, if-Always, Sat-state, call-Always, notify-Always, deref-Always,
  put_object-safe, read-Always,
}

module _ {D : Type 0} (drv : Nanodbc D) where
  abbrev pub Safely {ℓ} : {A : Type ℓ} → M (Session D) A → Type 0
  Safely m = Always IsSafe m

  pub set_current_result-Safely : Safely (set_current_result drv none)
  set_current_result-Safely s p = Sat-state IsSafe (set_current_result drv none s) (
      Sat-mono (λ _ s'. (s'.current_result ≡ none) × (s'.objects ≡ s.objects)) _
        (λ _ s'. (s'.current_result ≡ s.current_result) × (s'.objects ≡ s.objects)) _
        (set_current_result drv none s) (set_current_result_lem drv none s p) (λ _ s' h. inl h.0)
        (λ _ s' h. IsSafe-same drv s s' h.0 h.1 p))

  get_data_any_order-Safely : Safely (get_data_any_order drv)
  unfolding get_data_any_order
  get_data_any_order-Safely s p = ground arith

  unbound_here-Safely : (b : Bool) (r i : ℕ) → Safely (unbound_here drv b r i)
  unfolding unbound_here
  unbound_here-Safely true r i = λ s p. p
  unbound_here-Safely false r i =
      bind-Always IsSafe (call (drv.is_bound r i)) (λ b. pure (not b))
        (call-Always (drv.is_bound r i)) (λ b s p. p)

  unbind_from-Safely : (n i : ℕ) (found : Bool) (r : ℕ) → Safely (unbind_from drv n i found r)
  unfolding unbind_from
  unbind_from-Safely zero i found r = λ s p. p
  unbind_from-Safely (suc n) i found r =
      bind-Always IsSafe (unbound_here drv found r i)
        (λ b. (if b then call (drv.unbind r i) else pure tt) >> unbind_from drv n (i + 1) b r)
        (unbound_here-Safely found r i)
        (λ b.
          bind-Always IsSafe (if b then call (drv.unbind r i) else pure tt)
            (λ _. unbind_from drv n (i + 1) b r)
            (if-Always IsSafe b (call (drv.unbind r i)) (pure tt) (call-Always (drv.unbind r i))
              (λ s p. p))
            (λ _. unbind_from-Safely n (i + 1) b r))

  unbind_columns-Safely : (this : ℕ) → Safely (unbind_columns drv this)
  unfolding unbind_columns
  unbind_columns-Safely this = read-Always this _ λ o.
      bind-Always IsSafe (deref o.result) _ (deref-Always o.result)
        (λ r. unbind_from-Safely o.num_columns 0 false r)

  unbind_if_needed-Safely : (this : ℕ) → Safely (unbind_if_needed drv this)
  unfolding unbind_if_needed
  unbind_if_needed-Safely this =
      bind-Always IsSafe (get_data_any_order drv) _ get_data_any_order-Safely λ any.
        if-Always IsSafe any (pure tt) _ (λ s p. p)
          (catch-Always IsSafe (unbind_columns drv this) _ (unbind_columns-Safely this)
            λ e s p. ground arith)

  module _ (rows : Rows D) (headers : Headers D) (mapping : BigintMap) where
    signal_unknown-Safely :
        (b : Bool) (r i : ℕ) → Safely (signal_unknown drv rows headers mapping b r i)
    unfolding signal_unknown
    signal_unknown-Safely false r i = λ s p. p
    signal_unknown-Safely true r i =
        bind-Always IsSafe (call (headers.column_name r i)) _
          (call-Always (headers.column_name r i)) (λ name. notify-Always unknown_field_type)

    column_types-Safely : (n i r : ℕ) → Safely (column_types drv rows headers mapping n i r)
    unfolding column_types
    column_types-Safely zero i r = λ s p. p
    column_types-Safely (suc n) i r =
        bind-Always IsSafe (call (headers.column_datatype r i)) _
          (call-Always (headers.column_datatype r i))
          λ t.
            bind-Always IsSafe
              (signal_unknown drv rows headers mapping (column_type mapping t).1 r i) _
              (signal_unknown-Safely (column_type mapping t).1 r i)
              λ _.
                bind-Always IsSafe (column_types drv rows headers mapping n (i + 1) r) _
                  (column_types-Safely n (i + 1) r) (λ ts s p. p)

    column_names-Safely : (n i r : ℕ) → Safely (column_names drv rows headers mapping n i r)
    unfolding column_names
    column_names-Safely zero i r = λ s p. p
    column_names-Safely (suc n) i r =
        bind-Always IsSafe (call (headers.column_name r i)) _
          (call-Always (headers.column_name r i))
          λ name.
            bind-Always IsSafe (call (headers.make_string name)) _
              (call-Always (headers.make_string name))
              λ encoded.
                bind-Always IsSafe (column_names drv rows headers mapping n (i + 1) r) _
                  (column_names-Safely n (i + 1) r) (λ ts s p. p)

    in_cursor-Safely :
        {A : Type 0} (this : ℕ) (m : M (Cursor D) A)
        → Safely (in_cursor drv rows headers mapping this m)
    unfolding in_cursor
    in_cursor-Safely this m s p = elim (Option-cases (s.objects this)) [
      | inl e ↦ rw e p
      | inr (o, e) ↦ rw e (
          put_object-safe this o
            (record o {
              rows_fetched = (m (cursor_of drv rows headers mapping o s)).1.rows_fetched;
              complete = (m (cursor_of drv rows headers mapping o s)).1.complete;
            })
            (record s { driver = (m (cursor_of drv rows headers mapping o s)).1.driver }) e refl
            (IsSafe-same drv s
              (record s { driver = (m (cursor_of drv rows headers mapping o s)).1.driver }) refl
              refl p))
    ]

    read_frame-Safely :
        (fuel this : ℕ) (n_max : ℤ) → Safely (read_frame drv rows headers mapping fuel this n_max)
    unfolding read_frame
    read_frame-Safely fuel this n_max = read-Always this _ λ o.
        bind-Always IsSafe (deref o.result) _ (deref-Always o.result) λ r.
          bind-Always IsSafe (column_types drv rows headers mapping o.num_columns 0 r) _
            (column_types-Safely o.num_columns 0 r)
            λ types.
              bind-Always IsSafe (column_names drv rows headers mapping o.num_columns 0 r) _
                (column_names-Safely o.num_columns 0 r)
                λ names.
                  bind-Always IsSafe
                    (in_cursor drv rows headers mapping this
                      (result_to_dataframe rows r fuel types n_max))
                    _ (in_cursor-Safely this (result_to_dataframe rows r fuel types n_max))
                    (λ c s p. p)

    pub fetch-Safely :
        (fuel this : ℕ) (n_max : ℤ) → Safely (fetch drv rows headers mapping fuel this n_max)
    unfolding fetch fetch_bound
    fetch-Safely fuel this n_max = read-Always this _ λ o.
        if-Always IsSafe (not o.bound) _ _ (λ s p. p)
          (if-Always IsSafe (o.num_columns == 0) _ _ (λ s p. p)
            (bind-Always IsSafe (unbind_if_needed drv this) _ (unbind_if_needed-Safely this) λ _.
              catch-Always IsSafe (read_frame drv rows headers mapping fuel this n_max) _
                (read_frame-Safely fuel this n_max)
                λ e.
                  bind-Always IsSafe (set_current_result drv none) _ set_current_result-Safely
                    (λ _ s p. p)))
