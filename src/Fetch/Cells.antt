-- ===== src/Fetch/Cells.antt =====
-- What the `assign_` functions read: one cell for each column of the row that the cursor is on.
use odbc.Prelude.{
  ℕ, ◌≡◌, refl, subst, ◌∙◌, ap, Bool, true, false, ◌&&◌, Option, none, some, if◌then◌else◌, arith,
  Bool-cases, inl, inr,
}
use odbc.Outcome.{Outcome, M, Sat, bind-Sat, Sat-mono, pure, ◌>>=◌}
use odbc.Nanodbc.{
  Reply, done, Text, TimestampOffset, na_real, seconds, days_of, CType, int_c, int64_c, double_c,
  string_c, timestampoffset_c, date_c, time_c, bytes_c, CValue, Rows,
}
use odbc.Types.{
  Reader, assign_date, assign_datetime, assign_double, assign_integer, assign_integer64,
  assign_time, assign_string, assign_ustring, assign_logical, assign_raw,
}
use odbc.Fetch.{
  Cell, integer, real, text, bytes, Cursor, na_integer, na_integer64, call, safe_get,
  get_unless_null, time_cell, datetime_cell, encoded_cell, read_cell,
}
use odbc.Fetch.Contract.{Contract}

module _ {D : Type 0} {rows : Rows D} {r : ℕ} {R : Type 0} (k : Contract rows r R) where
  -- The cursor has not moved, nor the counters.
  pub record Unmoved (c c' : Cursor D) : Type 0 where
    pub same_view : k.view c'.driver ≡ k.view c.driver
    pub same_count : c'.rows_fetched ≡ c.rows_fetched
    pub same_complete : c'.complete ≡ c.complete

  -- A call returns `a` and moves nothing.
  abbrev pub Gives : {A : Type 0} → Cursor D → A → Outcome A × Cursor D → Type 0
  Gives c a = Sat (λ v c'. (v ≡ a) × Unmoved c c') (λ _ _. ⊥)

  pub call-Gives :
      {A : Type 0} (c : Cursor D) (a : A) (f : D → Reply A × D)
      → (f c.driver).0 ≡ done a
      → k.view (f c.driver).1 ≡ k.view c.driver
      → Gives c a (call f c)
  call-Gives c a f h e = ground arith

  abbrev pub On : R → Cursor D → Type 0
  On x c = (k.view c.driver).current ≡ some x

  Unmoved-trans : (c c' c'' : Cursor D) → Unmoved c c' → Unmoved c' c'' → Unmoved c c''
  Unmoved-trans c c' c'' u v = record {
    same_view = v.same_view ∙ u.same_view;
    same_count = v.same_count ∙ u.same_count;
    same_complete = v.same_complete ∙ u.same_complete;
  }

  pub Unmoved-refl : (c : Cursor D) → Unmoved c c
  Unmoved-refl c = record { same_view = refl; same_count = refl; same_complete = refl }

  -- Go on after a call that moves nothing.
  pub then_Gives :
      {A B : Type 0} (c : Cursor D) (a : A) (b : B) (m : M (Cursor D) A) (f : A → M (Cursor D) B)
      → Gives c a (m c)
      → ((c' : Cursor D) → Unmoved c c' → Gives c' b (f a c'))
      → Gives c b ((m >>= f) c)
  then_Gives c a b m f h g =
      bind-Sat (λ v c'. (v ≡ a) × Unmoved c c') (λ v c'. (v ≡ b) × Unmoved c c') (λ _ _. ⊥) m f c h
        (λ v c' e. rw e.0 (
          Sat-mono (λ v c''. (v ≡ b) × Unmoved c' c'') (λ v c''. (v ≡ b) × Unmoved c c'') (λ _ _. ⊥)
            (λ _ _. ⊥) (f a c') (g c' e.1) (λ v c'' p. (p.0, Unmoved-trans c c' c'' e.1 p.1))
            (λ _ _ b. b)))

  pub On-Unmoved : (x : R) (c c' : Cursor D) → On x c → Unmoved c c' → On x c'
  On-Unmoved x c c' h u = ap (λ v. v.current) u.same_view ∙ h

  abbrev encoded_text : Option Text → Cell
  encoded_text none = text none
  encoded_text (some s) = text (some (k.encoded s))

  encoded_cell-Gives :
      (o : Option Text) (c : Cursor D) → Gives c (encoded_text o) (encoded_cell rows r o c)
  unfolding encoded_cell
  encoded_cell-Gives none c = (refl, Unmoved-refl c)
  encoded_cell-Gives (some s) c =
      then_Gives c (k.encoded s) _ (call (rows.make_sexp s)) _
        (let e = k.make_sexp_done c.driver s in call-Gives c _ (rows.make_sexp s) e.0 e.1)
        (λ c' u. (refl, Unmoved-refl c'))

  abbrev datetime_value : Option TimestampOffset → Cell
  datetime_value none = real na_real
  datetime_value (some t) = real (k.time_value t)

  datetime_cell-Gives :
      (o : Option TimestampOffset) (c : Cursor D)
      → Gives c (datetime_value o) (datetime_cell rows r o c)
  unfolding datetime_cell
  datetime_cell-Gives none c = (refl, Unmoved-refl c)
  datetime_cell-Gives (some t) c =
      then_Gives c (k.time_value t) _ (call (rows.time_of t)) _
        (let e = k.time_of_done c.driver t in call-Gives c _ (rows.time_of t) e.0 e.1)
        (λ c' u. (refl, Unmoved-refl c'))

  module _ (x : R) (col : ℕ) where
    -- A call returns `a`, moves nothing, and leaves the null flag of the column as `b`.
    abbrev Tells : {A : Type 0} → Cursor D → A → Bool → Outcome A × Cursor D → Type 0
    Tells c a b = Sat (λ v c'. (v ≡ a) × Unmoved c c' × (k.told c'.driver col ≡ b)) (λ _ _. ⊥)

    call-Tells :
        {A : Type 0} (c : Cursor D) (a : A) (b : Bool) (f : D → Reply A × D)
        → (f c.driver).0 ≡ done a
        → k.view (f c.driver).1 ≡ k.view c.driver
        → k.told (f c.driver).1 col ≡ b
        → Tells c a b (call f c)
    call-Tells c a b f h e g = ground arith

    -- Go on after it.
    then_Tells :
        {A B : Type 0} (c : Cursor D) (a : A) (t : Bool) (b : B) (m : M (Cursor D) A)
        (f : A → M (Cursor D) B)
        → Tells c a t (m c)
        → ((c' : Cursor D) → Unmoved c c' → k.told c'.driver col ≡ t → Gives c' b (f a c'))
        → Gives c b ((m >>= f) c)
    then_Tells c a t b m f h g =
        bind-Sat (λ v c'. (v ≡ a) × Unmoved c c' × (k.told c'.driver col ≡ t))
          (λ v c'. (v ≡ b) × Unmoved c c') (λ _ _. ⊥) m f c h
          (λ v c' e. rw e.0 (
            Sat-mono (λ v c''. (v ≡ b) × Unmoved c' c'') (λ v c''. (v ≡ b) × Unmoved c c'')
              (λ _ _. ⊥) (λ _ _. ⊥) (f a c') (g c' e.1 e.2)
              (λ v c'' p. (p.0, Unmoved-trans c c' c'' e.1 p.1)) (λ _ _ b. b)))

    is_null-Tells :
        (c : Cursor D)
        → On x c
        → Tells c
            (k.null x col && k.told c.driver col)
            (k.told c.driver col)
            (call (rows.is_null r col) c)
    is_null-Tells c h =
        let e = k.is_null_done c.driver x col h in call-Tells c _ _ (rows.is_null r col) e.0 e.1 e.2

    and-true : (b t : Bool) → t ≡ true → (b && t) ≡ b
    and-true b t e = ground arith

    -- Once the value has been asked for.
    is_null-known :
        (c : Cursor D)
        → On x c
        → k.told c.driver col ≡ true
        → Tells c (k.null x col) (k.told c.driver col) (call (rows.is_null r col) c)
    is_null-known c h e =
        subst (λ b. Tells c b (k.told c.driver col) (call (rows.is_null r col) c))
          (and-true (k.null x col) (k.told c.driver col) e) (is_null-Tells c h)

    -- A null, or the value.
    abbrev pub field : (t : CType) → Option (CValue t)
    field t = if k.null x col then none else some (k.value t x col)

    or_fallback :
        {A : Type 0} (b : Bool) (f v w : A)
        → (b ≡ false → v ≡ w)
        → (if b then f else v) ≡ (if b then f else w)
    or_fallback true f v w h = refl
    or_fallback false f v w h = h refl

    or_none :
        {A : Type 0} (b : Bool) (v w : A)
        → (b ≡ false → v ≡ w)
        → (if b then none else some v) ≡ (if b then none else some w)
    or_none true v w h = refl
    or_none false v w h = ap some (h refl)

    and-left : (b t : Bool) → (b && t) ≡ true → b ≡ true
    and-left b t e = ground arith

    -- The value has been asked for, and the flag is asked for after it.
    asked_after :
        {A B : Type 0} (c : Cursor D) (v : A) (b : B) (f : D → Reply A × D) (g : A → Bool → B)
        → On x c
        → (f c.driver).0 ≡ done v
        → k.view (f c.driver).1 ≡ k.view c.driver
        → k.told (f c.driver).1 col ≡ true
        → g v (k.null x col) ≡ b
        → Gives c b ((do v ← call f; n ← call (rows.is_null r col); pure (g v n)) c)
    asked_after c v b f g h run same told e =
        then_Tells c v true b (call f) _ (call-Tells c v true f run same told) λ c' u t.
          then_Tells c' (k.null x col) _ b (call (rows.is_null r col)) _
            (is_null-known c' (On-Unmoved x c c' h u) t) λ c'' u' t'. (e, Unmoved-refl c'')

    safe_get-Gives :
        (t : CType) (fallback : CValue t) (c : Cursor D)
        → On x c
        → Gives c
            (if k.null x col then fallback else k.value t x col)
            (safe_get rows r t col fallback c)
    unfolding safe_get
    safe_get-Gives t fallback c h = elim (Bool-cases (k.null x col && k.told c.driver col)) [
      | inl e ↦
          let (run, same, told) = k.fallback_done c.driver x t col fallback h e in
          asked_after c fallback _ (rows.fetch_value_or t r col fallback)
            (λ v n. if n then fallback else v) h run same told
            (rw (and-left (k.null x col) (k.told c.driver col) e) refl)
      | inr e ↦
          let (v, run, right, same, told) = k.fetch_value_or_done c.driver x t col fallback h e in
          asked_after c v _ (rows.fetch_value_or t r col fallback)
            (λ v n. if n then fallback else v) h run same told
            (or_fallback (k.null x col) fallback v (k.value t x col) right)
    ]

    not_reported :
        (t : CType) (c : Cursor D)
        → On x c
        → (k.null x col && k.told c.driver col) ≡ false
        → Gives c (field t) (
            (do
              v ← call (rows.fetch_value t r col)
              null' ← call (rows.is_null r col)
              pure (if null' then none else some v))
              c)
    not_reported t c h e =
        let (v, run, right, same, told) = k.fetch_value_done c.driver x t col h e in
        asked_after c v (field t) (rows.fetch_value t r col) (λ v n. if n then none else some v) h
          run same told (or_none (k.null x col) v (k.value t x col) right)

    get_unless_null-Gives :
        (t : CType) (c : Cursor D) → On x c → Gives c (field t) (get_unless_null rows r t col c)
    unfolding get_unless_null
    get_unless_null-Gives t c h =
        then_Tells c _ _ (field t) (call (rows.is_null r col)) _ (is_null-Tells c h) λ c' u told.
          elim (Bool-cases (k.null x col && k.told c.driver col)) [
            | inl e ↦
                rw (e, and-left (k.null x col) (k.told c.driver col) e) (refl, Unmoved-refl c')
            | inr e ↦
                rw e
                  (not_reported t c' (On-Unmoved x c c' h u) (ap (λ b. k.null x col && b) told ∙ e))
          ]

    -- The cell of a column that is not null, under each of the `assign_` functions.
    abbrev pub value_cell : Reader → Cell
    value_cell assign_integer = integer (k.value int_c x col)
    value_cell assign_integer64 = integer (k.value int64_c x col)
    value_cell assign_double = real (k.value double_c x col)
    value_cell assign_logical = integer (k.value int_c x col)
    value_cell assign_string = text (some (k.encoded (k.value string_c x col)))
    value_cell assign_ustring = text (some (k.value string_c x col))
    value_cell assign_datetime = real (k.time_value (k.value timestampoffset_c x col))
    value_cell assign_date = real (days_of (seconds (rows.time_of_date (k.value date_c x col))))
    value_cell assign_time = time_cell (some (k.value time_c x col))
    value_cell assign_raw = bytes (k.value bytes_c x col)

    -- R's missing value of the column's type; a raw column keeps the NULL of the new list.
    abbrev pub missing_cell : Reader → Option Cell
    missing_cell assign_integer = some (integer na_integer)
    missing_cell assign_integer64 = some (integer na_integer64)
    missing_cell assign_double = some (real na_real)
    missing_cell assign_logical = some (integer na_integer)
    missing_cell assign_string = some (text none)
    missing_cell assign_ustring = some (text none)
    missing_cell assign_datetime = some (real na_real)
    missing_cell assign_date = some (real (days_of na_real))
    missing_cell assign_time = some (real na_real)
    missing_cell assign_raw = none

    abbrev pub cell_of : Reader → Option Cell
    cell_of f = if k.null x col then missing_cell f else some (value_cell f)

    in_cell :
        {A : Type 0} (f : A → Cell) (b : Bool) (p q : A)
        → some (f (if b then p else q)) ≡ (if b then some (f p) else some (f q))
    in_cell f true p q = refl
    in_cell f false p q = refl

    from_safe :
        (t : CType) (fallback : CValue t) (f : CValue t → Cell) (c : Cursor D)
        → On x c
        → Gives c
            (if k.null x col then some (f fallback) else some (f (k.value t x col)))
            ((do v ← safe_get rows r t col fallback; pure (some (f v))) c)
    from_safe t fallback f c h =
        then_Gives c _ _ (safe_get rows r t col fallback) _ (safe_get-Gives t fallback c h)
          (λ c' u. (in_cell f (k.null x col) fallback (k.value t x col), Unmoved-refl c'))

    from_unless_null :
        (t : CType) (b : Option Cell) (g : Option (CValue t) → M (Cursor D) (Option Cell))
        (c : Cursor D)
        → On x c
        → ((c' : Cursor D) → Gives c' b (g (field t) c'))
        → Gives c b ((get_unless_null rows r t col >>= g) c)
    from_unless_null t b g c h e =
        then_Gives c (field t) b (get_unless_null rows r t col) g (get_unless_null-Gives t c h)
          (λ c' u. e c')

    -- Each `assign_` function reads the cell of its column, and moves neither cursor nor counters.
    pub read_cell-Gives :
        (f : Reader) (c : Cursor D) → On x c → Gives c (cell_of f) (read_cell rows r f col c)
    unfolding read_cell
    read_cell-Gives assign_integer c h = from_safe int_c na_integer integer c h
    read_cell-Gives assign_integer64 c h = from_safe int64_c na_integer64 integer c h
    read_cell-Gives assign_double c h = from_safe double_c na_real real c h
    read_cell-Gives assign_logical c h = from_safe int_c na_integer integer c h
    read_cell-Gives assign_ustring c h =
        from_unless_null string_c _ _ c h (λ c'. (ustring (k.null x col), Unmoved-refl c'))
      where
        ustring :
            (b : Bool)
            → some (text (if b then none else some (k.value string_c x col)))
              ≡ (if b then some (text none) else some (text (some (k.value string_c x col))))
        ustring true = refl
        ustring false = refl
    read_cell-Gives assign_string c h = from_unless_null string_c _ _ c h (λ c'.
        then_Gives c' (encoded_text (field string_c)) _ (encoded_cell rows r (field string_c)) _
          (encoded_cell-Gives (field string_c) c') (λ c'' u. (ground arith, Unmoved-refl c'')))
    read_cell-Gives assign_datetime c h = from_unless_null timestampoffset_c _ _ c h (λ c'.
        then_Gives c' (datetime_value (field timestampoffset_c)) _
          (datetime_cell rows r (field timestampoffset_c)) _
          (datetime_cell-Gives (field timestampoffset_c) c')
          (λ c'' u. (ground arith, Unmoved-refl c'')))
    read_cell-Gives assign_date c h =
        from_unless_null date_c _ _ c h (λ c'. (ground arith, Unmoved-refl c'))
    read_cell-Gives assign_time c h =
        from_unless_null time_c _ _ c h (λ c'. (ground arith, Unmoved-refl c'))
    read_cell-Gives assign_raw c h =
        from_unless_null bytes_c _ _ c h (λ c'. (ground arith, Unmoved-refl c'))
