-- ===== src/Bind/Tables.antt =====
-- The life of table-valued parameters: those that `bind_df` makes are gone when it ends.
use odbc.Prelude.{ℕ, ◌+◌, ◌≡◌, refl, ◌∙◌, subst, List, [], ◌∷◌}
use odbc.Outcome.{M, Error, ok}
use odbc.Outcome.Partial.{Post, Triple, bind-Triple, catch-Triple, throw-Triple}
use odbc.Nanodbc.{Reply, done, fails}
use odbc.Session.{Session, answer, call}
use odbc.Types.{RType, dataframe_t, parameter_types}
use odbc.Params.{
  Bound, Target, table, Param, column, frame, Params, nil, cons, Binder, Zones, Memory,
}
use odbc.Bind.{Binding, Buffers, tvp}
use odbc.Bind.Frames.{
  with_table, bind_df, bind_columns, bind_all, frame_only, first_length, shapes, drop_table,
}
use odbc.Bind.Ends.{Settles, Post-Settles}
use odbc.Bind.Ends.Frames.{bind_all-Ends}
use odbc.Bind.Stable.{measured-Keeps, Stable, Keeps, same-Keeps, Around}
use odbc.Bind.Stable.Vectors.{bind_vector-Keeps}
use odbc.Bind.Stable.Triples.{kept, in_session-Triple}

module _ {D : Type 0} (tables : D → List ℕ) where
  -- A table lives, unless the call has failed.
  abbrev pub Made : List ℕ → Reply ℕ × D → Type 0
  Made ps (done p, d) = tables d ≡ p ∷ ps
  Made ps (fails e, d) = tables d ≡ ps

-- What nanodbc documents of table-valued parameters: the constructor makes one, the destructor ends
-- it, and no other call does either. The calls may fail.
pub record Tables {D : Type 0} (binder : Binder D) : Type 0 where
  pub tables : D → List ℕ
  pub new_table_makes :
      (st col n : ℕ) (d : D) → Made tables (tables d) (binder.new_table st col n d)
  pub drop_table_ends :
      (p : ℕ) (ps : List ℕ) (d : D) → tables d ≡ p ∷ ps → tables (binder.drop_table p d) ≡ ps
  pub close_table_same : (p : ℕ) (d : D) → tables (binder.close_table p d).1 ≡ tables d
  pub bind_same :
      (obj : Target) (col : ℕ) (b : Bound) (d : D) → tables (binder.bind obj col b d).1 ≡ tables d
  pub parameter_type_same :
      (obj : Target) (col : ℕ) (d : D) → tables (binder.parameter_type obj col d).1 ≡ tables d
  pub parameter_scale_same :
      (obj : Target) (col : ℕ) (d : D) → tables (binder.parameter_scale obj col d).1 ≡ tables d

module _ {D : Type 0} {binder : Binder D} (l : Tables binder) where
  -- These tables live.
  abbrev pub Live : List ℕ → Session D → Type 0
  Live ps s = l.tables s.driver ≡ ps

  -- They do, however the call ends.
  abbrev Balanced {ℓ} : {A : Type ℓ} → List ℕ → M (Binding D) A → Type ℓ
  Balanced ps m = Triple (Around (Live ps)) (λ _ s. Live ps s.session) (λ _ s. Live ps s.session) m

  call-Keeps {ℓ} :
      {A : Type ℓ} (ps : List ℕ) (f : D → Reply A × D)
      → ((d : D) → l.tables (f d).1 ≡ l.tables d)
      → Keeps (Live ps) (call f)
  call-Keeps ps f h = measured-Keeps l.tables ps f (λ d p. h d ∙ p)

  Live-Stable : (ps : List ℕ) → Stable (Live ps) binder
  Live-Stable ps = record {
    bind = λ obj col b. call-Keeps ps _ (l.bind_same obj col b);
    parameter_type = λ obj col. call-Keeps ps _ (l.parameter_type_same obj col);
    parameter_scale = λ obj col. call-Keeps ps _ (l.parameter_scale_same obj col);
    told = λ n. record { after = λ s p. p };
  }

  new_table_answered :
      (ps : List ℕ) (s : Session D) (r : Reply ℕ × D)
      → Made l.tables ps r
      → Post (λ p s'. Live (p ∷ ps) s') (λ _ s'. Live ps s') (answer s r)
  new_table_answered ps s (done p, d) h = h
  new_table_answered ps s (fails e, d) h = h

  new_table-Live :
      (ps : List ℕ) (st col n : ℕ)
      → Triple
          (Live ps)
          (λ p s. Live (p ∷ ps) s)
          (λ _ s. Live ps s)
          (call (binder.new_table st col n))
  new_table-Live ps st col n = record {
    after = λ s p. new_table_answered ps s (binder.new_table st col n s.driver) (
        subst (λ qs. Made l.tables qs (binder.new_table st col n s.driver)) p
          (l.new_table_makes st col n s.driver));
  }

  module _ (zones : Zones) (mem : Memory) (timezone st : ℕ) where
    drop_table-Live :
        (p : ℕ) (ps : List ℕ) (E : Error → Binding D → Type 0)
        → Triple
            (Around (Live (p ∷ ps)))
            (λ _ s. Live ps s.session)
            E
            (drop_table binder zones mem timezone st p)
    drop_table-Live p ps E = record { after = λ s q. l.drop_table_ends p ps s.session.driver q }

    with_table-Balanced :
        (p : ℕ) (ps : List ℕ) (m : M (Binding D) (Unit {0}))
        → Balanced (p ∷ ps) m
        → Triple
            (Around (Live (p ∷ ps)))
            (λ _ s. Live ps s.session)
            (λ _ s. Live ps s.session)
            (with_table binder zones mem timezone st p m)
    unfolding with_table
    with_table-Balanced p ps m h =
        bind-Triple (λ _ s. Live (p ∷ ps) s.session)
          (catch-Triple (λ _ s. Live (p ∷ ps) s.session)
            (bind-Triple (λ _ s. Live (p ∷ ps) s.session) h
              λ _.
                in_session-Triple _ _ _
                  (kept (call-Keeps (p ∷ ps) (binder.close_table p) (l.close_table_same p))))
            (λ e.
              bind-Triple (λ _ s. Live ps s.session)
                (drop_table-Live p ps (λ _ s. Live ps s.session)) (λ _. throw-Triple e)))
          (λ _. drop_table-Live p ps (λ _ s. Live ps s.session))

    first_length-Balanced : (ps : List ℕ) (xs : Params) → Balanced ps (first_length xs)
    first_length-Balanced ps nil = kept (same-Keeps _)
    first_length-Balanced ps (cons x xs) = kept (same-Keeps _)

    bind_df-Balanced :
        (ps : List ℕ) (xs : Params) (col : ℕ)
        (columns : ℕ → List RType → ℕ → M (Binding D) (Unit {0}))
        → ((p : ℕ) (types : List RType) (nrows : ℕ) → Balanced (p ∷ ps) (columns p types nrows))
        → Balanced ps (bind_df binder zones mem timezone st xs col columns)
    unfolding bind_df
    bind_df-Balanced ps xs col columns h =
        bind-Triple (λ _ s. Live ps s.session) (kept (same-Keeps (parameter_types (shapes xs))))
          λ types.
            bind-Triple (λ _ s. Live ps s.session) (first_length-Balanced ps xs)
              λ nrows.
                bind-Triple (λ p s. Live (p ∷ ps) s.session)
                  (in_session-Triple _ _ _ (new_table-Live ps st col nrows))
                  (λ p. with_table-Balanced p ps (columns p types nrows) (h p types nrows))

    frame_only-Balanced :
        (ps : List ℕ) (t : RType) (m : M (Binding D) (Unit {0}))
        → Balanced ps m
        → Balanced ps (frame_only binder zones mem timezone st t m)
    frame_only-Balanced ps dataframe_t m h = h
    frame_only-Balanced ps t m h = record { after = λ s p. p }

    mutual
      unfolding bind_columns bind_all

      bind_columns-Balanced :
          (ps : List ℕ) (obj : Target) (to : Buffers) (t : RType) (x : Param) (col start size : ℕ)
          → Balanced ps (bind_columns binder zones mem timezone st obj to t x col start size)
      bind_columns-Balanced ps obj to t (column x class) col start size =
          kept
            (bind_vector-Keeps (Live-Stable ps) zones mem timezone obj to t x class col start size)
      bind_columns-Balanced ps obj to t (frame xs) col start size = frame_only-Balanced ps t _ (
          bind_df-Balanced ps xs col _
            λ p types nrows. bind_all-Balanced (p ∷ ps) (table p) (tvp col) types xs 0 0 nrows)

      bind_all-Balanced :
          (ps : List ℕ) (obj : Target) (to : Buffers) (types : List RType) (xs : Params)
          (col start size : ℕ)
          → Balanced ps (bind_all binder zones mem timezone st obj to types xs col start size)
      bind_all-Balanced ps obj to types nil col start size = kept (same-Keeps (ok tt))
      bind_all-Balanced ps obj to [] (cons x xs) col start size = kept (same-Keeps (ok tt))
      bind_all-Balanced ps obj to (t ∷ ts) (cons x xs) col start size =
          bind-Triple (λ _ s. Live ps s.session)
            (bind_columns-Balanced ps obj to t x col start size)
            λ _. bind_all-Balanced ps obj to ts xs (col + 1) start size

    -- The loop over the parameters, data frames within data frames included, leaves as many
    -- table-valued parameters alive as before, and the same ones, whether it returns or throws and
    -- whichever calls of nanodbc fail: each that `bind_df` makes is destroyed once. A crash, such as a
    -- read past the end of a vector, is not excluded.
    pub bind_all-Tables :
        (obj : Target) (to : Buffers) (types : List RType) (xs : Params) (col start size : ℕ)
        (s : Binding D)
        → Settles
            (λ _ s'. l.tables s'.session.driver ≡ l.tables s.session.driver)
            (λ _ s'. l.tables s'.session.driver ≡ l.tables s.session.driver)
            (bind_all binder zones mem timezone st obj to types xs col start size s)
    bind_all-Tables obj to types xs col start size s =
        Post-Settles (λ _ s'. l.tables s'.session.driver ≡ l.tables s.session.driver)
          (λ _ s'. l.tables s'.session.driver ≡ l.tables s.session.driver) _
          ((bind_all-Balanced (l.tables s.session.driver) obj to types xs col start size).after s
            refl)
          ((bind_all-Ends binder zones mem timezone st obj to types xs col start size).ends s)
