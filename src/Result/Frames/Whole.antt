-- ===== src/Result/Frames/Whole.antt =====
-- A fetch from a bound result: the data frame, and what is left.
use odbc.Prelude.{
  ℕ, ◌+◌, ◌^◌, ◌<◌, ◌≤◌, ◌≡◌, refl, sym, ◌∙◌, true, false, inl, inr, Option, none, some, List, [],
  ◌∷◌, take, drop, length, ◌==◌,
}
use odbc.Bind.Executes.{self}
use odbc.Prelude.Int.{ℤ, is_negative}
use odbc.Outcome.{
  Outcome, ok, throws, crash, out_of_fuel, pure, throw, ◌>>◌, Sat, bind-Sat, catch-Sat, Sat-mono,
}
use odbc.Outcome.Returns.{Returns-Sat}
use odbc.Nanodbc.{Nanodbc, Rows}
use odbc.Session.{Session, Object}
use odbc.Connection.{set_current_result}
use odbc.Types.{RType, BigintMap}
use odbc.Fetch.{Cursor, Column}
use odbc.Fetch.Contract.{Contract, View}
use odbc.Fetch.Advance.{Reads}
use odbc.Fetch.Held.{AllHold}
use odbc.Fetch.Round.{later_sets}
use odbc.Fetch.Loop.{result_to_dataframe, initial_size}
use odbc.Fetch.Whole.{request, Awaits, result_to_dataframe_lem}
use odbc.Result.Fetches.{
  Headers, Frame, cursor_of, from_cursor, in_cursor, read_frame, fetch_bound, fetch,
}
use odbc.Result.Frames.{
  Described, types_from, names_from, types-AllReadable, column_types-Returns, column_names-Returns,
  object_at-Returns, result-Returns, unbind_if_needed-Returns,
}

module _ {D : Type 0} {rows : Rows D} {r : ℕ} {R : Type 0} (k : Contract rows r R) where
  -- What is awaited depends on the view and the counters only.
  Reads-same :
      (us : List R) (c c' : Cursor D)
      → k.view c'.driver ≡ k.view c.driver
      → c'.complete ≡ c.complete
      → Reads k us c
      → Reads k us c'
  Reads-same [] c c' e f p = f ∙ p
  Reads-same (x ∷ us) c c' e f (p, q, w) = (f ∙ p, rw e q, rw e w)

module _ {D : Type 0} {drv : Nanodbc D} {rows : Rows D} {r : ℕ} {R : Type 0} {headers : Headers D}
    {k : Contract rows r R} (h : Described drv headers k) (mapping : BigintMap) where
  -- The types of so many columns.
  abbrev pub types_of : ℕ → List RType
  types_of n = types_from h mapping n 0

  -- How many of the rows `us` a call returns, from so many columns.
  abbrev pub count : ℕ → ℤ → List R → ℕ
  count n n_max us = request k (types_of n) (types-AllReadable h mapping n 0) n_max us

  abbrev pub cursor : Object → Session D → Cursor D
  cursor o s = cursor_of drv rows headers mapping o s

  -- The rows `us` are to be returned from the result.
  abbrev pub Waits : ℕ → List R → Cursor D → Type 0
  Waits n us c = Awaits k (types_of n) (types-AllReadable h mapping n 0) us c

  abbrev pub sets_left : ℕ → Cursor D → ℕ
  sets_left n c = later_sets k (types_of n) (types-AllReadable h mapping n 0) c

  -- So many rows have been fetched from the result, and the rows `us` are still to be.
  abbrev pub Left : ℕ → ℕ → List R → Session D → Type 0
  Left this fetched us s =
      (o : Object) × (s.objects this ≡ some o)
      × (o.rows_fetched ≡ fetched)
      × Reads k us (cursor o s)

  -- The data frame has the columns' names, and the cells of these rows.
  abbrev pub Shows : ℕ → List R → Frame → Type 0
  Shows n us f = (f.names ≡ names_from h mapping n 0) × AllHold k (types_of n) 0 us f.columns

  module _ (this : ℕ) (o : Object) (executed : o.result ≡ some r) (us : List R) (n_max : ℤ) where
    abbrev shown : ℕ
    shown = count o.num_columns n_max us

    abbrev Goal : Frame → Session D → Type 0
    Goal f s =
        Shows o.num_columns (take shown us) f × Left this (o.rows_fetched + shown) (drop shown us) s

    from_cursor-Left :
        (s : Session D) (x : Outcome (List Column) × Cursor D)
        → Sat
            (λ out c.
              AllHold k (types_of o.num_columns) 0 (take shown us) out
              × Reads k (drop shown us) c
              × (c.rows_fetched ≡ o.rows_fetched + shown))
            (λ _ _. ⊥)
            x
        → Sat
            (λ out s'.
              AllHold k (types_of o.num_columns) 0 (take shown us) out
              × Left this (o.rows_fetched + shown) (drop shown us) s')
            (λ _ _. ⊥)
            (x.0, from_cursor drv rows headers mapping this o s x.1)
    from_cursor-Left s (ok out, c) (held, reads, counted) = (
      held,
      (
        record o { rows_fetched = c.rows_fetched; complete = c.complete },
        rw (self this) refl,
        counted,
        reads,
      ),
    )
    from_cursor-Left s (throws e, c) p = p
    from_cursor-Left s (crash, c) p = p
    from_cursor-Left s (out_of_fuel, c) p = p

    -- The loop over the rows, from a state in which they are awaited.
    rows-Left :
        (fuel : ℕ) (s : Session D)
        → s.objects this ≡ some o
        → Waits o.num_columns us (cursor o s)
        → 0 < initial_size n_max
        → length us + sets_left o.num_columns (cursor o s) < fuel
        → (is_negative n_max ≡ true → length us ≤ 2 ^ 30)
        → Sat
            (λ out s'.
              AllHold k (types_of o.num_columns) 0 (take shown us) out
              × Left this (o.rows_fetched + shown) (drop shown us) s')
            (λ _ _. ⊥)
            (in_cursor drv rows headers mapping this
              (result_to_dataframe rows r fuel (types_of o.num_columns) n_max)
              s)
    unfolding in_cursor
    rows-Left fuel s live waits pos enough few = rw live (
        from_cursor-Left s
          (result_to_dataframe rows r fuel (types_of o.num_columns) n_max (cursor o s))
          (Sat-mono _ _ (λ _ _. ⊥) (λ _ _. ⊥)
            (result_to_dataframe rows r fuel (types_of o.num_columns) n_max (cursor o s))
            (result_to_dataframe_lem k (types_of o.num_columns)
              (types-AllReadable h mapping o.num_columns 0) us fuel n_max (cursor o s) waits pos
              enough few)
            (λ _ _ q. (q.0, q.1, q.2)) (λ _ _ b. b)))

    Waits-same :
        (s s' : Session D)
        → k.view s'.driver ≡ k.view s.driver
        → Waits o.num_columns us (cursor o s)
        → Waits o.num_columns us (cursor o s')
    Waits-same s s' e (inl (f, p)) = inl (f, rw e p)
    Waits-same s s' e (inr (f, p)) = inr (f, Reads-same k us (cursor o s) (cursor o s') e refl p)

    read_frame-Goal :
        (v : View R) (os : ℕ → Option Object) (fuel : ℕ) (s : Session D)
        → os this ≡ some o
        → Waits o.num_columns us (cursor o s)
        → 0 < initial_size n_max
        → length us + sets_left o.num_columns (cursor o s) < fuel
        → (is_negative n_max ≡ true → length us ≤ 2 ^ 30)
        → k.view s.driver ≡ v
        → s.objects ≡ os
        → Sat Goal (λ _ _. ⊥) (read_frame drv rows headers mapping fuel this n_max s)
    unfolding read_frame
    read_frame-Goal v os fuel s live waits pos enough few ev eo =
        let n = o.num_columns in
        Returns-Sat Goal (λ _ _. ⊥) o _ (object_at-Returns h mapping v os this o live)
          (Returns-Sat Goal (λ _ _. ⊥) r _ (result-Returns h mapping v os this o live executed)
            (Returns-Sat Goal (λ _ _. ⊥) (types_of n) _ (column_types-Returns h mapping v os n 0)
              (Returns-Sat Goal (λ _ _. ⊥) (names_from h mapping n 0) _
                (column_names-Returns h mapping v os n 0)
                (λ s' p.
                  bind-Sat
                    (λ out s''.
                      AllHold k (types_of n) 0 (take shown us) out
                      × Left this (o.rows_fetched + shown) (drop shown us) s'')
                    Goal (λ _ _. ⊥)
                    (in_cursor drv rows headers mapping this
                      (result_to_dataframe rows r fuel (types_of n) n_max))
                    (λ columns.
                      pure (record { names = names_from h mapping n 0; columns = columns }))
                    s'
                    (rows-Left fuel s' (rw (p.same_objects, live) refl)
                      (Waits-same s s' (p.same_view ∙ sym ev) waits) pos
                      (rw (p.same_view ∙ sym ev) enough) few)
                    (λ columns s'' q. ((refl, q.0), q.1))))))
          s (record { same_view = ev; same_objects = eo })

    -- `fetch` from a bound result with columns, over a cursor and a result that behave as documented,
    -- where the user does not interrupt: the data frame has the columns' names and, cell by cell, the
    -- next rows, as many as were asked for (at least one; at most 2 ^ 30 are left if all are); so many rows more are counted, and the
    -- result is left on the first row that was not returned, or complete. More fuel than rows and
    -- result sets left is enough.
    pub fetch-Shows :
        (fuel : ℕ) (s : Session D)
        → s.objects this ≡ some o
        → o.bound ≡ true
        → (o.num_columns == 0) ≡ false
        → Waits o.num_columns us (cursor o s)
        → 0 < initial_size n_max
        → length us + sets_left o.num_columns (cursor o s) < fuel
        → (is_negative n_max ≡ true → length us ≤ 2 ^ 30)
        → Sat
            (λ f s'.
              Shows o.num_columns (take (count o.num_columns n_max us) us) f
              × Left this
                  (o.rows_fetched + count o.num_columns n_max us)
                  (drop (count o.num_columns n_max us) us)
                  s')
            (λ _ _. ⊥)
            (fetch drv rows headers mapping fuel this n_max s)
    unfolding fetch fetch_bound
    fetch-Shows fuel s live bound columns waits pos enough few =
        let v = k.view s.driver in
        let os = s.objects in
        rw (live, bound, columns)
          (Returns-Sat Goal (λ _ _. ⊥) tt _
            (unbind_if_needed-Returns h mapping v os this o live executed)
            (λ s' p.
              catch-Sat Goal (λ _ _. ⊥) (λ _ _. ⊥)
                (read_frame drv rows headers mapping fuel this n_max)
                (λ e. set_current_result drv none >> throw e) s'
                (read_frame-Goal v os fuel s' live (Waits-same s s' p.same_view waits) pos
                  (rw p.same_view enough) few p.same_view p.same_objects)
                (λ e s'' b. absurd b))
            s (record { same_view = refl; same_objects = refl }))
