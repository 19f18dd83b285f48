-- ===== src/Fetch/Rounds.antt =====
-- The loop of `result_to_dataframe`: the rows it reads, round by round.
use odbc.Prelude.{
  ℕ, zero, suc, ◌+◌, ◌-◌, ◌*◌, ◌^◌, ◌≤◌, ◌<◌, min, max, ◌≡◌, sym, ap₂, ◌⊎◌, inl, inr, true, false,
  List, [], ◌∷◌, ◌++◌, append_assoc, append-nil, if◌then◌else◌, arith, length, length-append,
  length-take, take, drop, Bool-cases, pick_then, pick_else,
}
use odbc.Prelude.Int.{ℤ, is_negative}
use odbc.Outcome.{Outcome, M, Sat, bind-Sat, Sat-mono, ◌>>=◌}
use odbc.Nanodbc.{Rows}
use odbc.Types.{RType}
use odbc.Fetch.{Cursor}
use odbc.Fetch.Contract.{Contract}
use odbc.Fetch.Advance.{Reads}
use odbc.Fetch.Room.{AllReadable}
use odbc.Fetch.Loop.{Loop, grow, overflows, is_full, one_row, fetch_loop}
use odbc.Fetch.Round.{Holding, grow-Holding, later_sets, one_row-Holding}

module _ {D : Type 0} {rows : Rows D} {r : ℕ} {R : Type 0} (k : Contract rows r R)
    (types : List RType) (readable : AllReadable types) where
  -- How many of the rows `us` the loop returns, from `row` of `n`.
  abbrev pub quota : ℤ → ℕ → ℕ → List R → ℕ
  quota n_max n row us = if is_negative n_max then length us else min (n - row) (length us)

  quota-le : (n_max : ℤ) (n row : ℕ) (us : List R) → quota n_max n row us ≤ length us
  quota-le n_max n row us = ground arith

  -- What the loop leaves, when `q` of the rows `us` have been read after `vs`.
  pub record Finished (vs us : List R) (q n counted sets : ℕ) (v : Loop) (c : Cursor D)
      : Type 0 where
    pub holding : Holding k types readable (vs ++ take q us) v
    pub reads : Reads k (drop q us) c
    pub count : c.rows_fetched ≡ counted
    pub fewer : later_sets k types readable c ≤ sets
    -- The room is at most doubled.
    pub capacity : v.n ≤ max n (2 * v.row)

  abbrev Ends : List R → List R → ℕ → Loop → Cursor D → Outcome Loop × Cursor D → Type 0
  Ends vs us q v c =
      Sat (λ v' c'. Finished vs us q v.n (c.rows_fetched + q) (later_sets k types readable c) v' c')
        (λ _ _. ⊥)

  stop_at_zero :
      (vs us : List R) (v : Loop) (c : Cursor D)
      → Holding k types readable vs v
      → Reads k us c
      → Finished vs us 0 v.n (c.rows_fetched + 0) (later_sets k types readable c) v c
  stop_at_zero vs us v c h reads = record {
    holding = rw (append-nil vs) h;
    reads = reads;
    count = omega arith;
    fewer = omega arith;
    capacity = omega arith;
  }

  stop :
      (vs us : List R) (q : ℕ) (v : Loop) (c : Cursor D)
      → Holding k types readable vs v
      → Reads k us c
      → q ≡ 0
      → Finished vs us q v.n (c.rows_fetched + q) (later_sets k types readable c) v c
  stop vs us q v c h reads e = rw e (stop_at_zero vs us v c h reads)

  -- After one row, what the rest of the loop leaves is what the loop leaves.
  one_more :
      (vs us : List R) (x : R) (q n n' counted counted' sets sets' row : ℕ) (v : Loop)
      (c : Cursor D)
      → counted' ≡ counted + 1
      → sets' ≤ sets
      → row + 1 + q ≡ v.row
      → (n' ≡ n) ⊎ (n' ≡ n * 2) × (n ≡ row)
      → Finished (vs ++ (x ∷ [])) us q n' (counted' + q) sets' v c
      → Finished vs (x ∷ us) (suc q) n (counted + suc q) sets v c
  one_more vs us x q n n' counted counted' sets sets' row v c e f g o d = record {
    holding = rw (append_assoc vs (x ∷ []) (take q us)) at d.holding;
    reads = d.reads;
    count = omega (arith, d.count, e);
    fewer = omega (arith, d.fewer, f);
    capacity = omega (arith, d.capacity, g, o);
  }

  -- The loop's test and the room for the next row.
  grow-fits :
      (n_max : ℤ) (v : Loop)
      → v.row ≤ v.n
      → (0 < v.n) ⊎ (is_negative n_max ≡ false)
      → is_full n_max v ≡ false
      → (v.row < (grow v).n)
        × (((grow v).n ≡ v.n) ⊎ ((grow v).n ≡ v.n * 2) × (v.n ≡ v.row))
        × ((0 < (grow v).n) ⊎ (is_negative n_max ≡ false))
        × ((grow v).row ≡ v.row)
  grow-fits n_max v h pos space = ground arith

  no_overflow :
      (n_max : ℤ) (v : Loop) (m : ℕ)
      → is_full n_max v ≡ false
      → (is_negative n_max ≡ true → v.row + suc m ≤ 2 ^ 30)
      → overflows v ≡ false
  no_overflow n_max v m space few = elim (Bool-cases (is_negative n_max)) [
    | inl e ↦ let bound : v.row + suc m ≤ 2 ^ 30 = few e in ground arith
    | inr e ↦ ground arith
  ]

  next_quota :
      (n_max : ℤ) (v : Loop) (x : R) (us : List R) (q : ℕ)
      → v.row ≤ v.n
      → is_full n_max v ≡ false
      → q ≡ quota n_max v.n v.row (x ∷ us)
      → q ≡ suc (quota n_max (grow v).n (v.row + 1) us)
  next_quota n_max v x us q h space e = ground arith

  -- One row, and then the rest of the loop, which ends well from any state that a row leaves.
  then_rest :
      (n_max : ℤ) (vs us : List R) (x : R) (v : Loop) (c : Cursor D)
      (rest : Loop → M (Cursor D) Loop)
      → Holding k types readable vs v
      → (0 < v.n) ⊎ (is_negative n_max ≡ false)
      → is_full n_max v ≡ false
      → Reads k (x ∷ us) c
      → (fuel : ℕ) → later_sets k types readable c < fuel
      → ((v' : Loop) (c' : Cursor D)
          → Holding k types readable (vs ++ (x ∷ [])) v'
          → (0 < v'.n) ⊎ (is_negative n_max ≡ false)
          → Reads k us c'
          → later_sets k types readable c' ≤ later_sets k types readable c
          → v'.n ≡ (grow v).n
          → v'.row ≡ v.row + 1
          → Ends (vs ++ (x ∷ [])) us (quota n_max (grow v).n (v.row + 1) us) v' c' (rest v' c'))
      → Ends vs
          (x ∷ us)
          (suc (quota n_max (grow v).n (v.row + 1) us))
          v
          c
          ((one_row rows r fuel types (grow v) >>= rest) c)
  then_rest n_max vs us x v c rest h pos space reads fuel enough go =
      let fits = grow-fits n_max v h.fits pos space in
      let q' = quota n_max (grow v).n (v.row + 1) us in
      bind-Sat
        (λ v' c'.
          (Holding k types readable (vs ++ (x ∷ [])) v' × (v'.n ≡ (grow v).n))
          × Reads k us c'
          × (c'.rows_fetched ≡ c.rows_fetched + 1)
          × (later_sets k types readable c' ≤ later_sets k types readable c))
        (λ v' c'.
          Finished vs (x ∷ us) (suc q') v.n (c.rows_fetched + suc q')
            (later_sets k types readable c) v' c')
        (λ _ _. ⊥) (one_row rows r fuel types (grow v)) rest c
        (one_row-Holding k types readable fuel vs us x (grow v) c
          (grow-Holding k types readable vs v h) (rw fits.3 fits.0) reads enough)
        (λ v' c' o.
          let row_eq : v'.row ≡ v.row + 1 =
            omega (arith, o.0.0.counted, length-append vs (x ∷ []), h.counted) in
          Sat-mono
            (λ v'' c''.
              Finished (vs ++ (x ∷ [])) us q' v'.n (c'.rows_fetched + q')
                (later_sets k types readable c') v'' c'')
            (λ v'' c''.
              Finished vs (x ∷ us) (suc q') v.n (c.rows_fetched + suc q')
                (later_sets k types readable c) v'' c'')
            (λ _ _. ⊥) (λ _ _. ⊥) (rest v' c')
            (go v' c' o.0.0 (rw o.0.1 fits.2) o.1 o.3 o.0.1 row_eq)
            (λ v'' c'' d.
              one_more vs us x q' v.n v'.n c.rows_fetched c'.rows_fetched
                (later_sets k types readable c) (later_sets k types readable c') v.row v'' c'' o.2
                o.3 (row_after v'' c'' v'.n c'.rows_fetched (later_sets k types readable c') d)
                (rw o.0.1 fits.1) d)
            (λ _ _ b. b))
    where
      row_after :
          (v'' : Loop) (c'' : Cursor D) (n counted sets : ℕ)
          → let q' = quota n_max (grow v).n (v.row + 1) us in
            Finished (vs ++ (x ∷ [])) us q' n (counted + q') sets v'' c''
            → v.row + 1 + quota n_max (grow v).n (v.row + 1) us ≡ v''.row
      row_after v'' c'' n counted sets d =
          let q' = quota n_max (grow v).n (v.row + 1) us in
          omega (
            arith,
            d.holding.counted,
            length-append (vs ++ (x ∷ [])) (take q' us),
            length-append vs (x ∷ []),
            length-take q' us,
            quota-le n_max (grow v).n (v.row + 1) us,
            h.counted,
          )

  pub fetch_loop-Finished :
      (us : List R) (fuel : ℕ) (n_max : ℤ) (vs : List R) (v : Loop) (c : Cursor D) (q : ℕ)
      → Holding k types readable vs v
      → (0 < v.n) ⊎ (is_negative n_max ≡ false)
      → Reads k us c
      → length us + later_sets k types readable c < fuel
      → q ≡ quota n_max v.n v.row us
      → (is_negative n_max ≡ true → v.row + length us ≤ 2 ^ 30)
      → Ends vs us q v c (fetch_loop rows r fuel types n_max v c)
  unfolding fetch_loop
  fetch_loop-Finished us zero n_max vs v c q h pos reads enough e few = absurd (omega arith)
  fetch_loop-Finished [] (suc fuel) n_max vs v c q h pos reads enough e few =
      pick_then (Ends vs [] q v c) c.complete _ _ reads (stop vs [] q v c h reads (ground arith))
  fetch_loop-Finished (x ∷ us) (suc fuel) n_max vs v c q h pos reads enough e few =
      pick_else (Ends vs (x ∷ us) q v c) c.complete _ _ reads.0
        (elim (Bool-cases (is_full n_max v)) [
          | inl full ↦
              pick_then (Ends vs (x ∷ us) q v c) (is_full n_max v) _ _ full
                (stop vs (x ∷ us) q v c h reads (ground arith))
          | inr space ↦ pick_else (Ends vs (x ∷ us) q v c) (is_full n_max v) _ _ space (
              pick_else (Ends vs (x ∷ us) q v c) (overflows v) _ _
                (no_overflow n_max v (length us) space few)
                (rw (next_quota n_max v x us q h.fits space e) (
                  then_rest n_max vs us x v c (fetch_loop rows r fuel types n_max) h pos space reads
                    (suc fuel) (omega arith)
                    (λ v' c' h' pos' reads' less n_eq row_eq.
                      fetch_loop-Finished us fuel n_max (vs ++ (x ∷ [])) v' c'
                        (quota n_max (grow v).n (v.row + 1) us) h' pos' reads' (omega arith)
                        (ap₂ (λ a b. quota n_max a b us) (sym n_eq) (sym row_eq))
                        (λ g.
                          let bound : v.row + suc (length us) ≤ 2 ^ 30 = few g in omega arith)))))
        ])
