-- ===== src/Bind/Executes.antt =====
-- `bind_list` runs the statement on every row of the parameters, once and in order.
use odbc.Prelude.{
  ℕ, ◌+◌, ◌≤◌, ◌≡◌, refl, sym, ap, ◌∙◌, true, false, Option, some, List, [], ◌∷◌, ◌++◌,
  append_assoc, append-nil, arith, ◌==◌, Option-cases, inl, inr,
}
use odbc.Outcome.{Sat, Outcome, ok, throws, crash, out_of_fuel, Error, bind-Sat, Sat-mono}
use odbc.Nanodbc.{Nanodbc, done}
use odbc.Session.{Session, Object}
use odbc.Types.{RType}
use odbc.Params.{Params, Bound, statement, Binder, Zones, Memory}
use odbc.Bind.{Binding, own, in_session, clear_buffers, empty_data}
use odbc.Bind.Rounds.{execute_batch, bind_round}
use odbc.Bind.Frames.{bind_all}
use odbc.Bind.Contract.{Contract, Entry, began, committed, ran}
use odbc.Bind.All.{AllFit, AllRead, AllBound, bind_all-AllBound}
use odbc.Batches.Cover.{for_each}

-- What nanodbc documents of a statement that can be executed: each call succeeds, an execution
-- is for what is bound, and the user does not interrupt.
pub record Executes {D : Type 0} (drv : Nanodbc D) {binder : Binder D} (k : Contract binder)
    (st : ℕ) : Type 0 where
  pub count : ℕ
  pub capable : ℕ
  pub parameters_done :
      (d : D) → (d' : D) × (drv.parameters st d ≡ (done count, d')) × (k.log d' ≡ k.log d)
  pub execute_done :
      (n : ℕ) (d : D)
      → (r : ℕ) × (d' : D) × (drv.execute st n d ≡ (done r, d'))
        × (k.log d' ≡ k.log d ++ (ran n (k.bound d (statement st)) ∷ []))
  pub columns_done :
      (r : ℕ) (d : D) → (n : ℕ) × (d' : D) × (drv.columns r d ≡ (done n, d')) × (k.log d' ≡ k.log d)
  pub drop_result_log : (r : ℕ) (d : D) → k.log (drv.drop_result r d) ≡ k.log d
  pub uninterrupted :
      (d : D) → (d' : D) × (binder.check_user_interrupt d ≡ (done tt, d')) × (k.log d' ≡ k.log d)
  pub txn_capable_done :
      (d : D) → (d' : D) × (drv.txn_capable d ≡ (done capable, d')) × (k.log d' ≡ k.log d)
  pub new_transaction_done :
      (d : D)
      → (t : ℕ) × (d' : D) × (drv.new_transaction d ≡ (done t, d'))
        × (k.log d' ≡ k.log d ++ (began ∷ []))
  pub commit_done :
      (t : ℕ) (d : D)
      → (d' : D) × (drv.commit t d ≡ (done tt, d')) × (k.log d' ≡ k.log d ++ (committed ∷ []))
  pub drop_transaction_log : (t : ℕ) (d : D) → k.log (drv.drop_transaction t d) ≡ k.log d

-- The rounds stay within so many rows.
abbrev pub AllIn : ℕ → List (ℕ × ℕ) → Type 0
AllIn n [] = Unit {0}
AllIn n ((start, size) ∷ bs) = (start + size ≤ n) × AllIn n bs

pub self : (n : ℕ) → (n == n) ≡ true
self n = ground arith

-- The result is there, and no row of it has been fetched.
abbrev pub Awaiting : {D : Type 0} → ℕ → Session D → Type 0
Awaiting this s =
    (o : Object) × (s.objects this ≡ some o) × (o.complete ≡ false) × (o.rows_fetched ≡ 0)

module _ {D : Type 0} {drv : Nanodbc D} {binder : Binder D} {k : Contract binder} {st : ℕ}
    (e : Executes drv k st) (zones : Zones) (mem : Memory) (timezone this : ℕ) where
  execute_batch-ran :
      (size : ℕ) (s : Session D)
      → Awaiting this s
      → Sat
          (λ _ s'.
            Awaiting this s'
            × (k.log s'.driver
                ≡ k.log s.driver ++ (ran size (k.bound s.driver (statement st)) ∷ [])))
          (λ _ _. ⊥)
          (execute_batch drv binder zones mem timezone this st size s)
  unfolding execute_batch
  execute_batch-ran size s (o, p, q, n) =
      let (r, d, run, logged) = e.execute_done size s.driver in
      rw run (
        rw p (elim (Option-cases o.result) [
          | inl empty ↦
              let (m, d', asked, same) = e.columns_done r d in
              rw empty (
                rw asked (
                  rw (self this) (
                    (record o { result = some r; num_columns = m }, rw (self this), q, n),
                    same ∙ logged,
                  )))
          | inr (old, full) ↦
              let (m, d', asked, same) = e.columns_done r (drv.drop_result old d) in
              rw full (
                rw asked (
                  rw (self this) (
                    (record o { result = some r; num_columns = m }, rw (self this), q, n),
                    same ∙ e.drop_result_log old d ∙ logged,
                  )))
        ]))

  in_session-Sat :
      {A : Type 0} (Q : A → Session D → Type 0) (E : Error → Session D → Type 0) (s : Binding D)
      (r : Outcome A × Session D)
      → Sat Q E r
      → Sat (λ a s'. Q a s'.session) (λ x s'. E x s'.session) (r.0, record s { session = r.1 })
  in_session-Sat Q E s (ok a, t) h = h
  in_session-Sat Q E s (throws x, t) h = h
  in_session-Sat Q E s (crash, t) h = h
  in_session-Sat Q E s (out_of_fuel, t) h = h

  -- The entries of the rounds, for the columns from `col` on.
  abbrev pub Ran : List RType → Params → ℕ → List (ℕ × ℕ) → List Entry → Type 0
  Ran ts xs col [] [] = Unit {0}
  Ran ts xs col [] (x ∷ es) = ⊥
  Ran ts xs col (b ∷ bs) [] = ⊥
  Ran ts xs col (b ∷ bs) (began ∷ es) = ⊥
  Ran ts xs col (b ∷ bs) (committed ∷ es) = ⊥
  Ran ts xs col ((start, size) ∷ bs) (ran m row ∷ es) =
      (m ≡ size)
      × AllRead k zones mem timezone (statement st) ts xs col start size row
      × Ran ts xs col bs es

  module _ (n : ℕ) (ts : List RType) (xs : Params) (fit : AllFit n ts xs) where
    -- The statement has run for so many rows from `start` on.
    abbrev RoundRan : ℕ → ℕ → Binding D → Binding D → Type 0
    RoundRan start size s s' =
        (row : ℕ → Option Bound) × AllRead k zones mem timezone (statement st) ts xs 0 start size
          row
        × (k.log s'.session.driver ≡ k.log s.session.driver ++ (ran size row ∷ []))
        × Awaiting this s'.session

    bind_round-ran :
        (start size : ℕ) (s : Binding D)
        → start + size ≤ n
        → Awaiting this s.session
        → Sat
            (λ _ s'. RoundRan start size s s')
            (λ _ _. ⊥)
            (bind_round drv binder zones mem timezone this st ts xs start size s)
    unfolding bind_round clear_buffers
    bind_round-ran start size s h (o, p, q, z) =
        let s1 = record s { buffers = empty_data; tvp_buffers = λ i. empty_data } in
        bind-Sat (λ _ s'. AllBound k zones mem timezone (statement st) st ts xs 0 start size s1 s')
          (λ _ s'. RoundRan start size s s') (λ _ _. ⊥)
          (bind_all binder zones mem timezone st (statement st) own ts xs 0 start size) _ s1
          (bind_all-AllBound k zones mem timezone (statement st) st n ts xs 0 start size s1 fit h
            (λ i le. (refl, refl, refl, refl, refl, refl)))
          (λ _ s2 a.
            bind-Sat
              (λ _ s3.
                Awaiting this s3.session
                × (k.log s3.session.driver
                    ≡ k.log s2.session.driver
                      ++ (ran size (k.bound s2.session.driver (statement st)) ∷ [])))
              (λ _ s'. RoundRan start size s s') (λ _ _. ⊥)
              (in_session (execute_batch drv binder zones mem timezone this st size)) _ s2
              (in_session-Sat _ _ s2
                (execute_batch drv binder zones mem timezone this st size s2.session)
                (execute_batch-ran size s2.session (o, ap (λ f. f this) a.quiet.objects ∙ p, q, z)))
              (λ _ s3 g.
                let (d, asked, same) = e.uninterrupted s3.session.driver in
                rw asked (
                  k.bound s2.session.driver (statement st),
                  a.reads,
                  same
                      ∙ g.1
                      ∙ ap (λ l. l ++ (ran size (k.bound s2.session.driver (statement st)) ∷ []))
                          a.quiet.log,
                  g.0,
                )))

    pub for_each-Ran :
        (bs : List (ℕ × ℕ)) (s : Binding D)
        → AllIn n bs
        → Awaiting this s.session
        → Sat
            (λ _ s'.
              (es : List Entry) × Ran ts xs 0 bs es
              × (k.log s'.session.driver ≡ k.log s.session.driver ++ es)
              × Awaiting this s'.session)
            (λ _ _. ⊥)
            (for_each (bind_round drv binder zones mem timezone this st ts xs) bs s)
    for_each-Ran [] s i a = ([], tt, sym (append-nil (k.log s.session.driver)), a)
    for_each-Ran ((start, size) ∷ bs) s (h, i) a =
        bind-Sat (λ _ s'. RoundRan start size s s')
          (λ _ s'.
            (es : List Entry) × Ran ts xs 0 ((start, size) ∷ bs) es
            × (k.log s'.session.driver ≡ k.log s.session.driver ++ es)
            × Awaiting this s'.session)
          (λ _ _. ⊥) (bind_round drv binder zones mem timezone this st ts xs start size)
          (λ _. for_each (bind_round drv binder zones mem timezone this st ts xs) bs) s
          (bind_round-ran start size s h a)
          (λ _ s' g.
            Sat-mono _ _ (λ _ _. ⊥) (λ _ _. ⊥)
              (for_each (bind_round drv binder zones mem timezone this st ts xs) bs s')
              (for_each-Ran bs s' i g.3)
              (λ _ s'' z. (
                ran size g.0 ∷ z.0,
                (refl, g.1, z.1),
                z.2
                    ∙ ap (λ l. l ++ z.0) g.2
                    ∙ append_assoc (k.log s.session.driver) (ran size g.0 ∷ []) z.0,
                z.3,
              ))
              (λ _ _ x. x))
