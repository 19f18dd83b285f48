-- ===== src/Bind/Refines.antt =====
-- `bind_list` has the statement read every parameter whole.
use odbc.Prelude.{
  ℕ, suc, ◌≤◌, ◌<◌, ◌^◌, ◌≡◌, refl, sym, ap, ◌∙◌, Bool, true, false, not, ◌&&◌, Option, none, some,
  List, [], ◌∷◌, ◌++◌, append_assoc, append-nil, arith, ◌==◌, Bool-cases, inl, inr,
}
use odbc.Outcome.{M, Sat, ok, Sat-mono, Sat-ok}
use odbc.Nanodbc.{Nanodbc}
use odbc.Connection.{supports_transactions}
use odbc.Session.{Session, Object, update}
use odbc.Types.{RType, parameter_types}
use odbc.Batches.{batch_loop}
use odbc.Batches.Cover.{for_each, rounds, batch_loop-rounds}
use odbc.Params.{Param, Params, cons, Binder, Zones, Memory}
use odbc.Bind.{Binding}
use odbc.Bind.Frames.{columns_of, shapes}
use odbc.Bind.Rounds.{bind_round, in_transaction, check_count, bind_list}
use odbc.Bind.Contract.{Contract, Entry, began, committed}
use odbc.Bind.All.{AllFit}
use odbc.Bind.Executes.{Executes, Awaiting, self, for_each-Ran}
use odbc.Bind.Whole.{rounds-AllIn, rows_of, Batched, AllRan, Ran-AllHeld}

abbrev until_commit : Option ℕ → List Entry → List Entry
until_commit none es = es
until_commit (some t) es = es ++ (committed ∷ [])

-- The entries of a call, within a transaction or not.
abbrev pub around : Bool → List Entry → List Entry
around false es = es
around true es = began ∷ (es ++ (committed ∷ []))

-- The result can be fetched, from its first row on.
abbrev pub IsBound : {D : Type 0} → ℕ → Session D → Type 0
IsBound this s =
    (o : Object) × (s.objects this ≡ some o)
    × (o.bound ≡ true)
    × (o.complete ≡ false)
    × (o.rows_fetched ≡ 0)

module _ {D : Type 0} {drv : Nanodbc D} {binder : Binder D} {k : Contract binder} {st : ℕ}
    (e : Executes drv k st) (zones : Zones) (mem : Memory) (timezone this : ℕ) (n b : ℕ)
    (ts : List RType) (xs : Params) (fit : AllFit n ts xs) (positive : 0 < b) (sized : b < 2 ^ 64)
    (few : n ≤ 2 ^ 63) where
  abbrev loop : M (Binding D) (Unit {0})
  loop = batch_loop (suc n) n b (bind_round drv binder zones mem timezone this st ts xs) 0

  abbrev Held : List Entry → Session D → Session D → Type 0
  Held es s s' =
      Batched e zones mem timezone this n b ts xs es × (k.log s'.driver ≡ k.log s.driver ++ es)

  loop-Held :
      (s : Binding D)
      → Awaiting this s.session
      → Sat
          (λ _ s'. (es : List Entry) × Held es s.session s'.session × Awaiting this s'.session)
          (λ _ _. ⊥)
          (loop s)
  loop-Held s a =
      let round = bind_round drv binder zones mem timezone this st ts xs in
      let bs = rounds (suc n) b 0 n in
      rw (batch_loop-rounds round n b s positive few sized) (
        Sat-mono
          (λ _ s'.
            (es : List Entry) × AllRan e zones mem timezone this ts xs 0 bs es
            × (k.log s'.session.driver ≡ k.log s.session.driver ++ es)
            × Awaiting this s'.session)
          (λ _ s'. (es : List Entry) × Held es s.session s'.session × Awaiting this s'.session)
          (λ _ _. ⊥) (λ _ _. ⊥) (for_each round bs s)
          (for_each-Ran e zones mem timezone this n ts xs fit bs s
            (rounds-AllIn n (suc n) b 0 n (λ p. omega arith)) a)
          (λ _ s' z. (
            z.0,
            ((z.1, Ran-AllHeld e zones mem timezone this n b ts xs 0 z.0 positive fit z.1), z.2),
            z.3,
          ))
          (λ _ _ x. x))

  abbrev Closed : Option ℕ → Session D → Session D → Type 0
  Closed t s s' =
      (es : List Entry) × Batched e zones mem timezone this n b ts xs es
      × (k.log s'.driver ≡ k.log s.driver ++ until_commit t es)
      × IsBound this s'

  in_transaction-Closed :
      (t : Option ℕ) (s : Binding D)
      → Awaiting this s.session
      → Sat
          (λ _ s'. Closed t s.session s'.session)
          (λ _ _. ⊥)
          (in_transaction drv binder zones mem timezone this t loop s)
  unfolding in_transaction
  in_transaction-Closed none s a =
      let (u, s', ran_, (es, held, (o, p, q, z))) = Sat-ok _ (loop s) (loop-Held s a) in
      rw ran_ (rw p (es, held.0, held.1, (record o { bound = true }, rw (self this), refl, q, z)))
  in_transaction-Closed (some t) s a =
      let (u, s', ran_, (es, held, (o, p, q, z))) = Sat-ok _ (loop s) (loop-Held s a) in
      let (d, sent, logged) = e.commit_done t s'.session.driver in
      rw ran_ (
        rw sent (
          rw p (
            es,
            held.0,
            e.drop_transaction_log t d
                ∙ logged
                ∙ ap (λ l. l ++ (committed ∷ [])) held.1
                ∙ append_assoc (k.log s.session.driver) es (committed ∷ []),
            (record o { bound = true }, rw (self this), refl, q, z),
          )))

  -- After what the call has done before.
  pub in_transaction-after :
      (t : Option ℕ) (before : List Entry) (s0 : Session D) (s : Binding D)
      → k.log s.session.driver ≡ k.log s0.driver ++ before
      → Awaiting this s.session
      → Sat
          (λ _ s'.
            (es : List Entry) × Batched e zones mem timezone this n b ts xs es
            × (k.log s'.session.driver ≡ k.log s0.driver ++ (before ++ until_commit t es))
            × IsBound this s'.session)
          (λ _ _. ⊥)
          (in_transaction drv binder zones mem timezone this t loop s)
  in_transaction-after t before s0 s h a =
      Sat-mono (λ _ s'. Closed t s.session s'.session) _ (λ _ _. ⊥) (λ _ _. ⊥)
        (in_transaction drv binder zones mem timezone this t loop s) (in_transaction-Closed t s a)
        (λ _ s' z. (
          z.0,
          z.1,
          z.2
              ∙ ap (λ l. l ++ until_commit t z.0) h
              ∙ append_assoc (k.log s0.driver) before (until_commit t z.0),
          z.3,
        ))
        (λ _ _ x. x)

module _ {D : Type 0} {drv : Nanodbc D} {binder : Binder D} {k : Contract binder} {st : ℕ}
    (e : Executes drv k st) (zones : Zones) (mem : Memory) (timezone this : ℕ) where
  never : (m : ℕ) → (suc m == 0) ≡ false
  never m = ground arith

  check_count-passes :
      (s : Session D) (m : ℕ)
      → suc m ≡ e.count
      → (d : D) × (check_count drv binder zones mem timezone this st (suc m) s
          ≡ (ok tt, record s { driver = d }))
        × (k.log d ≡ k.log s.driver)
  unfolding check_count
  check_count-passes s m q =
      let (d, asked, same) = e.parameters_done s.driver in
      let (d', asked', same') = e.parameters_done d in
      (
        d',
        rw asked (rw (sym q) (rw (never m) (rw asked' (rw (sym q) (rw (self (suc m)) refl))))),
        same' ∙ same,
      )

  -- Where every call succeeds and the user does not interrupt, `bind_list` runs the statement once for
  -- each batch, for as many rows as the batch has and on those; the runs read each parameter whole,
  -- every row once and in order. Nothing is begun or committed between them: one transaction is begun
  -- before the first and committed after the last if it is wanted and supported, and none otherwise.
  -- The result is left bound, before its first row. The parameters are vectors of one length, at most
  -- 2^63, of the types that are bound as they are meant, and as many as the statement has; the batch
  -- size is positive. The fuel is one more than the rows.
  pub bind_list-Executes :
      (n b : ℕ) (ts : List RType) (x : Param) (ys : Params) (use_transaction : Bool) (s : Binding D)
      (o : Object)
      → AllFit n ts (cons x ys)
      → 0 < b
      → b < 2 ^ 64
      → n ≤ 2 ^ 63
      → parameter_types (shapes (cons x ys)) ≡ ok ts
      → columns_of (cons x ys) ≡ e.count
      → s.session.objects this ≡ some o
      → o.statement ≡ some st
      → Sat
          (λ _ s'.
            (es : List Entry) × Batched e zones mem timezone this n b ts (cons x ys) es
            × (k.log s'.session.driver
                ≡ k.log s.session.driver ++ around (use_transaction && not (e.capable == 0)) es)
            × IsBound this s'.session)
          (λ _ _. ⊥)
          (bind_list drv binder zones mem timezone this (suc n) (cons x ys) use_transaction b s)
  unfolding bind_list supports_transactions
  bind_list-Executes n b ts x ys false s o fit positive sized few types count p q =
      let o1 = record o { statement = some st; complete = false; rows_fetched = 0 } in
      let t1 = record s.session { objects = update s.session.objects this (some o1) } in
      let (d, checked, same) = check_count-passes t1 (columns_of ys) count in
      rw p (
        rw types (
          rw (self this) (
            rw q (
              rw checked (
                rw (rows_of n ts x ys fit) (
                  in_transaction-after e zones mem timezone this n b ts (cons x ys) fit positive
                    sized few none [] s.session (record s { session = record t1 { driver = d } })
                    (same ∙ sym (append-nil (k.log s.session.driver)))
                    (o1, rw (self this), refl, refl)))))))
  bind_list-Executes n b ts x ys true s o fit positive sized few types count p q =
      let o1 = record o { statement = some st; complete = false; rows_fetched = 0 } in
      let t1 = record s.session { objects = update s.session.objects this (some o1) } in
      let (d, checked, same) = check_count-passes t1 (columns_of ys) count in
      let (d', asked, same') = e.txn_capable_done d in
      rw p (
        rw types (
          rw (self this) (
            rw q (
              rw checked (
                rw (rows_of n ts x ys fit) (
                  rw asked (elim (Bool-cases (e.capable == 0)) [
                    | inl never_ ↦ rw never_ (
                        in_transaction-after e zones mem timezone this n b ts (cons x ys) fit
                          positive sized few none [] s.session
                          (record s { session = record t1 { driver = d' } })
                          (same' ∙ same ∙ sym (append-nil (k.log s.session.driver)))
                          (o1, rw (self this), refl, refl))
                    | inr able ↦
                        let (t, d'', opened, logged) = e.new_transaction_done d' in
                        rw able (
                          rw opened (
                            in_transaction-after e zones mem timezone this n b ts (cons x ys) fit
                              positive sized few (some t) (began ∷ []) s.session
                              (record s { session = record t1 { driver = d'' } })
                              (logged ∙ ap (λ l. l ++ (began ∷ [])) (same' ∙ same))
                              (o1, rw (self this), refl, refl)))
                  ])))))))
