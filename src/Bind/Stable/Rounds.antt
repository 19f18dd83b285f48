-- ===== src/Bind/Stable/Rounds.antt =====
-- The loop of `bind_list` keeps what each single call keeps.
use odbc.Prelude.{
  ℕ, zero, suc, ◌≡◌, refl, subst, if◌then◌else◌, inl, inr, Bool-cases, Option-cases, none, some,
  Option, List, ltb,
}
use odbc.Outcome.{M, ok, ◌>>=◌, ◌>>◌, pure}
use odbc.Nanodbc.{Nanodbc}
use odbc.Session.{Session, Object, call, modify, object_at, put_object}
use odbc.Types.{RType}
use odbc.Batches.{batch_loop, add_size}
use odbc.Params.{Params, statement, Binder, Zones, Memory}
use odbc.Bind.{own}
use odbc.Bind.Rounds.{drop_old, modify_object, execute_batch, bind_round}
use odbc.Bind.Stable.{Keeps, bind-Keeps, in_session-Keeps, same-Keeps, clear_buffers-Keeps, Around}
use odbc.Bind.Stable.Frames.{Framed, bind_all-Keeps}

-- A change of the object that leaves its statement as it is keeps `P`.
pub record Rewrites {D : Type 0} (P : Session D → Type 0) (this : ℕ) : Type 0 where
  pub rewritten :
      (f : Object → Object) (rest : Object → M (Session D) (Unit {0}))
      → ((o : Object) → (f o).statement ≡ o.statement)
      → ((o : Object) → Keeps P (rest o))
      → Keeps P (object_at this >>= λ o. put_object this (f o) >> rest o)

-- Each call that executes a batch keeps `P`.
pub record Steady {D : Type 0} (P : Session D → Type 0) (drv : Nanodbc D) (this : ℕ) : Type 0 where
  pub execute : (st n : ℕ) → Keeps P (call (drv.execute st n))
  pub columns : (r : ℕ) → Keeps P (call (drv.columns r))
  pub drop_result : (r : ℕ) → Keeps P (modify λ s. record s { driver = drv.drop_result r s.driver })
  pub rewrites : Rewrites P this

module _ {S : Type 0} {P : S → Type 0} where
  after_round :
      (nrows start : ℕ) (m : M S (Unit {0}))
      → Keeps P m
      → Keeps P (λ s. if ltb start nrows then m s else (ok tt, s))
  after_round nrows start m h = record {
    after =
        λ s p. elim (Bool-cases (ltb start nrows)) [ inl t ↦ rw t (h.after s p) | inr t ↦ rw t p ];
  }

  pub batch_loop-Keeps :
      (fuel nrows batch_rows : ℕ) (round : ℕ → ℕ → M S (Unit {0})) (start : ℕ)
      → ((start size : ℕ) → Keeps P (round start size))
      → Keeps P (batch_loop fuel nrows batch_rows round start)
  unfolding batch_loop
  batch_loop-Keeps zero nrows batch_rows round start h = record { after = λ s p. p }
  batch_loop-Keeps (suc fuel) nrows batch_rows round start h = after_round nrows start _ (
      bind-Keeps (h start _)
        λ _. batch_loop-Keeps fuel nrows batch_rows round (add_size start batch_rows) h)

module _ {D : Type 0} {P : Session D → Type 0} {this : ℕ} (w : Rewrites P this) (drv : Nanodbc D)
    (binder : Binder D) (zones : Zones) (mem : Memory) (timezone : ℕ) where
  modify_done :
      (f : Object → Object) (s : Session D)
      → ((object_at this >>= λ o. put_object this (f o) >> pure {A = Unit {0}} tt) s).1
        ≡ (modify_object drv binder zones mem timezone this f s).1
  modify_done f s = elim (Option-cases (s.objects this)) [
    | inl e ↦ rw e refl
    | inr (o, e) ↦ rw e refl
  ]

  pub modify_object-Keeps :
      (f : Object → Object)
      → ((o : Object) → (f o).statement ≡ o.statement)
      → Keeps P (modify_object drv binder zones mem timezone this f)
  modify_object-Keeps f same = record {
    after = λ s p.
        subst P (modify_done f s)
          ((w.rewritten f (λ _. pure tt) same (λ _. same-Keeps (ok tt))).after s p);
  }

module _ {D : Type 0} {P : Session D → Type 0} {drv : Nanodbc D} {binder : Binder D} {this : ℕ}
    (k : Framed P binder) (q : Steady P drv this) (zones : Zones) (mem : Memory)
    (timezone st : ℕ) where
  drop_old-Keeps : (r : Option ℕ) → Keeps P (drop_old drv binder zones mem timezone this r)
  drop_old-Keeps none = same-Keeps (ok tt)
  drop_old-Keeps (some r) = q.drop_result r

  execute_batch-Keeps :
      (size : ℕ) → Keeps P (execute_batch drv binder zones mem timezone this st size)
  unfolding execute_batch
  execute_batch-Keeps size = bind-Keeps (q.execute st size) λ r.
      q.rewrites.rewritten (λ o. record o { result = some r }) _ (λ o. refl)
        λ o. bind-Keeps (drop_old-Keeps o.result) λ _. bind-Keeps (q.columns r) λ n.
          modify_object-Keeps q.rewrites drv binder zones mem timezone
            (λ o'. record o' { num_columns = n }) (λ o'. refl)

  pub bind_round-Keeps :
      (types : List RType) (xs : Params) (start size : ℕ)
      → Keeps (Around P) (bind_round drv binder zones mem timezone this st types xs start size)
  unfolding bind_round
  bind_round-Keeps types xs start size = bind-Keeps (clear_buffers-Keeps P) λ _.
      bind-Keeps (bind_all-Keeps k zones mem timezone st (statement st) own types xs 0 start size)
        (λ _.
          bind-Keeps
            (in_session-Keeps (execute_batch drv binder zones mem timezone this st size)
              (execute_batch-Keeps size))
            λ _. in_session-Keeps (call binder.check_user_interrupt) k.check_user_interrupt)
