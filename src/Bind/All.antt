-- ===== src/Bind/All.antt =====
-- The loop over the columns binds every one of them.
use odbc.Prelude.{ℕ, ◌+◌, ◌≤◌, ◌<◌, ◌≡◌, refl, ◌∙◌, Option, some, List, [], ◌∷◌, take, drop, arith}
use odbc.Outcome.{Sat, bind-Sat, Sat-mono}
use odbc.Types.{RType}
use odbc.Clock.{scrubbed}
use odbc.Params.{
  vector_length, Vector, Class, column, frame, Params, nil, cons, Bound, Target, Binder, Zones,
  Memory,
}
use odbc.Bind.{Binding, own, read_buffers}
use odbc.Bind.Vectors.{bind_vector}
use odbc.Bind.Frames.{bind_columns, bind_all}
use odbc.Bind.Meaning.{Value, readback, meaning, Fits}
use odbc.Bind.Contract.{Contract, IsClear, Binds, Quiet}
use odbc.Bind.Instants.{zone_info}
use odbc.Bind.Faithful.{bind_vector-Binds}

-- The parameters are vectors of so many elements, of the types given.
abbrev pub AllFit : ℕ → List RType → Params → Type 0
AllFit n [] nil = Unit {0}
AllFit n [] (cons x xs) = ⊥
AllFit n (t ∷ ts) nil = ⊥
AllFit n (t ∷ ts) (cons (frame ys) xs) = ⊥
AllFit n (t ∷ ts) (cons (column v c) xs) = Fits t v × (vector_length v ≡ n) × AllFit n ts xs

module _ {D : Type 0} {binder : Binder D} (k : Contract binder) (zones : Zones) (mem : Memory)
    (timezone : ℕ) (obj : Target) where
  -- The meaning of the vector that is bound to a column.
  abbrev pub meaning_at : ℕ → RType → Vector → Class → List Value
  meaning_at col t v c =
      meaning zones (zone_info zones timezone c (k.sql_type obj col)) (scrubbed (k.scale obj col)) t
        v

  -- A column is bound to values.
  abbrev pub Reads : List Value → Option Bound → Type 0
  Reads vs b = (what : Bound) × (b ≡ some what) × (readback what ≡ vs)

  -- The columns from `col` on are bound to so many elements of the parameters from `start` on.
  abbrev pub AllRead : List RType → Params → ℕ → ℕ → ℕ → (ℕ → Option Bound) → Type 0
  AllRead [] xs col start size row = Unit {0}
  AllRead (t ∷ ts) nil col start size row = Unit {0}
  AllRead (t ∷ ts) (cons (frame ys) xs) col start size row = ⊥
  AllRead (t ∷ ts) (cons (column v c) xs) col start size row =
      Reads (take size (drop start (meaning_at col t v c))) (row col)
      × AllRead ts xs (col + 1) start size row

  Reads-eq : (vs : List Value) (b b' : Option Bound) → b' ≡ b → Reads vs b → Reads vs b'
  Reads-eq vs b b' e (what, p, q) = (what, e ∙ p, q)

  module _ (st : ℕ) where
    -- What the loop leaves.
    pub record AllBound (ts : List RType) (xs : Params) (col start size : ℕ) (s s' : Binding D)
        : Type 0 where
      pub reads : AllRead ts xs col start size (k.bound s'.session.driver obj)
      pub before :
          (i : ℕ) → i < col → k.bound s'.session.driver obj i ≡ k.bound s.session.driver obj i
      pub quiet : Quiet k s s'

    pub bind_all-AllBound :
        (n : ℕ) (ts : List RType) (xs : Params) (col start size : ℕ) (s : Binding D)
        → AllFit n ts xs
        → start + size ≤ n
        → ((i : ℕ) → col ≤ i → IsClear i (read_buffers own s))
        → Sat
            (λ _ s'. AllBound ts xs col start size s s')
            (λ _ _. ⊥)
            (bind_all binder zones mem timezone st obj own ts xs col start size s)
    unfolding bind_all bind_columns
    bind_all-AllBound n [] nil col start size s f h c = record {
      reads = tt;
      before = λ i lt. refl;
      quiet = record { objects = refl; current_result = refl; transaction = refl; log = refl };
    }
    bind_all-AllBound n [] (cons x xs) col start size s f h c = absurd f
    bind_all-AllBound n (t ∷ ts) nil col start size s f h c = absurd f
    bind_all-AllBound n (t ∷ ts) (cons (frame ys) xs) col start size s f h c = absurd f
    bind_all-AllBound n (t ∷ ts) (cons (column v class) xs) col start size s f h c =
        let vs = take size (drop start (meaning_at col t v class)) in
        bind-Sat (λ _ s'. Binds k obj own col vs s s')
          (λ _ s'. AllBound (t ∷ ts) (cons (column v class) xs) col start size s s') (λ _ _. ⊥)
          (bind_vector binder zones mem timezone obj own t v class col start size)
          (λ _. bind_all binder zones mem timezone st obj own ts xs (col + 1) start size) s
          (bind_vector-Binds k zones mem timezone obj own t v class col start size s f.0
            (omega (arith, f.1)) (c col (omega arith)))
          (λ _ s' b.
            Sat-mono (λ _ s''. AllBound ts xs (col + 1) start size s' s'')
              (λ _ s''. AllBound (t ∷ ts) (cons (column v class) xs) col start size s s'')
              (λ _ _. ⊥) (λ _ _. ⊥)
              (bind_all binder zones mem timezone st obj own ts xs (col + 1) start size s')
              (bind_all-AllBound n ts xs (col + 1) start size s' f.2 h
                (λ i le. b.clear i (λ e. ground arith) (c i (omega arith))))
              (λ _ s'' a. record {
                reads = (
                  Reads-eq vs (k.bound s'.session.driver obj col) _ (a.before col (omega arith))
                      (b.what, b.is_bound, b.says),
                  a.reads,
                );
                before = λ i lt. a.before i (omega arith) ∙ b.others i (λ e. ground arith);
                quiet = record {
                  objects = a.quiet.objects ∙ b.quiet.objects;
                  current_result = a.quiet.current_result ∙ b.quiet.current_result;
                  transaction = a.quiet.transaction ∙ b.quiet.transaction;
                  log = a.quiet.log ∙ b.quiet.log;
                };
              })
              (λ _ _ x. x))
