-- ===== src/Bind/Stable/Frames.antt =====
-- `bind_df` and `bind_columns` keep what each single call keeps.
use odbc.Prelude.{ℕ, ◌+◌, List, [], ◌∷◌}
use odbc.Outcome.{M, ok, throws}
use odbc.Session.{Session, call, modify}
use odbc.Types.{
  RType, logical_t, integer_t, integer64_t, double_t, date_int_t, date_double_t, datetime_int_t,
  datetime_double_t, time_t, string_t, ustring_t, raw_t, dataframe_t, parameter_types,
}
use odbc.Params.{Target, table, Param, column, frame, Params, nil, cons, Binder, Zones, Memory}
use odbc.Bind.{Binding, Buffers, tvp}
use odbc.Bind.Frames.{
  with_table, bind_df, bind_columns, bind_all, frame_only, first_length, shapes, drop_table,
}
use odbc.Bind.Stable.{Stable, Keeps, bind-Keeps, catch-Keeps, same-Keeps, in_session-Keeps, Around}
use odbc.Bind.Stable.Vectors.{bind_vector-Keeps}

-- Each call that `bind_list` makes of the parameters keeps `P`.
pub record Framed {D : Type 0} (P : Session D → Type 0) (binder : Binder D) : Type 0 where
  pub vectors : Stable P binder
  pub new_table : (st col n : ℕ) → Keeps P (call (binder.new_table st col n))
  pub close_table : (p : ℕ) → Keeps P (call (binder.close_table p))
  pub drop_table :
      (p : ℕ) → Keeps P (modify λ s. record s { driver = binder.drop_table p s.driver })
  pub check_user_interrupt : Keeps P (call binder.check_user_interrupt)

module _ {D : Type 0} {P : Session D → Type 0} {binder : Binder D} (k : Framed P binder)
    (zones : Zones) (mem : Memory) (timezone st : ℕ) where
  drop_table-Keeps : (p : ℕ) → Keeps (Around P) (drop_table binder zones mem timezone st p)
  drop_table-Keeps p = in_session-Keeps _ (k.drop_table p)

  with_table-Keeps :
      (p : ℕ) (m : M (Binding D) (Unit {0}))
      → Keeps (Around P) m
      → Keeps (Around P) (with_table binder zones mem timezone st p m)
  unfolding with_table
  with_table-Keeps p m h =
      bind-Keeps
        (catch-Keeps
          (bind-Keeps h λ _. in_session-Keeps (call (binder.close_table p)) (k.close_table p))
          (λ e. bind-Keeps (drop_table-Keeps p) λ _. same-Keeps (throws e)))
        (λ _. drop_table-Keeps p)

  first_length-Keeps : (xs : Params) → Keeps (Around P) (first_length xs)
  first_length-Keeps nil = same-Keeps _
  first_length-Keeps (cons x xs) = same-Keeps _

  bind_df-Keeps :
      (xs : Params) (col : ℕ) (columns : ℕ → List RType → ℕ → M (Binding D) (Unit {0}))
      → ((p : ℕ) (types : List RType) (nrows : ℕ) → Keeps (Around P) (columns p types nrows))
      → Keeps (Around P) (bind_df binder zones mem timezone st xs col columns)
  unfolding bind_df
  bind_df-Keeps xs col columns h = bind-Keeps (same-Keeps (parameter_types (shapes xs))) λ types.
      bind-Keeps (first_length-Keeps xs) λ nrows.
        bind-Keeps
          (in_session-Keeps (call (binder.new_table st col nrows)) (k.new_table st col nrows))
          (λ p. with_table-Keeps p (columns p types nrows) (h p types nrows))

  frame_only-Keeps :
      (t : RType) (m : M (Binding D) (Unit {0}))
      → Keeps (Around P) m
      → Keeps (Around P) (frame_only binder zones mem timezone st t m)
  frame_only-Keeps dataframe_t m h = h
  frame_only-Keeps logical_t m h = same-Keeps _
  frame_only-Keeps integer_t m h = same-Keeps _
  frame_only-Keeps integer64_t m h = same-Keeps _
  frame_only-Keeps double_t m h = same-Keeps _
  frame_only-Keeps date_int_t m h = same-Keeps _
  frame_only-Keeps date_double_t m h = same-Keeps _
  frame_only-Keeps datetime_int_t m h = same-Keeps _
  frame_only-Keeps datetime_double_t m h = same-Keeps _
  frame_only-Keeps time_t m h = same-Keeps _
  frame_only-Keeps string_t m h = same-Keeps _
  frame_only-Keeps ustring_t m h = same-Keeps _
  frame_only-Keeps raw_t m h = same-Keeps _

  mutual
    unfolding bind_columns bind_all

    pub bind_columns-Keeps :
        (obj : Target) (to : Buffers) (t : RType) (x : Param) (col start size : ℕ)
        → Keeps (Around P) (bind_columns binder zones mem timezone st obj to t x col start size)
    bind_columns-Keeps obj to t (column x class) col start size =
        bind_vector-Keeps k.vectors zones mem timezone obj to t x class col start size
    bind_columns-Keeps obj to t (frame xs) col start size = frame_only-Keeps t _ (
        bind_df-Keeps xs col _
          λ p types nrows. bind_all-Keeps (table p) (tvp col) types xs 0 0 nrows)

    pub bind_all-Keeps :
        (obj : Target) (to : Buffers) (types : List RType) (xs : Params) (col start size : ℕ)
        → Keeps (Around P) (bind_all binder zones mem timezone st obj to types xs col start size)
    bind_all-Keeps obj to types nil col start size = same-Keeps (ok tt)
    bind_all-Keeps obj to [] (cons x xs) col start size = same-Keeps (ok tt)
    bind_all-Keeps obj to (t ∷ ts) (cons x xs) col start size =
        bind-Keeps (bind_columns-Keeps obj to t x col start size)
          λ _. bind_all-Keeps obj to ts xs (col + 1) start size
