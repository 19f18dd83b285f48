-- ===== src/Bind/Ends/Frames.antt =====
-- `bind_df` and `bind_columns` do not use the fuel.
use odbc.Prelude.{ℕ, ◌+◌, List, [], ◌∷◌}
use odbc.Outcome.{M, throws}
use odbc.Session.{call}
use odbc.Types.{
  RType, logical_t, integer_t, integer64_t, double_t, date_int_t, date_double_t, datetime_int_t,
  datetime_double_t, time_t, string_t, ustring_t, raw_t, dataframe_t,
}
use odbc.Params.{Target, table, Param, column, frame, Params, nil, cons, Binder, Zones, Memory}
use odbc.Bind.{Binding, Buffers, tvp}
use odbc.Bind.Frames.{
  with_table, bind_df, bind_columns, bind_all, frame_only, first_length, shapes, drop_table,
}
use odbc.Bind.Ends.{
  Ends, bind-Ends, call-Ends, catch-Ends, same-Ends, parameter_types-Ended, in_session-Ends,
}
use odbc.Bind.Ends.Vectors.{bind_vector-Ends}

module _ {D : Type 0} (binder : Binder D) (zones : Zones) (mem : Memory) (timezone st : ℕ) where
  drop_table-Ends : (p : ℕ) → Ends (drop_table binder zones mem timezone st p)
  drop_table-Ends p = record { ends = λ s. tt }

  with_table-Ends :
      (p : ℕ) (m : M (Binding D) (Unit {0}))
      → Ends m
      → Ends (with_table binder zones mem timezone st p m)
  unfolding with_table
  with_table-Ends p m h =
      bind-Ends
        (catch-Ends (bind-Ends h λ _. in_session-Ends (call (binder.close_table p)) (call-Ends _))
          (λ e. bind-Ends (drop_table-Ends p) λ _. same-Ends (throws e) tt))
        (λ _. drop_table-Ends p)

  first_length-Ends : (xs : Params) → Ends {S = Binding D} (first_length xs)
  first_length-Ends nil = record { ends = λ s. tt }
  first_length-Ends (cons x xs) = record { ends = λ s. tt }

  bind_df-Ends :
      (xs : Params) (col : ℕ) (columns : ℕ → List RType → ℕ → M (Binding D) (Unit {0}))
      → ((p : ℕ) (types : List RType) (nrows : ℕ) → Ends (columns p types nrows))
      → Ends (bind_df binder zones mem timezone st xs col columns)
  unfolding bind_df
  bind_df-Ends xs col columns h =
      bind-Ends (same-Ends _ (parameter_types-Ended (shapes xs))) λ types.
        bind-Ends (first_length-Ends xs) λ nrows.
          bind-Ends (in_session-Ends (call (binder.new_table st col nrows)) (call-Ends _))
            (λ p. with_table-Ends p (columns p types nrows) (h p types nrows))

  frame_only-Ends :
      (t : RType) (m : M (Binding D) (Unit {0}))
      → Ends m
      → Ends (frame_only binder zones mem timezone st t m)
  frame_only-Ends dataframe_t m h = h
  frame_only-Ends logical_t m h = record { ends = λ s. tt }
  frame_only-Ends integer_t m h = record { ends = λ s. tt }
  frame_only-Ends integer64_t m h = record { ends = λ s. tt }
  frame_only-Ends double_t m h = record { ends = λ s. tt }
  frame_only-Ends date_int_t m h = record { ends = λ s. tt }
  frame_only-Ends date_double_t m h = record { ends = λ s. tt }
  frame_only-Ends datetime_int_t m h = record { ends = λ s. tt }
  frame_only-Ends datetime_double_t m h = record { ends = λ s. tt }
  frame_only-Ends time_t m h = record { ends = λ s. tt }
  frame_only-Ends string_t m h = record { ends = λ s. tt }
  frame_only-Ends ustring_t m h = record { ends = λ s. tt }
  frame_only-Ends raw_t m h = record { ends = λ s. tt }

  mutual
    unfolding bind_columns bind_all

    pub bind_columns-Ends :
        (obj : Target) (to : Buffers) (t : RType) (x : Param) (col start size : ℕ)
        → Ends (bind_columns binder zones mem timezone st obj to t x col start size)
    bind_columns-Ends obj to t (column x class) col start size =
        bind_vector-Ends binder zones mem timezone obj to t x class col start size
    bind_columns-Ends obj to t (frame xs) col start size = frame_only-Ends t _ (
        bind_df-Ends xs col _ λ p types nrows. bind_all-Ends (table p) (tvp col) types xs 0 0 nrows)

    pub bind_all-Ends :
        (obj : Target) (to : Buffers) (types : List RType) (xs : Params) (col start size : ℕ)
        → Ends (bind_all binder zones mem timezone st obj to types xs col start size)
    bind_all-Ends obj to types nil col start size = record { ends = λ s. tt }
    bind_all-Ends obj to [] (cons x xs) col start size = record { ends = λ s. tt }
    bind_all-Ends obj to (t ∷ ts) (cons x xs) col start size =
        bind-Ends (bind_columns-Ends obj to t x col start size)
          λ _. bind_all-Ends obj to ts xs (col + 1) start size
