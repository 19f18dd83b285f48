-- ===== src/Bind/Frames.antt =====
-- `bind_columns` on a parameter, and `bind_df`: a data frame is bound as a table-valued parameter,
-- column by column.
use odbc.Prelude.{ℕ, suc, ◌+◌, true, false, List, [], ◌∷◌}
use odbc.Outcome.{M, Outcome, other_error, pure, throw, ◌>>=◌, ◌>>◌, try_catch}
use odbc.Session.{call, modify}
use odbc.Types.{
  RType, dataframe_t, SexpType, lglsxp, intsxp, realsxp, strsxp, vecsxp, rawsxp, Shape,
  parameter_types,
}
use odbc.Params.{
  Vector, logicals, integers, doubles, strings, raws, raw_bytes, vector_length, Param, column,
  frame, Params, nil, cons, Target, table, Binder, Zones, Memory,
}
use odbc.Bind.{Binding, Buffers, tvp, in_session, wrong_vector}
use odbc.Bind.Vectors.{bind_vector}

abbrev pub sexp_type : Vector → SexpType
sexp_type (logicals xs) = lglsxp
sexp_type (integers xs) = intsxp
sexp_type (doubles xs) = realsxp
sexp_type (strings xs) = strsxp
sexp_type (raws xs) = vecsxp
sexp_type (raw_bytes xs) = rawsxp

-- The number of columns, which is also `Rf_length` of a data frame.
abbrev pub columns_of : Params → ℕ
columns_of nil = 0
columns_of (cons x xs) = suc (columns_of xs)

abbrev pub param_length : Param → ℕ
param_length (column v c) = vector_length v
param_length (frame xs) = columns_of xs

abbrev pub shape_of : Param → Shape
shape_of (column v c) = record {
  is_data_frame = false;
  sexp_type = sexp_type v;
  is_date = c.is_date;
  is_posixct = c.is_posixct;
  is_difftime = c.is_difftime;
}
shape_of (frame xs) = record {
  is_data_frame = true;
  sexp_type = vecsxp;
  is_date = false;
  is_posixct = false;
  is_difftime = false;
}

abbrev pub shapes : Params → List Shape
shapes nil = []
shapes (cons x xs) = shape_of x ∷ shapes xs

module _ {S : Type 0} where
  -- What a function without state gives or throws.
  abbrev pub of_outcome : {A : Type 0} → Outcome A → M S A
  of_outcome r s = (r, s)

  -- `Rf_length(x[0])`: Rcpp throws where there is no column.
  abbrev pub first_length : Params → M S ℕ
  first_length nil = throw (other_error 1)
  first_length (cons x xs) = pure (param_length x)

module _ {D : Type 0} (binder : Binder D) (zones : Zones) (mem : Memory) (timezone st : ℕ) where
  abbrev pub drop_table : ℕ → M (Binding D) (Unit {0})
  drop_table p = in_session (modify λ s. record s { driver = binder.drop_table p s.driver })

  -- The life of the table-valued parameter `p`: its destructor runs on a return and on a throw.
  unfoldable pub with_table : ℕ → M (Binding D) (Unit {0}) → M (Binding D) (Unit {0})
  with_table p m = do
    try_catch (m >> in_session (call (binder.close_table p))) λ e. do drop_table p; throw e
    drop_table p

  abbrev pub frame_only : RType → M (Binding D) (Unit {0}) → M (Binding D) (Unit {0})
  frame_only dataframe_t m = m
  frame_only t m = wrong_vector

  -- `bind_df`, over the loop over the columns of the data frame: the parameter, the types of the
  -- columns and the number of rows.
  unfoldable pub bind_df :
      Params → ℕ → (ℕ → List RType → ℕ → M (Binding D) (Unit {0})) → M (Binding D) (Unit {0})
  unfolding with_table
  bind_df xs col columns = do
    types ← of_outcome (parameter_types (shapes xs))
    nrows ← first_length xs
    p ← in_session (call (binder.new_table st col nrows))
    with_table p (columns p types nrows)

  unfoldable mutual
    -- A data frame is bound whole, whatever `start` and `size` are.
    pub bind_columns : Target → Buffers → RType → Param → ℕ → ℕ → ℕ → M (Binding D) (Unit {0})
    bind_columns obj to t (column x class) col start size =
        bind_vector binder zones mem timezone obj to t x class col start size
    bind_columns obj to t (frame xs) col start size =
        frame_only t
          (bind_df xs col λ p types nrows. bind_all (table p) (tvp col) types xs 0 0 nrows)

    -- The loop over the columns.
    pub bind_all : Target → Buffers → List RType → Params → ℕ → ℕ → ℕ → M (Binding D) (Unit {0})
    bind_all obj to types nil col start size = pure tt
    bind_all obj to [] (cons x xs) col start size = pure tt
    bind_all obj to (t ∷ ts) (cons x xs) col start size =
        bind_columns obj to t x col start size >> bind_all obj to ts xs (col + 1) start size
