-- ===== src/Entry/Calls.antt =====
-- The entry points of src/result.cpp that pass a call on: making a result, fetching, binding.
use odbc.Prelude.{ℕ, Bool, true, false, Option, none, some, List}
use odbc.Prelude.Int.{ℤ}
use odbc.Outcome.{M, r_stop, invalid_pointer, throw}
use odbc.Nanodbc.{Nanodbc, Rows, Text}
use odbc.Types.{BigintMap}
use odbc.Interrupt.{Event}
use odbc.Params.{Params, Binder, Zones, Memory}
use odbc.Bind.{Binding}
use odbc.Bind.Rounds.{Description, bind_list, describe_parameters}
use odbc.Result.{new_result}
use odbc.Result.Fetches.{Headers, Frame, fetch}
use odbc.Entry.{Handle, through}
use odbc.Entry.Results.{ResultHandle, through_result}

-- The external pointer to a result, with the buffers of the result.
pub record BufferedHandle (D : Type 0) : Type 0 where
  pub address : Option ℕ
  pub binding : Binding D

module _ {D : Type 0} where
  -- A call through `r->` that works on the buffers.
  unfoldable pub through_buffered : {A : Type 0} → (ℕ → M (Binding D) A) → M (BufferedHandle D) A
  through_buffered m p = elim p.address [
    | none ↦ throw (r_stop invalid_pointer) p
    | some this ↦ (let x = m this p.binding in (x.0, record p { binding = x.1 }))
  ]

module _ {D : Type 0} (drv : Nanodbc D) where
  -- The result is made at the address `this`, through the pointer to the connection.
  unfoldable pub make_result : ℕ → Text → Bool → List Event → M (Handle D) (Unit {0})
  make_result this sql immediate es = through (new_result drv this sql immediate es)

  unfoldable pub result_fetch : Rows D → Headers D → BigintMap → ℕ → ℤ → M (ResultHandle D) Frame
  result_fetch rows headers mapping fuel n_max =
      through_result λ this. fetch drv rows headers mapping fuel this n_max

  module _ (binder : Binder D) (zones : Zones) (mem : Memory) (timezone : ℕ) where
    unfoldable pub result_bind : ℕ → Params → ℕ → M (BufferedHandle D) (Unit {0})
    result_bind fuel params batch_rows =
        through_buffered
          λ this. bind_list drv binder zones mem timezone this fuel params false batch_rows

    unfoldable pub result_insert_dataframe : ℕ → Params → ℕ → M (BufferedHandle D) (Unit {0})
    result_insert_dataframe fuel df batch_rows =
        through_buffered
          λ this. bind_list drv binder zones mem timezone this fuel df true batch_rows

    unfoldable pub result_describe_parameters : Description → M (ResultHandle D) (Unit {0})
    result_describe_parameters df =
        through_result λ this. describe_parameters drv binder zones mem timezone this df
