-- ===== src/Result/Binds.antt =====
-- `bind_list` and `describe_parameters` leave a safe connection safe.
use odbc.Prelude.{ℕ, inl, inr, Bool}
use odbc.Nanodbc.{Nanodbc, Reply}
use odbc.Session.{Session, call, modify}
use odbc.Params.{Params, Binder, Zones, Memory}
use odbc.Bind.{Binding}
use odbc.Bind.Rounds.{Description, bind_list, describe_parameters}
use odbc.Bind.Stable.{Keeps}
use odbc.Bind.Stable.Frames.{Framed}
use odbc.Bind.Stable.Rounds.{Rewrites, Steady}
use odbc.Bind.Stable.Whole.{Asks, Encloses, bind_list-Keeps, describe_parameters-Keeps}
use odbc.Result.Safety.{IsSafe}
use odbc.Result.Always.{Always, call-Always, notify-Always, rewrite-Always}

module _ {D : Type 0} where
  calls {ℓ} : {A : Type ℓ} (f : D → Reply A × D) → Keeps {S = Session D} IsSafe (call f)
  calls f = record { after = call-Always f }

  drops : (f : D → D) → Keeps {S = Session D} IsSafe (modify λ s. record s { driver = f s.driver })
  drops f = record { after = λ s p. dropped s p }
    where
      dropped : (s : Session D) → IsSafe s → IsSafe (record s { driver = f s.driver })
      dropped s (inl h) = inl h
      dropped s (inr h) = inr h

  IsSafe-Framed : (binder : Binder D) → Framed {D = D} IsSafe binder
  IsSafe-Framed binder = record {
    vectors = record {
      bind = λ obj col b. calls (binder.bind obj col b);
      parameter_type = λ obj col. calls (binder.parameter_type obj col);
      parameter_scale = λ obj col. calls (binder.parameter_scale obj col);
      told = λ n. record { after = notify-Always n };
    };
    new_table = λ st col n. calls (binder.new_table st col n);
    close_table = λ p. calls (binder.close_table p);
    drop_table = λ p. drops (binder.drop_table p);
    check_user_interrupt = calls binder.check_user_interrupt;
  }

  IsSafe-Rewrites : (this : ℕ) → Rewrites {D = D} IsSafe this
  IsSafe-Rewrites this = record {
    rewritten =
        λ f rest same h. record { after = rewrite-Always this f rest same (λ o. (h o).after) };
  }

  module _ (drv : Nanodbc D) where
    IsSafe-Steady : (this : ℕ) → Steady IsSafe drv this
    IsSafe-Steady this = record {
      execute = λ st n. calls (drv.execute st n);
      columns = λ r. calls (drv.columns r);
      drop_result = λ r. drops (drv.drop_result r);
      rewrites = IsSafe-Rewrites this;
    }

    IsSafe-Asks : Asks IsSafe drv
    IsSafe-Asks = record { parameters = λ st. calls (drv.parameters st) }

    IsSafe-Encloses : Encloses IsSafe drv
    IsSafe-Encloses = record {
      asks = IsSafe-Asks;
      txn_capable = calls drv.txn_capable;
      new_transaction = calls drv.new_transaction;
      commit = λ t. calls (drv.commit t);
      drop_transaction = λ t. drops (drv.drop_transaction t);
    }

    module _ (binder : Binder D) (zones : Zones) (mem : Memory) (timezone this : ℕ) where
      pub bind_list-Safely :
          (fuel : ℕ) (xs : Params) (use_transaction : Bool) (batch_rows : ℕ) (s : Binding D)
          → IsSafe s.session
          → IsSafe
              (bind_list drv binder zones mem timezone this fuel xs use_transaction batch_rows
                s).1.session
      bind_list-Safely fuel xs use_transaction batch_rows =
          (bind_list-Keeps (IsSafe-Framed binder) (IsSafe-Steady this) IsSafe-Encloses zones mem
            timezone fuel xs use_transaction batch_rows).after

      pub describe_parameters-Safely :
          (x : Description)
          → Always IsSafe (describe_parameters drv binder zones mem timezone this x)
      describe_parameters-Safely x =
          (describe_parameters-Keeps IsSafe-Asks binder zones mem timezone this
            (λ st a b c d. calls (binder.describe_parameters st a b c d)) x).after
