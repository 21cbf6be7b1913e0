-- ===== src/Orders/Settle/Wait.antt =====
-- A close waits for the orders that work.
use alpha_live.Prelude.{ℕ, ◌≡◌, true, none, some}
use alpha_live.Risk.Types.{Now}
use alpha_live.State.Types.{Side, Intent}
use alpha_live.State.Intents.{get_open_intent}
use alpha_live.Orders.Progress.{Office}
use alpha_live.Orders.Settle.{Broker, live_only, is_entry}

-- No order of the side works for the ticker, as far as the newest open intent tells.
abbrev pub IsQuiet : ℕ → Side → Office → Type 0
IsQuiet ticker side o = live_only (get_open_intent ticker side o.store.mem) ≡ none

module _ {S : Type 0} (broker : Broker S) (divide : ℕ → ℕ → ℕ) (grace : ℕ) (now : Now) where
  -- What the broker does keeps a predicate of its state, if only entries of the ticker are cancelled.
  pub record KeepsBroker (ticker : ℕ) (P : S → Type 0) : Type 0 where
    pub looks : (id : ℕ) (s : S) → P s → P (broker.look_up id s).0
    pub cancels :
        (i : Intent) (id : ℕ) (s : S)
        → is_entry ticker i ≡ true
        → i.broker_order_id ≡ some id
        → P s
        → P (broker.cancel_order id s).0
