-- ===== src/Orders/Venue/Crash.antt =====
-- A crash while an order is being sent.
use alpha_live.Prelude.{ℕ, ◌≡◌, true, Option, List, ℤ}
use alpha_live.Risk.Types.{Now, OrderType}
use alpha_live.State.Types.{Side, BotState}
use alpha_live.State.Disk.{Store, File}
use alpha_live.Orders.Progress.{Office}
use alpha_live.Orders.Venue.{prepare}

module _ (new_id : BotState → ℕ) (now : Now) (ticker : ℕ) (qty : ℤ) (side : Side) (t : OrderType)
    (o : Office) (backup : File) (env : Option (List ℕ)) (writes : o.store.file_ok ≡ true) where
  -- The store when the order is sent.
  abbrev pub sent_from : Store
  sent_from = (prepare new_id now ticker qty side t o).0.store
