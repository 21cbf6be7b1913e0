-- ===== src/Orders/Sync.antt =====
-- `sync_open_intents`: every open intent of the manager's ticker is brought up to date.
pub mod Reads
use alpha_live.Prelude.{ℕ, Bool, List, [], ◌∷◌, if◌then◌else◌, ◌==◌}
use alpha_live.Risk.Types.{Now}
use alpha_live.State.Types.{close, Intent, BotState}
use alpha_live.State.Intents.{list_open_intents, eq_side}
use alpha_live.Orders.Progress.{Office}
use alpha_live.Orders.Reconcile.{Action, reconcile_intent}
use alpha_live.Orders.Venue.{Venue}
use alpha_live.Orders.OpenClose.{Closing, reconcile_open_close_intent}

-- What became of an intent, by its id.
pub data Synced : Type 0 where
  worked : ℕ → Action → Synced
  closed : ℕ → Closing → Synced

module _ {S : Type 0} (venue : Venue S) (divide : ℕ → ℕ → ℕ) (grace : ℕ) (new_id : BotState → ℕ)
    (now : Now) where
  unfoldable pub sync_one : Intent → Office × S → (Office × S) × Synced
  sync_one i (o, s) =
      if eq_side i.side close
      then (let (x, c) = reconcile_open_close_intent venue divide grace new_id now i (o, s) in
          (x, closed i.intent_id c))
      else (let (s', answer) = venue.broker.look_up i.client_order_id s in
          let (o', a) = reconcile_intent divide grace now i answer o in
          ((o', s'), worked i.intent_id a))

  -- The loop; `own` is `self.config.ticker`.
  unfoldable pub sync_each : ℕ → List Intent → Office × S → (Office × S) × List Synced
  unfolding sync_one
  sync_each own [] x = (x, [])
  sync_each own (i ∷ is) x =
      if i.ticker == own
      then (let (y, r) = sync_one i x in let (z, rs) = sync_each own is y in (z, r ∷ rs))
      else sync_each own is x

  unfoldable pub sync_open_intents : Bool → ℕ → Office × S → (Office × S) × List Synced
  unfolding sync_each
  sync_open_intents dry_run own x =
      if dry_run then (x, []) else sync_each own (list_open_intents x.0.store.mem) x
