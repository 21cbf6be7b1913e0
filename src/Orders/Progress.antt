-- ===== src/Orders/Progress.antt =====
-- `_apply_order_progress`: what the broker reports of an order is booked on the ledger, and what a
-- booking realises goes to the risk managers. The order manager has a state and does not run dry.
pub mod Frame
use alpha_live.Prelude.{
  ℕ, Bool, true, false, Option, none, some, List, [], ◌∷◌, ◌++◌, ◌==◌, if◌then◌else◌, is_some,
}
use alpha_live.Prelude.Dict.{lookup, contains}
use alpha_live.Risk.Types.{Now, RiskManager}
use alpha_live.Risk.Daily.{Fill, Desk, record_fill_result}
use alpha_live.Risk.Global.{GlobalRiskManager}
use alpha_live.Risk.Global as Global
use alpha_live.Orders.Placing.{OrderAlert}
use alpha_live.State.Types.{Side, buy, sell, close, Intent, BotState}
use alpha_live.State.Disk.{Store, mutate}
use alpha_live.State.Fills.{Report, to_fill, apply_intent_fill_progress}
use alpha_live.State.Ledger.{
  add_daily_pnl, record_entry, clear_position_high, clear_entry_timestamp,
}

-- An order as the broker reports it: the cumulative quantity and the average price.
pub record BrokerOrder : Type 0 where
  pub id : ℕ
  pub status : Option (List ℕ)
  pub filled_qty : Option ℕ
  pub filled_avg_price : Option ℕ

-- The messages of the order manager; `alert` is one of the placing of an order.
pub data Message : Type 0 where
  fill_message : ℕ → ℕ → ℕ → Message
  abandoned_message : ℕ → Message
  alert : OrderAlert → Message
  high_slippage partial_fill order_failed close_failed : ℕ → Message

-- What the order manager works on; `trading_paused_env` is the variable TRADING_PAUSED.
pub record Office : Type 0 where
  pub manager : RiskManager
  pub global_risk : Option GlobalRiskManager
  pub store : Store
  pub notifier : Bool
  pub fill_events : List Report
  pub messages : List Message
  pub trading_paused_env : Option (List ℕ)

-- A call of the risk manager that persists: its counters go to the state, which is saved.
unfoldable pub on_desk : (Desk → Desk) → Office → Office
on_desk f o =
    let d = f (record { manager = o.manager; saved = o.store.mem.risk_counters }) in
    record o {
      manager = d.manager;
      store =
          if is_some o.manager.state_key
          then (mutate (λ s. record s { risk_counters = d.saved }) o.store).0
          else o.store;
    }

unfoldable pub on_store : (Store → Store) → Office → Office
on_store f o = record o { store = f o.store }

unfoldable pub tell : Message → Office → Office
tell m o = if o.notifier then record o { messages = o.messages ++ m ∷ [] } else o

unfoldable pub count_round_trip : Now → Report → Office → Office
count_round_trip now r o =
    if r.round_trip_closed
    then elim o.global_risk [
      | none ↦ o
      | some g ↦ record o { global_risk = some (Global.record_trade now g) }
    ]
    else o

-- The entry time of a new position, and the end of a closed one.
unfoldable pub track : Now → Report → Store → Store
track now r st = elim r.side [
  | buy ↦
      if contains r.ticker st.mem.entry_timestamps then st else record_entry r.ticker now.instant st
  | sell ↦
      if r.round_trip_closed
      then clear_entry_timestamp r.ticker (clear_position_high r.ticker st)
      else st
  | close ↦
      if r.round_trip_closed
      then clear_entry_timestamp r.ticker (clear_position_high r.ticker st)
      else st
]

-- What follows a booking.
unfoldable pub after_booking : Now → Report → Office → Office
unfolding on_desk on_store tell count_round_trip track
after_booking now r o =
    let a = on_desk (record_fill_result (to_fill r) now) o in
    let b = on_store (add_daily_pnl now.date r.realized_pnl) a in
    let c = on_store (track now r) (count_round_trip now r b) in
    tell (fill_message r.ticker r.delta_qty r.delta_price)
      (record c { fill_events = c.fill_events ++ r ∷ [] })

module _ (divide : ℕ → ℕ → ℕ) where
  unfoldable pub book_report : Now → Office → BotState × Option Report → Office
  unfolding after_booking
  book_report now o (s, none) = o
  book_report now o (s, some r) =
      after_booking now r (record o { store = (mutate (λ _. s) o.store).0 })

  -- The booking of a positive quantity at a positive price.
  unfoldable pub book_fill : Now → Intent → ℕ → ℕ → Office → Office
  unfolding book_report
  book_fill now i filled price o = book_report now o (
      apply_intent_fill_progress divide i.intent_id filled price
        o.manager.risk_config.commission_per_trade now.instant o.store.mem)

  unfoldable pub apply_order_progress : Now → Intent → BrokerOrder → Office → Office
  unfolding book_fill
  apply_order_progress now i order o = elim order.filled_qty [
    | none ↦ o
    | some filled ↦ elim order.filled_avg_price [
      | none ↦ o
      | some price ↦
          if filled == 0 then o else if price == 0 then o else book_fill now i filled price o
    ]
  ]
