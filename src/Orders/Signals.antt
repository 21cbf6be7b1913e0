-- ===== src/Orders/Signals.antt =====
-- The decision of `execute_signal`, with `_check_recent_order` and `_calculate_limit_price`. A
-- limit price is exact: the code's percentage of the price, in units of 10⁻¹⁴ dollars.
use alpha_live.Prelude.{
  ℕ, ◌+◌, ◌*◌, Bool, true, false, ◌&&◌, Option, none, some, List, [], ◌∷◌, ℤ, pos, negsuc, ◌-ℤ◌,
  pos_part, ltb, leb_ℤ, ◌==◌, if◌then◌else◌,
}
use alpha_live.Risk.Types.{Now, Signal, OrderType, market, limit, whole, RiskManager}
use alpha_live.Risk.Sizing.{calculate_position_size}
use alpha_live.Risk.Gate.{Bars, index, bar, Request, Reason}
use alpha_live.State.Types.{Side, Status, Intent}
use alpha_live.Orders.Venue.{Located, lookup_raised, no_position, held, Ticket}

-- An entry of `order_history`.
pub record OrderRecord : Type 0 where
  pub ticker : ℕ
  pub side : Side
  pub qty : ℤ
  pub filled_qty : ℕ
  pub price : Option ℕ
  pub order_id : ℕ
  pub timestamp : ℕ
  pub bar_ts : Option ℕ
  pub status : Status

-- The order manager's own lists: `recent` is `_recent_order_index`, its newest entries first, so that
-- the first for a ticker and side is the one that the index holds.
pub record Journal : Type 0 where
  pub order_history : List OrderRecord
  pub recent : List OrderRecord

-- Why a signal is not followed.
pub data Obstacle : Type 0 where
  not_actionable : Obstacle
  risk : Reason → Obstacle
  duplicate : OrderRecord → Obstacle
  unresolved : List Intent → Obstacle
  nothing_held no_size : Obstacle

-- The result, less its texts and the slippage; `taken` is that of an order that the broker took.
pub data SignalResult : Type 0 where
  blocked : Obstacle → SignalResult
  position_unknown order_error : SignalResult
  simulated : ℤ → ℕ → SignalResult
  taken : Status → ℕ → ℤ → SignalResult
  taken_with_error : Option Status → ℕ → ℤ → SignalResult

-- The side of an actionable signal.
unfoldable pub side_of : Signal → Option Side
side_of Signal.buy = some Side.buy
side_of Signal.sell = some Side.sell
side_of Signal.hold = none

abbrev pub same_side : Side → Side → Bool
same_side Side.buy Side.buy = true
same_side Side.sell Side.sell = true
same_side Side.close Side.close = true
same_side _ _ = false

unfoldable pub in_index : ℕ → Side → List OrderRecord → Option OrderRecord
in_index ticker side [] = none
in_index ticker side (r ∷ rs) =
    if r.ticker == ticker && same_side r.side side then some r else in_index ticker side rs

-- The order, if it is less than 60 seconds old.
abbrev pub if_recent : Now → Option OrderRecord → Option OrderRecord
if_recent now none = none
if_recent now (some r) = if ltb now.instant (r.timestamp + 60) then some r else none

unfoldable pub check_recent_order : Now → ℕ → Side → Journal → Option OrderRecord
unfolding in_index
check_recent_order now ticker side j = if_recent now (in_index ticker side j.recent)

-- `current_price * (1 ± offset_pct / 100)`
unfoldable pub calculate_limit_price : ℕ → Side → ℕ → ℤ
calculate_limit_price price Side.buy offset = pos (price * (whole + offset))
calculate_limit_price price _ offset = pos (price * whole) -ℤ pos (price * offset)

unfoldable pub open_for : ℕ → List Intent → List Intent
open_for ticker [] = []
open_for ticker (i ∷ is) =
    let rest = open_for ticker is in if i.ticker == ticker then i ∷ rest else rest

unfoldable pub last : List ℕ → Option ℕ
last [] = none
last (n ∷ []) = some n
last (n ∷ m ∷ ns) = last (m ∷ ns)

-- `bar_ts`: the last of the bars.
unfoldable pub bar_time : Option Bars → Option ℕ
unfolding last
bar_time none = none
bar_time (some (index bars)) = last bars
bar_time (some (bar n)) = none

abbrev pub is_zero : ℤ → Bool
is_zero (pos n) = n == 0
is_zero (negsuc n) = false

-- `held_qty`; a failed lookup has none.
abbrev pub held_qty : Located → Option ℤ
held_qty lookup_raised = none
held_qty no_position = some (pos 0)
held_qty (held h) = some h.qty

-- What is to be done with a signal: nothing, or an order of a quantity.
pub data Decision : Type 0 where
  refuse : SignalResult → Decision
  place : ℤ → Decision

abbrev pub nonzero : ℤ → Decision
nonzero qty = if is_zero qty then refuse (blocked no_size) else place qty

-- The quantity: all that is held, or the size of the entry.
unfoldable pub size_order : RiskManager → Request → ℕ → Side → ℤ → Decision
size_order m r price Side.sell owned =
    if leb_ℤ owned (pos 0) then refuse (blocked nothing_held) else nonzero owned
size_order m r price _ owned = nonzero (
    pos (
      calculate_position_size m.execution_config.order_type m.risk_config.max_position_size_pct
        (pos price) r.account_equity (pos (pos_part owned * price))))

unfoldable pub decide : RiskManager → Request → ℕ → Side → Located → Decision
unfolding size_order
decide m r price side found = elim (held_qty found) [
  | none ↦ refuse position_unknown
  | some qty ↦ size_order m r price side qty
]

-- The ticket of a market or a limit order.
unfoldable pub limit_for : OrderType → ℕ → Side → ℕ → Option ℤ
unfolding calculate_limit_price
limit_for market price side offset = none
limit_for limit price side offset = some (calculate_limit_price price side offset)

abbrev pub ticket_for : RiskManager → ℕ → ℕ → Side → ℤ → Intent → Ticket
ticket_for m ticker price side qty i = record {
  symbol = ticker;
  qty = qty;
  side = side;
  limit_price =
      limit_for m.execution_config.order_type price side m.execution_config.limit_offset_pct;
  client_order_id = i.client_order_id;
}
