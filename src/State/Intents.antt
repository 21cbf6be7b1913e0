-- ===== src/State/Intents.antt =====
-- The submission intents of `BotState`: storage and queries. The intent's id is the fresh uuid of
-- `create_submission_intent`; the client order id is named by it, since the uuid alone tells two of
-- them apart.
pub mod Queries
pub mod Durable
pub mod Contract
pub mod Refines
mod Tests
use alpha_live.Prelude.{
  ℕ, Bool, true, false, ◌&&◌, Option, none, some, List, [], ◌∷◌, ℤ, leb, ◌==◌, if◌then◌else◌,
}
use alpha_live.Prelude.Dict.{Dict, lookup, insert}
use alpha_live.Risk.Types.{OrderType}
use alpha_live.State.Types.{
  Side, buy, sell, close, Status, prepared, no_error, Intent, BotState, is_open,
}
use alpha_live.State.Disk.{Store, mutate}

abbrev pub eq_side : Side → Side → Bool
eq_side buy buy = true
eq_side sell sell = true
eq_side close close = true
eq_side _ _ = false

unfoldable pub new_intent : ℕ → ℕ → Side → ℤ → OrderType → ℕ → Intent
new_intent id ticker side qty order_type now = record {
  intent_id = id;
  client_order_id = id;
  ticker = ticker;
  side = side;
  qty = qty;
  order_type = order_type;
  status = prepared;
  broker_order_id = none;
  created_at = now;
  updated_at = now;
  last_error = no_error;
  filled_qty_applied = 0;
  filled_value_applied = 0;
  commission_applied = false;
  not_found_since = none;
}

abbrev pub put_intent : ℕ → Intent → BotState → BotState
put_intent id i s = record s { submission_intents = insert id i s.submission_intents }

-- The store afterwards, and the intent.
unfoldable pub create_submission_intent : ℕ → ℕ → Side → ℤ → OrderType → ℕ → Store → Store × Intent
create_submission_intent id ticker side qty order_type now st =
    let i = new_intent id ticker side qty order_type now in ((mutate (put_intent id i) st).0, i)

-- `update_submission_intent`; `fields` sets the given fields. An unknown intent is logged, and
-- nothing is saved.
unfoldable pub update_submission_intent : ℕ → (Intent → Intent) → ℕ → Store → Store
update_submission_intent id fields now st = elim (lookup id st.mem.submission_intents) [
  | none ↦ st
  | some i ↦ (mutate (put_intent id (record (fields i) { updated_at = now })) st).0
]

unfoldable pub get_submission_intent : ℕ → BotState → Option Intent
get_submission_intent id s = lookup id s.submission_intents

unfoldable pub is_candidate : ℕ → Side → Intent → Bool
is_candidate ticker side i = i.ticker == ticker && eq_side i.side side && is_open i.status

abbrev pub later_of : Option Intent → Intent → Option Intent
later_of none i = some i
later_of (some b) i = if leb b.created_at i.created_at then some i else some b

-- The last of the candidates in the stable order of their creation times.
unfoldable pub latest_from : Option Intent → Dict Intent → (Intent → Bool) → Option Intent
latest_from best [] p = best
latest_from best ((id, i) ∷ d) p = latest_from (if p i then later_of best i else best) d p

unfoldable pub get_open_intent : ℕ → Side → BotState → Option Intent
unfolding is_candidate latest_from
get_open_intent ticker side s = latest_from none s.submission_intents (is_candidate ticker side)

unfoldable pub open_in : Dict Intent → List Intent
open_in [] = []
open_in ((id, i) ∷ d) = let rest = open_in d in if is_open i.status then i ∷ rest else rest

unfoldable pub list_open_intents : BotState → List Intent
unfolding open_in
list_open_intents s = open_in s.submission_intents
