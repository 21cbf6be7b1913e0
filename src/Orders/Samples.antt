-- ===== src/Orders/Samples.antt =====
-- An order manager and broker orders for the tests.
use alpha_live.Prelude.{ℕ, ◌*◌, ◌/◌, true, false, none, some, List, [], ◌∷◌, pos}
use alpha_live.Utils.Retry.{returns}
use alpha_live.Utils.EnvBool.{codes}
use alpha_live.Risk.Types.{share}
use alpha_live.Risk.Samples.{sample_manager}
use alpha_live.State.Types.{BotState}
use alpha_live.State.Samples.{sample_store}
use alpha_live.Orders.Progress.{BrokerOrder, Office}
use alpha_live.Orders.Reconcile.{unknown}
use alpha_live.Orders.Venue.{held, Ticket, Venue}
use alpha_live.Orders.Signals.{Journal}

-- Division rounded down, for the runs.
abbrev pub quotient : ℕ → ℕ → ℕ
quotient a b = a / b

-- The office of the store in which intent 11 buys ten shares.
abbrev pub sample_office : Office
sample_office = record {
  manager = sample_manager;
  global_risk = none;
  store = sample_store;
  notifier = true;
  fill_events = [];
  messages = [];
  trading_paused_env = none;
}

-- Four of the ten shares are filled at 100 dollars.
abbrev pub partly_filled : BrokerOrder
partly_filled = record {
  id = 77;
  status = some (codes "Partially_Filled");
  filled_qty = some (4 * share);
  filled_avg_price = some 100000000;
}

-- The order is live and nothing of it is filled.
abbrev pub live_order : BrokerOrder
live_order = record {
  id = 77;
  status = some (codes "new");
  filled_qty = none;
  filled_avg_price = none;
}

-- A broker that holds four shares of everything, answers an order with `live_order`, knows no client
-- order id, and remembers the tickets, the last one first.
abbrev pub sample_venue : Venue (List Ticket)
sample_venue = record {
  broker = record { look_up = λ id s. (s, unknown); cancel_order = λ id s. (s, true) };
  get_position = λ t s. (s, held (record { qty = pos (4 * share); is_short = false }));
  attempt = λ t s n. returns live_order;
  existing = λ t s. returns none;
  after_placing = λ t s. t ∷ s;
}

-- The ids of new intents, where intent 11 is there.
abbrev pub id_twelve : BotState → ℕ
id_twelve s = 12

abbrev pub empty_journal : Journal
empty_journal = record { order_history = []; recent = [] }
