-- ===== src/State/Samples.antt =====
-- An order's intent, a position and a state for the tests.
use alpha_live.Prelude.{◌*◌, true, false, none, some, [], ◌∷◌, pos}
use alpha_live.Risk.Types.{market, share}
use alpha_live.State.Types.{Position, Side, Intent, Status, no_error, BotState, default_state}
use alpha_live.State.Disk.{Store, missing}

-- Intent 11: ten shares of ticker 5, sent and not yet filled.
abbrev pub sample_intent : Side → Intent
sample_intent side = record {
  intent_id = 11;
  client_order_id = 11;
  ticker = 5;
  side = side;
  qty = pos (10 * share);
  order_type = market;
  status = Status.submitted;
  broker_order_id = some 77;
  created_at = 1000;
  updated_at = 1000;
  last_error = no_error;
  filled_qty_applied = 0;
  filled_value_applied = 0;
  commission_applied = false;
  not_found_since = none;
}

-- Ten shares at 100 dollars.
abbrev pub sample_position : Position
sample_position = record {
  qty = 10 * share;
  entry_price = 100000000;
  opened_at = 900;
  realized_pnl = pos 0;
}

abbrev pub sample_state : Side → BotState
sample_state side = record default_state {
  open_positions = (5, sample_position) ∷ [];
  submission_intents = (11, sample_intent side) ∷ [];
}

abbrev pub sample_store : Store
sample_store = record {
  mem = sample_state Side.buy;
  file = missing;
  backup = missing;
  file_ok = true;
  backup_ok = false;
}
