-- ===== src/State/Fills.antt =====
-- `apply_intent_fill_progress`: the new part of a cumulative fill, booked once. `divide` is the
-- quotient of an amount by a quantity as `Decimal` and `float` round it; nothing is assumed of it
-- here.
pub mod Once
pub mod Conserve
pub mod Profit
mod Tests
use alpha_live.Prelude.{
  ℕ, ◌+◌, ◌-◌, ◌*◌, Bool, true, false, Option, none, some, ℤ, pos, ◌+ℤ◌, ◌-ℤ◌, sub_ℕ, leb, ltb,
  ◌==◌, if◌then◌else◌, get_or,
}
use alpha_live.Prelude.Dict.{Dict, lookup, insert, erase}
use alpha_live.Risk.Daily.{Fill}
use alpha_live.State.Types.{Position, Side, buy, sell, close, Intent, BotState, qty_epsilon}

-- What the call returns when something new was applied.
pub record Report : Type 0 where
  pub ticker : ℕ
  pub side : Side
  pub delta_qty : ℕ
  pub delta_price : ℕ
  pub realized_pnl : ℤ
  pub position_qty_after : ℕ
  pub round_trip_closed : Bool
  pub round_trip_pnl : Option ℤ

-- What is new in the broker's figures.
pub record Delta : Type 0 where
  pub qty : ℕ
  pub price : ℕ
  pub fee : ℕ
  pub time : ℕ

-- What a booking leaves: the ledger, and the part of the report that depends on the side.
pub record Booking : Type 0 where
  pub ledger : Dict Position
  pub realized : ℤ
  pub after : ℕ
  pub closed : Option ℤ

abbrev pub opening : ℕ → Position
opening time = record { qty = 0; entry_price = 0; opened_at = time; realized_pnl = pos 0 }

-- The profit of the quantity sold over its average entry price, less the fee.
unfoldable pub realized_by : Delta → Position → ℤ
realized_by d p = sub_ℕ (d.price * d.qty) (p.entry_price * d.qty) -ℤ pos d.fee

-- The SELL and CLOSE branch.
unfoldable pub book_sell : ℕ → Delta → Option Position → Dict Position → Booking
unfolding realized_by
book_sell ticker d none ledger = record {
  ledger = ledger;
  realized = pos 0 -ℤ pos d.fee;
  after = 0;
  closed = none;
}
book_sell ticker d (some p) ledger =
    let realized = realized_by d p in
    let cumulative = p.realized_pnl +ℤ realized in
    if leb p.qty (d.qty + qty_epsilon)
    then record {
      ledger = erase ticker ledger;
      realized = realized;
      after = 0;
      closed = some cumulative;
    }
    else record {
      ledger = insert ticker (record p { qty = p.qty - d.qty; realized_pnl = cumulative }) ledger;
      realized = realized;
      after = p.qty - d.qty;
      closed = none;
    }

abbrev pub is_closed : Option ℤ → Bool
is_closed none = false
is_closed (some _) = true

-- The report as the risk manager reads it.
unfoldable pub to_fill : Report → Fill
to_fill r = record {
  ticker = r.ticker;
  realized_pnl = r.realized_pnl;
  round_trip_closed = r.round_trip_closed;
  round_trip_pnl = r.round_trip_pnl;
}

-- The intent after a booking.
unfoldable pub applied : Intent → ℕ → ℕ → ℕ → Intent
applied i filled avg now = record i {
  filled_qty_applied = filled;
  filled_value_applied = filled * avg;
  commission_applied = true;
  updated_at = now;
}

module _ (divide : ℕ → ℕ → ℕ) where
  -- `delta_price`: the incremental price, or the average price if that is not positive.
  unfoldable pub delta_price : ℕ → ℕ → ℕ → ℕ → ℕ
  delta_price total applied_value delta_qty avg_price =
      let p = divide (total - applied_value) delta_qty in
      if ltb applied_value total then if p == 0 then avg_price else p else avg_price

  -- The BUY branch.
  unfoldable pub add_to : Delta → Position → Position
  add_to d p = record p {
    qty = p.qty + d.qty;
    entry_price = divide (p.qty * p.entry_price + d.qty * d.price) (p.qty + d.qty);
    realized_pnl = p.realized_pnl -ℤ pos d.fee;
  }

  unfoldable pub book_buy : ℕ → Delta → Option Position → Dict Position → Booking
  unfolding add_to
  book_buy ticker d entry ledger =
      let p = add_to d (get_or entry (opening d.time)) in
      record {
        ledger = insert ticker p ledger;
        realized = pos 0 -ℤ pos d.fee;
        after = p.qty;
        closed = none;
      }

  unfoldable pub book : Side → ℕ → Delta → Dict Position → Booking
  book buy ticker d ledger = book_buy ticker d (lookup ticker ledger) ledger
  book sell ticker d ledger = book_sell ticker d (lookup ticker ledger) ledger
  book close ticker d ledger = book_sell ticker d (lookup ticker ledger) ledger

  unfoldable pub delta_of : Intent → ℕ → ℕ → ℕ → ℕ → Delta
  unfolding delta_price
  delta_of i filled avg commission now = record {
    qty = filled - i.filled_qty_applied;
    price = delta_price (filled * avg) i.filled_value_applied (filled - i.filled_qty_applied) avg;
    fee = if i.commission_applied then 0 else commission;
    time = now;
  }

  unfoldable pub apply_new : ℕ → Intent → ℕ → ℕ → ℕ → ℕ → BotState → BotState × Report
  unfolding delta_of applied
  apply_new intent_id i filled avg commission now s =
      let d = delta_of i filled avg commission now in
      let b = book i.side i.ticker d s.open_positions in
      (
        record s {
          open_positions = b.ledger;
          submission_intents = insert intent_id (applied i filled avg now) s.submission_intents;
        },
        record {
          ticker = i.ticker;
          side = i.side;
          delta_qty = d.qty;
          delta_price = d.price;
          realized_pnl = b.realized;
          position_qty_after = b.after;
          round_trip_closed = is_closed b.closed;
          round_trip_pnl = b.closed;
        },
      )

  unfoldable pub apply_intent_fill_progress :
      ℕ → ℕ → ℕ → ℕ → ℕ → BotState → BotState × Option Report
  apply_intent_fill_progress intent_id filled avg commission now s =
      elim (lookup intent_id s.submission_intents) [
        | none ↦ (s, none)
        | some i ↦
            if leb filled (i.filled_qty_applied + qty_epsilon)
            then (s, none)
            else let (s', r) = apply_new intent_id i filled avg commission now s in (s', some r)
      ]
