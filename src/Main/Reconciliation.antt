-- ===== src/Main/Reconciliation.antt =====
-- `_run_position_reconciliation` of alphalive/main.py, once the open intents have been synced
-- (Orders/Sync.antt), with `_apply_corporate_actions` and `_record_broker_call`. A quotient of a trailing
-- high is a parameter.
pub mod Halts
mod Tests
use Prim.Native.String.{String}
use alpha_live.Prelude.{
  ℕ, ◌+◌, ◌-◌, ◌*◌, Bool, true, false, ◌&&◌, ◌||◌, not, Option, none, some, List, [], ◌∷◌, ◌++◌,
  map, ltb, leb, ◌==◌, if◌then◌else◌,
}
use alpha_live.Prelude.Lists.{any}
use alpha_live.Prelude.Dict.{Dict, lookup, insert, contains}
use alpha_live.Utils.EnvBool.{codes}
use alpha_live.Risk.Types.{RiskManager}
use alpha_live.Risk.Daily.{record_broker_failure, record_broker_success, exit_degraded_mode}
use alpha_live.State.Types.{Position, Status, Intent, BotState, qty_epsilon}
use alpha_live.State.Disk.{mutate}
use alpha_live.State.Ledger.{record_position_open, get_position_high}
use alpha_live.State.Intents.{list_open_intents}
use alpha_live.Main.Ledger.{
  BrokerPosition, Notice, rescaled, untracked, wrong_quantity, not_at_broker, trading_halted, Books,
  notify, by_ticker,
}

-- The bookkeeping, the risk managers of the strategies, and the two pause switches.
pub record Watch : Type 0 where
  pub books : Books
  pub managers : List RiskManager
  pub trading_paused_env : Option (List ℕ)
  pub trading_paused : Bool

unfoldable pub record_broker_call : Bool → List RiskManager → List RiskManager
record_broker_call success =
    map (λ m.
      if success then exit_degraded_mode (record_broker_success m) else record_broker_failure m)

abbrev pub has_ticker : ℕ → Intent → Bool
has_ticker t i = i.ticker == t

abbrev pub gap : ℕ → ℕ → ℕ
gap a b = (a - b) + (b - a)

-- `abs(a - b) > 1e-6`
abbrev pub differs : ℕ → ℕ → Bool
differs a b = ltb qty_epsilon (gap a b)

-- The quantity has changed and the cost is the same within a hundredth.
unfoldable pub is_split : Position → BrokerPosition → Bool
is_split e p =
    ltb 0 e.qty
    && ltb 0 p.qty
    && differs p.qty e.qty
    && ltb 0 (e.qty * e.entry_price)
    && leb (gap (p.qty * p.avg_entry_price) (e.qty * e.entry_price) * 100) (e.qty * e.entry_price)

module _ (divide : ℕ → ℕ → ℕ) where
  abbrev scale_high : ℕ → ℕ → ℕ → BotState → BotState
  scale_high symbol was now_held s = elim (get_position_high symbol s) [
    | none ↦ s
    | some high ↦ record s {
      position_highs = insert symbol (divide (high * was) now_held) s.position_highs;
    }
  ]

  -- A high of 0 counts as none.
  abbrev has_high : ℕ → BotState → Bool
  has_high symbol s = elim (get_position_high symbol s) [ none ↦ false | some high ↦ ltb 0 high ]

  unfoldable pub rescale : ℕ → Position → BrokerPosition → Books → Books
  rescale now e p b =
      let st = record_position_open p.symbol p.qty p.avg_entry_price now b.store in
      notify (rescaled p.symbol) (record b {
        store =
            if has_high p.symbol st.mem
            then (mutate (scale_high p.symbol e.qty p.qty) st).0
            else st;
      })

  -- `ledger` and `busy` are read once, before the loop.
  unfoldable pub apply_one : ℕ → Dict Position → List Intent → BrokerPosition → Books → Books
  unfolding is_split rescale
  apply_one now ledger busy p b = elim (lookup p.symbol ledger) [
    | none ↦ b
    | some e ↦ if not (any (has_ticker p.symbol) busy) && is_split e p then rescale now e p b else b
  ]

  unfoldable pub apply_each : ℕ → Dict Position → List Intent → List BrokerPosition → Books → Books
  unfolding apply_one
  apply_each now ledger busy [] b = b
  apply_each now ledger busy (p ∷ ps) b =
      apply_each now ledger busy ps (apply_one now ledger busy p b)

  unfoldable pub apply_corporate_actions : ℕ → List BrokerPosition → Books → Books
  unfolding apply_each
  apply_corporate_actions now ps b =
      apply_each now b.store.mem.open_positions (list_open_intents b.store.mem) ps b

-- The statuses of an order that is known to work.
abbrev pub is_working : Intent → Bool
is_working i = elim i.status [
  | Status.submitting ↦ true
  | Status.submitted ↦ true
  | Status.partially_filled ↦ true
  | _ ↦ false
]

unfoldable pub is_busy : BotState → ℕ → Bool
is_busy s t = any (λ i. is_working i && i.ticker == t) (list_open_intents s)

-- The drift that one position of the broker shows.
abbrev pub drift_of : ℕ → BrokerPosition → Option Position → List Notice
drift_of t p none = untracked t ∷ []
drift_of t p (some e) = if differs e.qty p.qty then wrong_quantity t ∷ [] else []

unfoldable pub broker_drifts : (ℕ → Bool) → Dict Position → Dict BrokerPosition → List Notice
broker_drifts busy ledger [] = []
broker_drifts busy ledger ((t, p) ∷ d) =
    let rest = broker_drifts busy ledger d in
    if busy t then rest else drift_of t p (lookup t ledger) ++ rest

unfoldable pub ledger_drifts : (ℕ → Bool) → Dict BrokerPosition → Dict Position → List Notice
ledger_drifts busy at_broker [] = []
ledger_drifts busy at_broker ((t, e) ∷ d) =
    let rest = ledger_drifts busy at_broker d in
    if busy t || contains t at_broker then rest else not_at_broker t ∷ rest

-- `busy` was read before the corporate actions, and the ledger after them.
unfoldable pub drifts : (ℕ → Bool) → Dict Position → Dict BrokerPosition → List Notice
unfolding broker_drifts ledger_drifts
drifts busy ledger at_broker =
    broker_drifts busy ledger at_broker ++ ledger_drifts busy at_broker ledger

-- Every drift is sent, and the first one halts trading.
unfoldable pub conclude : List Notice → Watch → Watch
conclude [] w = w
conclude (n ∷ ns) w = record w {
  books = record w.books { notices = w.books.notices ++ (n ∷ ns) ++ trading_halted ∷ [] };
  trading_paused_env = some (codes "true");
  trading_paused = true;
}

unfoldable pub compare_positions : (ℕ → Bool) → List BrokerPosition → Watch → Watch
unfolding conclude drifts by_ticker
compare_positions busy ps w =
    conclude (drifts busy w.books.store.mem.open_positions (by_ticker ps)) w

-- The broker's answer is counted, and splits are rescaled.
unfoldable pub answered : (ℕ → ℕ → ℕ) → ℕ → List BrokerPosition → Watch → Watch
unfolding record_broker_call apply_corporate_actions
answered divide now ps w = record w {
  managers = record_broker_call true w.managers;
  books = apply_corporate_actions divide now ps w.books;
}

-- `none` stands for a broker that raises.
unfoldable pub run_position_reconciliation :
    (ℕ → ℕ → ℕ) → ℕ → Option (List BrokerPosition) → Watch → Watch
unfolding record_broker_call answered compare_positions is_busy
run_position_reconciliation divide now none w = record w {
  managers = record_broker_call false w.managers;
}
run_position_reconciliation divide now (some ps) w =
    compare_positions (is_busy w.books.store.mem) ps (answered divide now ps w)
