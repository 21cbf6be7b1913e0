-- ===== src/Main/Reconciliation/Tests.antt =====
-- A reconciliation after a split, and one with a lost position.
use alpha_live.Prelude.{ℕ, ◌≡◌, ◌⊎◌, ◌*◌, ◌/◌, refl, some, none, true, false, List, [], ◌∷◌}
use alpha_live.Prelude.Dict.{lookup, insert}
use alpha_live.Risk.Types.{share}
use alpha_live.State.Types.{buy}
use alpha_live.Utils.EnvBool.{codes}
use alpha_live.State.Samples.{sample_state, sample_store}
use alpha_live.Main.Ledger.{BrokerPosition, by_ticker, rescaled, wrong_quantity, trading_halted}
use alpha_live.Main.Reconciliation.{Watch, run_position_reconciliation, is_busy}
use alpha_live.Main.Reconciliation.Halts.{AllMatch, Drifts, reconciliation_halts}

-- Division rounded down, for the runs.
abbrev quotient : ℕ → ℕ → ℕ
quotient a b = a / b

-- Ticker 5 has ten shares at 100 dollars and no order at work.
abbrev watch : Watch
watch = record {
  books = record {
    store = record sample_store {
      mem = record (sample_state buy) {
        submission_intents = [];
        position_highs = (5, 120000000) ∷ [];
      };
    };
    notices = [];
  };
  managers = [];
  trading_paused_env = none;
  trading_paused = false;
}

abbrev holds : ℕ → ℕ → List BrokerPosition
holds qty price = record { symbol = 5; qty = qty * share; avg_entry_price = price } ∷ []

-- Forty shares at 25 dollars.
split_run :
    let w = run_position_reconciliation quotient 2000 (some (holds 40 25000000)) watch in
    (w.books.notices ≡ rescaled 5 ∷ [])
    × (w.trading_paused ≡ false)
    × (w.books.store.mem.position_highs ≡ (5, 30000000) ∷ [])
unfolding run_position_reconciliation insert alpha_live.State.Intents.list_open_intents lookup
    alpha_live.State.Ledger.get_position_high alpha_live.State.Ledger.record_position_open
    alpha_live.State.Disk.mutate
split_run = (refl, refl, refl)

-- Nine shares at 100 dollars.
drift_run :
    let w = run_position_reconciliation quotient 2000 (some (holds 9 100000000)) watch in
    (w.books.notices ≡ wrong_quantity 5 ∷ trading_halted ∷ []) × (w.trading_paused ≡ true)
unfolding run_position_reconciliation insert alpha_live.State.Intents.list_open_intents lookup
drift_run = (refl, refl)

reconciliation_halts_example :
    let w = run_position_reconciliation quotient 2000 (some (holds 9 100000000)) watch in
    let busy = is_busy watch.books.store.mem in
    let ledger = w.books.store.mem.open_positions in
    (AllMatch busy ledger (by_ticker (holds 9 100000000))
      × (w.trading_paused_env ≡ none)
      × (w.trading_paused ≡ false))
    ⊎ (Drifts busy ledger (by_ticker (holds 9 100000000))
        × (w.trading_paused_env ≡ some (codes "true"))
        × (w.trading_paused ≡ true))
reconciliation_halts_example = reconciliation_halts quotient 2000 (holds 9 100000000) watch
