-- ===== src/Main/Ledger.antt =====
-- `_sync_position_ledger` of alphalive/main.py: the ledger is brought in line with the broker at startup.
-- Positions are long, so their quantities are numbers.
pub mod Agreement
mod Tests
use alpha_live.Prelude.{ℕ, Bool, Option, none, some, List, [], ◌∷◌, ◌++◌, if◌then◌else◌}
use alpha_live.Prelude.Dict.{Dict, insert, contains}
use alpha_live.State.Types.{Position}
use alpha_live.State.Disk.{Store}
use alpha_live.State.Ledger.{record_position_open, record_position_close}

-- A position as `broker.get_all_positions` reports it.
pub record BrokerPosition : Type 0 where
  pub symbol : ℕ
  pub qty : ℕ
  pub avg_entry_price : ℕ

-- The alerts of the main loop's bookkeeping, each with its ticker.
pub data Notice : Type 0 where
  adopted removed rescaled : ℕ → Notice
  untracked wrong_quantity not_at_broker : ℕ → Notice
  trading_halted : Notice

-- The state, and the alerts sent.
pub record Books : Type 0 where
  pub store : Store
  pub notices : List Notice

abbrev pub notify : Notice → Books → Books
notify n b = record b { notices = b.notices ++ n ∷ [] }

abbrev keyed : Dict BrokerPosition → List BrokerPosition → Dict BrokerPosition
keyed d [] = d
keyed d (p ∷ ps) = keyed (insert p.symbol p d) ps

-- `{pos.symbol: pos for pos in positions}`
unfoldable pub by_ticker : List BrokerPosition → Dict BrokerPosition
by_ticker = keyed []

-- `ledger` is the copy taken before the first change.
unfoldable pub adopt_one : ℕ → Dict Position → ℕ → BrokerPosition → Books → Books
adopt_one now ledger symbol p b =
    if contains symbol ledger
    then b
    else notify (adopted symbol)
        (record b { store = record_position_open symbol p.qty p.avg_entry_price now b.store })

unfoldable pub adopt_each : ℕ → Dict Position → Dict BrokerPosition → Books → Books
unfolding adopt_one
adopt_each now ledger [] b = b
adopt_each now ledger ((symbol, p) ∷ d) b =
    adopt_each now ledger d (adopt_one now ledger symbol p b)

unfoldable pub remove_one : Dict BrokerPosition → ℕ → Books → Books
remove_one at_broker symbol b =
    if contains symbol at_broker
    then b
    else notify (removed symbol) (record b { store = record_position_close symbol b.store })

unfoldable pub remove_each : Dict BrokerPosition → Dict Position → Books → Books
unfolding remove_one
remove_each at_broker [] b = b
remove_each at_broker ((symbol, p) ∷ d) b = remove_each at_broker d (remove_one at_broker symbol b)

-- `none` stands for a broker that raises.
unfoldable pub sync_position_ledger : ℕ → Option (List BrokerPosition) → Books → Books
unfolding by_ticker adopt_each remove_each
sync_position_ledger now none b = b
sync_position_ledger now (some ps) b =
    let d = by_ticker ps in
    let ledger = b.store.mem.open_positions in remove_each d ledger (adopt_each now ledger d b)
