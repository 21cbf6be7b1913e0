-- ===== src/State/Engines.antt =====
-- The engine snapshots of `BotState`.
use alpha_live.Prelude.{ℕ, Option}
use alpha_live.Prelude.Dict.{lookup, insert, erase, contains}
use alpha_live.State.Types.{Snapshot, BotState}
use alpha_live.State.Disk.{Store, mutate}
use alpha_live.State.Ledger.{mutate_if}

unfoldable pub save_engine_state : ℕ → Snapshot → Store → Store
save_engine_state ticker e st =
    (mutate (λ s. record s { engine_state = insert ticker e s.engine_state }) st).0

unfoldable pub get_engine_state : ℕ → BotState → Option Snapshot
get_engine_state ticker s = lookup ticker s.engine_state

unfoldable pub clear_engine_state : ℕ → Store → Store
unfolding mutate_if
clear_engine_state ticker st =
    mutate_if (contains ticker st.mem.engine_state)
      (λ s. record s { engine_state = erase ticker s.engine_state }) st
