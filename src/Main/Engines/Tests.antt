-- ===== src/Main/Engines/Tests.antt =====
-- Engines beside a ledger that has ticker 5 only.
use alpha_live.Prelude.{◌≡◌, refl, some, true, false, [], ◌∷◌}
use alpha_live.Prelude.Lists.{All}
use alpha_live.Prelude.Dict.{Dict, lookup}
use alpha_live.State.Types.{buy}
use alpha_live.State.Disk.{Store}
use alpha_live.State.Samples.{sample_state, sample_store}
use alpha_live.Engine.State.{Engine, new_engine, get_state}
use alpha_live.Main.Engines.{sync_engines_with_ledger, has_open_intent}
use alpha_live.Main.Engines.Follow.{Follows, engines_follow_ledger}

-- Engine 5 is flat and engine 6 thinks that it is long.
abbrev long_engine : Engine
long_engine = record (new_engine false) { in_position = true; entry_price = 7 }

abbrev engines : Dict Engine
engines = (5, new_engine false) ∷ (6, long_engine) ∷ []

abbrev no_intents : Store
no_intents = record sample_store {
  mem = record (sample_state buy) { submission_intents = []; engine_state = [] };
}

follow_run : (lookup 6 (sync_engines_with_ledger engines no_intents).0 ≡ some (new_engine false))
unfolding sync_engines_with_ledger lookup new_engine alpha_live.State.Intents.list_open_intents
    alpha_live.Engine.State.sync_position
follow_run = refl

engines_follow_ledger_example :
    let r = sync_engines_with_ledger engines no_intents in
    All (Follows r.1.mem.open_positions (has_open_intent no_intents.mem)) r.0
    × (r.1.mem.open_positions ≡ no_intents.mem.open_positions)
engines_follow_ledger_example = engines_follow_ledger engines no_intents
