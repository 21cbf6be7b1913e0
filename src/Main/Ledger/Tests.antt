-- ===== src/Main/Ledger/Tests.antt =====
-- A startup sync: ticker 5 is in both, ticker 6 only at the broker, and 7 only in the ledger.
use alpha_live.Prelude.{◌≡◌, ◌*◌, refl, some, none, List, [], ◌∷◌}
use alpha_live.Prelude.Dict.{lookup, insert, erase}
use alpha_live.Risk.Types.{share}
use alpha_live.State.Types.{buy}
use alpha_live.State.Samples.{sample_position, sample_state, sample_store}
use alpha_live.State.Ledger.{record_position_open}
use alpha_live.Main.Ledger.{
  BrokerPosition, Books, sync_position_ledger, by_ticker, adopted, removed,
}
use alpha_live.Main.Ledger.Agreement.{held_at, synced_entry, sync_position_ledger_agrees}

abbrev at_broker : List BrokerPosition
at_broker =
    record { symbol = 5; qty = 12 * share; avg_entry_price = 100000000 }
    ∷ record { symbol = 6; qty = 3 * share; avg_entry_price = 50000000 }
    ∷ []

abbrev books : Books
books = record {
  store = record sample_store {
    mem = record (sample_state buy) {
      open_positions = (5, sample_position) ∷ (7, sample_position) ∷ [];
    };
  };
  notices = [];
}

sync_run :
    ((sync_position_ledger 2000 (some at_broker) books).notices ≡ adopted 6 ∷ removed 7 ∷ [])
    × (held_at 7 (sync_position_ledger 2000 (some at_broker) books) ≡ none)
unfolding sync_position_ledger lookup insert alpha_live.State.Ledger.record_position_close
    record_position_open alpha_live.State.Disk.mutate erase
sync_run = (refl, refl)

sync_position_ledger_agrees_example :
    (held_at 6 (sync_position_ledger 2000 (some at_broker) books)
      ≡ synced_entry 2000 (held_at 6 books) (lookup 6 (by_ticker at_broker)))
    × (sync_position_ledger 2000 none books ≡ books)
sync_position_ledger_agrees_example = sync_position_ledger_agrees 2000 6 at_broker books
