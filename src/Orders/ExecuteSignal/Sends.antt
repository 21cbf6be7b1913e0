-- ===== src/Orders/ExecuteSignal/Sends.antt =====
-- When a signal sends an order, and what order it is.
use alpha_live.Prelude.{ℕ, ◌≡◌, false, Option, none, [], ◌⊎◌, Outcome}
use alpha_live.Risk.Types.{Now}
use alpha_live.Risk.Gate.{PauseCause, Request, Verdict, can_trade}
use alpha_live.State.Types.{Side, BotState}
use alpha_live.State.Intents.{list_open_intents}
use alpha_live.Orders.Progress.{Office}
use alpha_live.Orders.Venue.{Ticket, Venue}
use alpha_live.Orders.Sync.{sync_open_intents}
use alpha_live.Orders.Sync.Reads.{Reads}
use alpha_live.Orders.Signals.{Journal, check_recent_order, open_for, place, decide}

-- What the risk manager answers about the request.
abbrev pub verdict_on : Option PauseCause → Request → Office → Outcome Verdict
verdict_on global_pause r o =
    (can_trade o.manager
      (record { trading_paused_env = o.trading_paused_env; global_pause = global_pause }) r).1

-- The office once the risk manager has been asked.
abbrev pub asked : Option PauseCause → Request → Office → Office
asked global_pause r o = record o {
  manager =
      (can_trade o.manager
        (record { trading_paused_env = o.trading_paused_env; global_pause = global_pause }) r).0;
}

module _ {S : Type 0} (venue : Venue S) (divide : ℕ → ℕ → ℕ) (grace : ℕ) (new_id : BotState → ℕ)
    (now : Now) (P : S → Type 0) (k : Reads venue P) where
  -- Nothing was placed, or one ticket was, and nothing but lookups went before it.
  abbrev pub AtMostOne : (Ticket → Type 0) → S → S → Type 0
  AtMostOne Fits before after =
      P after ⊎ ((t : Ticket) × Fits t × P before × (after ≡ venue.after_placing t before))

  -- The ticket is the one decided on, under a fresh id.
  pub record IsDecided (r : Request) (current : ℕ) (o : Office) (found : S) (side : Side)
      (t : Ticket) : Type 0 where
    pub of_side : t.side ≡ side
    pub same_ticker : t.symbol ≡ r.ticker
    pub fresh_id : t.client_order_id ≡ new_id o.store.mem
    pub sized : decide o.manager r current side (venue.get_position r.ticker found).1 ≡ place t.qty

  -- The office and the broker after syncing.
  abbrev pub synced : ℕ → Office → S → Office × S
  synced own o s = (sync_open_intents venue divide grace new_id now false own (o, s)).0

  -- Every condition under which a signal sends the ticket, for the office `o` whose risk manager has
  -- been asked.
  pub record IsFollowed (own : ℕ) (r : Request) (current : ℕ) (o : Office) (j : Journal) (s : S)
      (side : Side) (t : Ticket) : Type 0 where
    pub none_open : open_for r.ticker (list_open_intents (synced own o s).0.store.mem) ≡ []
    pub not_recent : check_recent_order now r.ticker side j ≡ none
    pub decided : IsDecided r current (synced own o s).0 (synced own o s).1 side t
