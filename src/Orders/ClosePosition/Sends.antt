-- ===== src/Orders/ClosePosition/Sends.antt =====
-- What order a close sends.
use alpha_live.Prelude.{ℕ, ◌≡◌, false, none, ℤ, pos}
use alpha_live.Risk.Types.{Now}
use alpha_live.State.Types.{sell, BotState}
use alpha_live.Orders.Settle.Wait.{KeepsBroker}
use alpha_live.Orders.Venue.{Holding, held, Ticket, Venue, qty_equal}
use alpha_live.Orders.Sync.Reads.{Reads}
use alpha_live.Orders.OpenClose.{Closing, proceed}

module _ {S : Type 0} (venue : Venue S) (divide : ℕ → ℕ → ℕ) (grace : ℕ) (new_id : BotState → ℕ)
    (now : Now) (ticker : ℕ) (P : S → Type 0) where
  -- What the calls before the order keep: lookups, cancels of live BUYs of the ticker, and reads of
  -- positions.
  pub record Before : Type 0 where
    pub settles : KeepsBroker venue.broker divide grace now ticker P
    pub locates : (t : ℕ) (s : S) → P s → P (venue.get_position t s).0

  -- The broker said in state `s` that it holds the quantity, which is not nothing.
  pub record IsConfirmed (qty : ℤ) (s : S) : Type 0 where
    pub holding : Holding
    pub at : (venue.get_position ticker s).1 ≡ held holding
    pub all : qty ≡ holding.qty
    pub some_left : qty_equal holding.qty (pos 0) ≡ false

  -- Nothing was placed; or the last call was one market SELL of the confirmed quantity, right after the
  -- position was read.
  pub data Closes (after : S) : Type 0 where
    sends_nothing : P after → Closes after
    sends_one :
        (t : Ticket) (s : S)
        → P s
        → IsConfirmed t.qty s
        → t.symbol ≡ ticker
        → t.side ≡ sell
        → t.limit_price ≡ none
        → after ≡ venue.after_placing t (venue.get_position ticker s).0
        → Closes after

  -- A quantity to proceed with comes from the position read last.
  abbrev Backed : Closing → S → Type 0
  Backed (proceed qty) s =
      (s₀ : S) × P s₀ × IsConfirmed qty s₀ × (s ≡ (venue.get_position ticker s₀).0)
  Backed _ s = Unit
