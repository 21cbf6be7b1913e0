-- ===== src/Orders/Progress/Frame.antt =====
-- What follows a booking leaves the intents and the ledger alone.
use alpha_live.Prelude.{
  ℕ, ◌≡◌, ◌∙◌, refl, ℤ, Bool, true, false, arith, is_some, Bool-cases, inl, inr,
}
use alpha_live.Prelude.Dict.{contains}
use alpha_live.Risk.Types.{Now}
use alpha_live.Risk.Daily.{Desk, record_fill_result}
use alpha_live.State.Types.{buy, sell, close, BotState}
use alpha_live.State.Disk.{Store, mutate}
use alpha_live.State.Fills.{Report, to_fill}
use alpha_live.State.Ledger.{
  add_daily_pnl, rolled, record_entry, mutate_if, clear_position_high, clear_entry_timestamp,
}
use alpha_live.State.Ledger.Highs.{mutate-mem}
use alpha_live.Orders.Progress.{
  Office, Message, on_desk, on_store, tell, count_round_trip, track, after_booking,
}

-- Two states with the same intents and the same positions.
abbrev pub SameBooks : BotState → BotState → Type 0
SameBooks s t =
    (s.submission_intents ≡ t.submission_intents) × (s.open_positions ≡ t.open_positions)

mutate-SameBooks :
    (f : BotState → BotState) (st : Store)
    → SameBooks (f st.mem) st.mem
    → SameBooks (mutate f st).0.mem st.mem
mutate-SameBooks f st h = rw (mutate-mem f st) h

mutate_if-SameBooks :
    (b : Bool) (f : BotState → BotState) (st : Store)
    → SameBooks (f st.mem) st.mem
    → SameBooks (mutate_if b f st).mem st.mem
unfolding mutate_if
mutate_if-SameBooks true f st h = mutate-SameBooks f st h
mutate_if-SameBooks false f st h = (refl, refl)

add_daily_pnl-SameBooks :
    (today : ℕ) (x : ℤ) (st : Store) → SameBooks (add_daily_pnl today x st).mem st.mem
unfolding add_daily_pnl rolled
add_daily_pnl-SameBooks today x st = mutate-SameBooks _ st (ground arith, ground arith)

pub SameBooks-trans : (s t u : BotState) → SameBooks s t → SameBooks t u → SameBooks s u
SameBooks-trans s t u a b = (a.0 ∙ b.0, a.1 ∙ b.1)

cleared-SameBooks :
    (t : ℕ) (st : Store) → SameBooks (clear_entry_timestamp t (clear_position_high t st)).mem st.mem
unfolding clear_entry_timestamp clear_position_high
cleared-SameBooks t st =
    SameBooks-trans (clear_entry_timestamp t (clear_position_high t st)).mem
      (clear_position_high t st).mem st.mem
      (mutate_if-SameBooks _ _ (clear_position_high t st) (refl, refl))
      (mutate_if-SameBooks _ _ st (refl, refl))

track-SameBooks : (now : Now) (r : Report) (st : Store) → SameBooks (track now r st).mem st.mem
unfolding track record_entry
track-SameBooks now r st =
    elim r.side as (λ x. SameBooks (track now (record r { side = x }) st).mem st.mem) [
      | buy ↦ elim (Bool-cases (contains r.ticker st.mem.entry_timestamps)) [
        | inl known ↦ rw known (refl, refl)
        | inr new ↦ rw new (mutate-SameBooks _ st (refl, refl))
      ]
      | sell ↦ elim (Bool-cases r.round_trip_closed) [
        | inl closed ↦ rw closed (cleared-SameBooks r.ticker st)
        | inr held ↦ rw held (refl, refl)
      ]
      | close ↦ elim (Bool-cases r.round_trip_closed) [
        | inl closed ↦ rw closed (cleared-SameBooks r.ticker st)
        | inr held ↦ rw held (refl, refl)
      ]
    ]

pub on_desk-SameBooks :
    (f : Desk → Desk) (o : Office) → SameBooks (on_desk f o).store.mem o.store.mem
unfolding on_desk
on_desk-SameBooks f o = elim (Bool-cases (is_some o.manager.state_key)) [
  | inl kept ↦ rw kept (mutate-SameBooks _ o.store (refl, refl))
  | inr loose ↦ rw loose (refl, refl)
]

pub tell-store : (m : Message) (o : Office) → (tell m o).store ≡ o.store
unfolding tell
tell-store m o = ground arith

count_round_trip-store :
    (now : Now) (r : Report) (o : Office) → (count_round_trip now r o).store ≡ o.store
unfolding count_round_trip
count_round_trip-store now r o = ground arith

-- What follows a booking changes neither the intents nor the ledger.
pub after_booking-SameBooks :
    (now : Now) (r : Report) (o : Office) → SameBooks (after_booking now r o).store.mem o.store.mem
unfolding after_booking on_store
after_booking-SameBooks now r o =
    let a = on_desk (record_fill_result (to_fill r) now) o in
    let st = add_daily_pnl now.date r.realized_pnl a.store in
    rw (tell-store, count_round_trip-store)
      (SameBooks-trans (track now r st).mem st.mem o.store.mem (track-SameBooks now r st) (
        SameBooks-trans st.mem a.store.mem o.store.mem
          (add_daily_pnl-SameBooks now.date r.realized_pnl a.store)
          (on_desk-SameBooks (record_fill_result (to_fill r) now) o)))
