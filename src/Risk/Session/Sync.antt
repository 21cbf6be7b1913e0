-- ===== src/Risk/Session/Sync.antt =====
-- On one trading day the saved counters stay those of the manager, through every call and restart.
use alpha_live.Prelude.{ℕ, ◌≡◌, inl, inr, refl, true, Option, none, some, arith, ℤ, ◌+ℤ◌, ◌∙◌}
use alpha_live.Prelude.Dict.{lookup, lookup-insert_self}
use alpha_live.Risk.Types.{Now, Counters, RiskManager}
use alpha_live.Risk.Daily.{
  Fill, Desk, counters, persist, reset_daily, record_order_submitted, record_fill_result,
  record_api_call, record_broker_failure, close_round_trip, round_trip,
}
use alpha_live.Risk.Gate.{Controls, Request, can_trade}
use alpha_live.Risk.Gate.Frame.{can_trade-frame}
use alpha_live.Risk.Session.{
  Event, day_started, submitted, filled, asked, called_api, broker_failed, broker_answered,
  restarted, restart, broker_call_ok, step,
}

-- The counters that a manager has on a day.
abbrev pub kept : ℕ → RiskManager → Counters
kept day m = record {
  date = day;
  trades_today = m.trades_today;
  daily_pnl = m.daily_pnl;
  consecutive_losses = m.consecutive_losses;
  circuit_breaker = m.trading_paused_by_circuit_breaker;
  last_trade_bar_ts = m.last_trade_bar_ts;
}

-- The manager has been reset on this day, and its counters are stored under its key.
pub record InSync (key day : ℕ) (d : Desk) : Type 0 where
  pub keyed : d.state_key ≡ some key
  pub today : d.last_reset_date ≡ some day
  pub stored : lookup key d.saved ≡ some (kept day d.manager)

module _ (key day : ℕ) where
  persist-InSync :
      (now : Now) (d : Desk)
      → d.state_key ≡ some key
      → d.last_reset_date ≡ some day
      → InSync key day (persist now d)
  unfolding persist
  persist-InSync now d k t = ground (arith, lookup-insert_self key (counters now d.manager) d.saved)

  pub same_day : (now : Now) (d : Desk) → now.date ≡ day → InSync key day d → reset_daily now d ≡ d
  unfolding reset_daily
  same_day now d e h = ground arith

  -- A call that leaves the counters alone keeps them in step.
  manager-InSync :
      (d : Desk) (m : RiskManager)
      → m.state_key ≡ d.state_key
      → m.last_reset_date ≡ d.last_reset_date
      → kept day m ≡ kept day d.manager
      → InSync key day d
      → InSync key day (record d { manager = m })
  manager-InSync d m k t c h = ground arith

  submitted-InSync :
      (ticker : ℕ) (bar : Option ℕ) (now : Now) (d : Desk)
      → now.date ≡ day
      → InSync key day d
      → InSync key day (record_order_submitted ticker bar now d)
  unfolding record_order_submitted
  submitted-InSync ticker bar now d e h =
      rw (same_day now d e h) (persist-InSync now _ h.keyed h.today)

  pub close_round_trip-keys :
      (p : Option ℤ) (m : RiskManager)
      → ((close_round_trip p m).state_key ≡ m.state_key)
        × ((close_round_trip p m).last_reset_date ≡ m.last_reset_date)
        × ((close_round_trip p m).trades_today ≡ m.trades_today)
        × (m.trading_paused_by_circuit_breaker ≡ true
            → (close_round_trip p m).trading_paused_by_circuit_breaker ≡ true)
        × ((close_round_trip p m).trading_paused_manual ≡ m.trading_paused_manual)
        × ((close_round_trip p m).limits ≡ m.limits)
  unfolding close_round_trip
  close_round_trip-keys none m = ground arith
  close_round_trip-keys (some p) m = ground arith

  filled-InSync :
      (f : Fill) (now : Now) (d : Desk)
      → now.date ≡ day
      → InSync key day d
      → InSync key day (record_fill_result f now d)
  unfolding record_fill_result
  filled-InSync f now d e h =
      let m = record d.manager { daily_pnl = d.daily_pnl +ℤ f.realized_pnl } in
      let keys = close_round_trip-keys (round_trip f) m in
      rw (same_day now d e h) (persist-InSync now _ (keys.0 ∙ h.keyed) (keys.1 ∙ h.today))

  asked-InSync :
      (c : Controls) (r : Request) (d : Desk)
      → InSync key day d
      → InSync key day (record d { manager = (can_trade d.manager c r).0 })
  asked-InSync c r d h = elim (can_trade-frame d.manager c r) [
    | inl same ↦ rw same h
    | inr (s, halt, why) ↦ rw halt (manager-InSync d _ refl refl refl h)
  ]

  api-InSync :
      (now : Now) (d : Desk)
      → InSync key day d
      → InSync key day (record d { manager = record_api_call now d.manager })
  unfolding record_api_call
  api-InSync now d h = ground arith

  failed-InSync :
      (d : Desk)
      → InSync key day d
      → InSync key day (record d { manager = record_broker_failure d.manager })
  unfolding record_broker_failure
  failed-InSync d h = ground arith

  answered-InSync :
      (d : Desk)
      → InSync key day d
      → InSync key day (record d { manager = broker_call_ok d.manager })
  unfolding broker_call_ok
  answered-InSync d h = ground arith

  pub restart-InSync :
      (now : Now) (d : Desk)
      → now.date ≡ day
      → InSync key day d
      → InSync key day (restart key now d)
        × (kept day (restart key now d).manager ≡ kept day d.manager)
  unfolding restart
  restart-InSync now d e h = ground arith

  pub step-InSync :
      (now : Now) (e : Event) (d : Desk)
      → now.date ≡ day
      → InSync key day d
      → InSync key day (step key now e d)
  unfolding step
  step-InSync now day_started d t h = rw (same_day now d t h) h
  step-InSync now (submitted ticker bar) d t h = submitted-InSync ticker bar now d t h
  step-InSync now (filled f) d t h = filled-InSync f now d t h
  step-InSync now (asked c r) d t h = asked-InSync c r d h
  step-InSync now called_api d t h = api-InSync now d h
  step-InSync now broker_failed d t h = failed-InSync d h
  step-InSync now broker_answered d t h = answered-InSync d h
  step-InSync now restarted d t h = (restart-InSync now d t h).0
