-- ===== src/Risk/Session/Locks.antt =====
-- What a session cannot undo: the orders counted on a day, a tripped breaker, a manual pause.
use alpha_live.Prelude.{
  ℕ, ◌+◌, ◌≡◌, ◌≢◌, ◌∙◌, refl, true, Option, List, [], ◌∷◌, inl, inr, arith, ok, ◌+ℤ◌,
}
use alpha_live.Prelude.Lists.{All}
use alpha_live.Risk.Types.{Now, sell}
use alpha_live.Risk.Daily.{
  Fill, Desk, record_order_submitted, record_fill_result, record_api_call, record_broker_failure,
  persist, round_trip,
}
use alpha_live.Risk.Gate.{Controls, Request, can_trade, allowed}
use alpha_live.Risk.Gate.Exact.{entry-allowed_iff}
use alpha_live.Risk.Gate.Frame.{can_trade-frame}
use alpha_live.Risk.Session.{
  Event, day_started, submitted, filled, asked, called_api, broker_failed, broker_answered,
  restarted, restart, broker_call_ok, step, run,
}
use alpha_live.Risk.Session.Sync.{InSync, step-InSync, same_day, close_round_trip-keys}

-- How many orders a session submits.
abbrev pub orders : Event → ℕ
orders (submitted ticker bar) = 1
orders _ = 0

abbrev pub submissions : List (Now × Event) → ℕ
submissions [] = 0
submissions ((now, e) ∷ es) = orders e + submissions es

-- Every call of the session is made on this day.
abbrev pub OnDay : ℕ → List (Now × Event) → Type 0
OnDay day = All (λ (c : Now × Event). c.0.date ≡ day)

-- `persist` writes only the saved counters.
pub persist-manager : (now : Now) (d : Desk) → (persist now d).manager ≡ d.manager
unfolding persist
persist-manager now d = ground arith

module _ (key day : ℕ) where
  -- What one call does to the count of orders, the breaker and the limits.
  abbrev Kept : Event → Desk → Desk → Type 0
  Kept e d d' =
      (d'.trades_today ≡ d.trades_today + orders e)
      × (d.trading_paused_by_circuit_breaker ≡ true → d'.trading_paused_by_circuit_breaker ≡ true)
      × (d'.limits ≡ d.limits)

  submitted-Kept :
      (ticker : ℕ) (bar : Option ℕ) (now : Now) (d : Desk)
      → now.date ≡ day
      → InSync key day d
      → Kept (submitted ticker bar) d (record_order_submitted ticker bar now d)
  unfolding record_order_submitted
  submitted-Kept ticker bar now d e h =
      rw (same_day key day now d e h, persist-manager) (refl, λ b. b, refl)

  filled-Kept :
      (f : Fill) (now : Now) (d : Desk)
      → now.date ≡ day
      → InSync key day d
      → Kept (filled f) d (record_fill_result f now d)
  unfolding record_fill_result
  filled-Kept f now d e h =
      let m = record d.manager { daily_pnl = d.daily_pnl +ℤ f.realized_pnl } in
      let k = close_round_trip-keys key day (round_trip f) m in
      rw (same_day key day now d e h, persist-manager) (omega (arith, k.2), k.3, k.5)

  asked-Kept :
      (c : Controls) (r : Request) (d : Desk)
      → Kept (asked c r) d (record d { manager = (can_trade d.manager c r).0 })
  asked-Kept c r d = elim (can_trade-frame d.manager c r) [
    | inl same ↦ rw same (omega arith, λ b. b, refl)
    | inr (s, halt, why) ↦ rw halt (omega arith, λ b. b, refl)
  ]

  restart-Kept :
      (now : Now) (d : Desk)
      → now.date ≡ day
      → InSync key day d
      → Kept restarted d (restart key now d)
  unfolding restart
  restart-Kept now d e h = ground arith

  step-Kept :
      (now : Now) (e : Event) (d : Desk)
      → now.date ≡ day
      → InSync key day d
      → Kept e d (step key now e d)
  unfolding step record_api_call record_broker_failure broker_call_ok
  step-Kept now day_started d t h = rw (same_day key day now d t h) (omega arith, λ b. b, refl)
  step-Kept now (submitted ticker bar) d t h = submitted-Kept ticker bar now d t h
  step-Kept now (filled f) d t h = filled-Kept f now d t h
  step-Kept now (asked c r) d t h = asked-Kept c r d
  step-Kept now called_api d t h = ground arith
  step-Kept now broker_failed d t h = ground arith
  step-Kept now broker_answered d t h = ground arith
  step-Kept now restarted d t h = restart-Kept now d t h

  run-Kept :
      (es : List (Now × Event)) (d : Desk)
      → OnDay day es
      → InSync key day d
      → ((run key es d).trades_today ≡ d.trades_today + submissions es)
        × (d.trading_paused_by_circuit_breaker ≡ true
            → (run key es d).trading_paused_by_circuit_breaker ≡ true)
        × ((run key es d).limits ≡ d.limits)
  unfolding run
  run-Kept [] d t h = (omega arith, λ b. b, refl)
  run-Kept ((now, e) ∷ es) d t h =
      let (n, b, l) = step-Kept now e d t.0 h in
      let (n', b', l') = run-Kept es (step key now e d) t.1 (step-InSync key day now e d t.0 h) in
      (omega (arith, n, n'), λ p. b' (b p), l' ∙ l)

  -- A tripped circuit breaker holds for the rest of the day: after any calls and restarts on that
  -- day no entry is approved.
  pub breaker_holds :
      (es : List (Now × Event)) (d : Desk) (c : Controls) (r : Request)
      → OnDay day es
      → InSync key day d
      → d.trading_paused_by_circuit_breaker ≡ true
      → r.signal ≢ sell
      → (can_trade (run key es d).manager c r).1 ≢ ok allowed
  breaker_holds es d c r t h tripped s a =
      let (n, b, l) = run-Kept es d t h in
      let v = (entry-allowed_iff (run key es d).manager c r s).0 a in
      cc (b tripped, v.breaker_closed)
