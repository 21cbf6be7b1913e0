-- ===== src/Risk/Session/Pause.antt =====
-- The manual pause of one manager, which the cost limits set, is cleared by no call of a session.
use alpha_live.Prelude.{
  ℕ, ◌≡◌, ◌≢◌, ◌∙◌, Bool, true, false, Option, List, [], ◌∷◌, inl, inr, arith, ok, none, some, ℤ,
}
use alpha_live.Prelude.Lists.{All}
use alpha_live.Risk.Types.{Now, sell, RiskManager}
use alpha_live.Risk.Daily.{
  Fill, Desk, reset_daily, record_order_submitted, record_fill_result, record_api_call,
  record_broker_failure, persist, round_trip, close_round_trip,
}
use alpha_live.Risk.Gate.{Controls, Request, can_trade, allowed, blocked, Reason}
use alpha_live.Risk.Gate.Exact.{entry-allowed_iff}
use alpha_live.Risk.Gate.Frame.{can_trade-frame, is_cost, cost_pauses}
use alpha_live.Risk.Session.{
  Event, day_started, submitted, filled, asked, called_api, broker_failed, broker_answered,
  restarted, broker_call_ok, step, run,
}

abbrev pub is_restart : Event → Bool
is_restart restarted = true
is_restart _ = false

-- The process keeps running for the whole session.
abbrev pub IsUninterrupted : List (Now × Event) → Type 0
IsUninterrupted = All (λ (c : Now × Event). is_restart c.1 ≡ false)

persist-pause :
    (now : Now) (d : Desk) → (persist now d).trading_paused_manual ≡ d.trading_paused_manual
unfolding persist
persist-pause now d = ground arith

reset_daily-pause :
    (now : Now) (d : Desk) → (reset_daily now d).trading_paused_manual ≡ d.trading_paused_manual
unfolding reset_daily
reset_daily-pause now d = ground arith

submitted-pause :
    (ticker : ℕ) (bar : Option ℕ) (now : Now) (d : Desk)
    → (record_order_submitted ticker bar now d).trading_paused_manual ≡ d.trading_paused_manual
unfolding record_order_submitted
submitted-pause ticker bar now d = ground arith

close_round_trip-pause :
    (p : Option ℤ) (m : RiskManager)
    → (close_round_trip p m).trading_paused_manual ≡ m.trading_paused_manual
unfolding close_round_trip
close_round_trip-pause none m = ground arith
close_round_trip-pause (some p) m = ground arith

filled-pause :
    (f : Fill) (now : Now) (d : Desk)
    → (record_fill_result f now d).trading_paused_manual ≡ d.trading_paused_manual
unfolding record_fill_result
filled-pause f now d =
    rw persist-pause (close_round_trip-pause (round_trip f) _ ∙ reset_daily-pause now d)

asked-pause :
    (c : Controls) (r : Request) (d : Desk)
    → d.trading_paused_manual ≡ true
    → (can_trade d.manager c r).0.trading_paused_manual ≡ true
asked-pause c r d p = elim (can_trade-frame d.manager c r) [
  | inl same ↦ rw same p
  | inr (s, halt, why) ↦ rw halt
]

step-pause :
    (key : ℕ) (now : Now) (e : Event) (d : Desk)
    → is_restart e ≡ false
    → d.trading_paused_manual ≡ true
    → (step key now e d).trading_paused_manual ≡ true
unfolding step record_api_call record_broker_failure broker_call_ok
step-pause key now day_started d h p = reset_daily-pause now d ∙ p
step-pause key now (submitted ticker bar) d h p = submitted-pause ticker bar now d ∙ p
step-pause key now (filled f) d h p = filled-pause f now d ∙ p
step-pause key now (asked c r) d h p = asked-pause c r d p
step-pause key now called_api d h p = ground arith
step-pause key now broker_failed d h p = ground arith
step-pause key now broker_answered d h p = ground arith
step-pause key now restarted d h p = cc

run-pause :
    (key : ℕ) (es : List (Now × Event)) (d : Desk)
    → IsUninterrupted es
    → d.trading_paused_manual ≡ true
    → (run key es d).trading_paused_manual ≡ true
unfolding run
run-pause key [] d u p = p
run-pause key ((now, e) ∷ es) d u p =
    run-pause key es (step key now e d) u.1 (step-pause key now e d u.0 p)

-- The cost limits' emergency halt is for good while the process runs: once a trade has been blocked
-- for the trade or API-call limit, no call of the manager on that or any later day makes it approve
-- an entry again, the daily reset and the hourly reset included.
pub emergency_halt_stays :
    (key : ℕ) (es : List (Now × Event)) (d : Desk) (c c' : Controls) (r r' : Request) (q : Reason)
    → (can_trade d.manager c r).1 ≡ ok (blocked q)
    → is_cost q ≡ true
    → IsUninterrupted es
    → r'.signal ≢ sell
    → (can_trade (run key es (record d { manager = (can_trade d.manager c r).0 })).manager c' r').1
      ≢ ok allowed
emergency_halt_stays key es d c c' r r' q halt cost u s a =
    let d' = record d { manager = (can_trade d.manager c r).0 } in
    let v = (entry-allowed_iff (run key es d').manager c' r' s).0 a in
    cc (run-pause key es d' u (cost_pauses d.manager c r q halt cost), v.not_paused)
