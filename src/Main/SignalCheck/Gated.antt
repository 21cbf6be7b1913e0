-- ===== src/Main/SignalCheck/Gated.antt =====
-- What a call of `execute_signal` has passed.
use alpha_live.Prelude.{
  ℕ, ◌≡◌, refl, ◌∙◌, sym, ap, subst, Bool, true, false, Option, none, some, ℤ, pos, arith,
  Bool-cases, Option-cases, inl, inr, if◌then◌else◌, Outcome, ok, raise,
}
use alpha_live.Risk.Types.{Signal, buy, sell, hold}
use alpha_live.Risk.Global.{GlobalRiskManager, GlobalVerdict, go, halt, check_global_daily_loss}
use alpha_live.Engine.State.{Engine}
use alpha_live.AlphaSignal.Gate.{Client, run_pre_execution_checks}
use alpha_live.Main.Periodic.{
  Timeframe, one_day, one_week, one_hour, fifteen_min, Clock, Bench, due, due_daily, due_weekly,
}
use alpha_live.Main.SignalCheck.{
  StrategyConfig, Answers, Bars, stale_bars, broken_bars, bars, Generated, no_answer, engine_raised,
  generated, Request, Ending, not_due, split_skipped, out_of_time, stale_data, failed, decided,
  is_jump, pass_on, after_global, ask_global, ask_broker, ask_sentiment, on_generated, on_bars,
  finish, check_due, check_signal_for_strategy,
}

-- The call of an ending.
abbrev pub request_of : Ending → Option Request
request_of (failed r) = r
request_of (decided r) = r
request_of _ = none

abbrev signal_or : Option Request → Signal
signal_or none = hold
signal_or (some r) = r.signal

abbrev equity_or : Option Request → ℤ
equity_or none = pos 0
equity_or (some r) = r.account_equity

some_signal : {q r : Request} → some q ≡ some r → q.signal ≡ r.signal
some_signal e = ap signal_or e

some_equity : {q r : Request} → some q ≡ some r → q.account_equity ≡ r.account_equity
some_equity e = ap equity_or e

module _ (cfg : StrategyConfig) (c : Clock) (a : Answers) where
  -- The verdict over all strategies on an entry at an equity.
  abbrev global_verdict : ℤ → GlobalRiskManager → Outcome GlobalVerdict
  global_verdict equity g = (check_global_daily_loss c.now equity cfg.max_daily_loss_pct g).1

  -- A call for a signal, which for an entry has passed the check over all strategies.
  abbrev Asked : Signal → GlobalRiskManager → Request → Type 0
  Asked s g r = (r.signal ≡ s) × (s ≡ buy → global_verdict r.account_equity g ≡ ok go)

  called-request :
      (s : Signal) (price : ℕ) (equity : ℤ) (counted total : ℕ) (raises : Bool) (r : Request)
      → (let q : Request = record {
        signal = s;
        current_price = price;
        account_equity = equity;
        current_positions_count = counted;
        total_portfolio_positions = total;
      } in
          request_of (if raises then failed (some q) else decided (some q)) ≡ some r)
      → (s ≡ r.signal) × (equity ≡ r.account_equity)
  called-request s price equity counted total true r e = (some_signal e, some_equity e)
  called-request s price equity counted total false r e = (some_signal e, some_equity e)

  pass_on-request :
      (s : Signal) (price : ℕ) (equity : ℤ) (b : Bench) (r : Request)
      → request_of (pass_on cfg c a s price equity b).1 ≡ some r
      → (s ≡ r.signal) × (equity ≡ r.account_equity)
  unfolding pass_on
  pass_on-request s price equity b r e = elim (Option-cases a.positions) [
    | inl n ↦ let no : none ≡ some r = rw n at e in absurd (cc)
    | inr (ps, y) ↦ called-request s price equity _ _ a.execute_raises r (rw y at e)
  ]

  after_global-request :
      (price : ℕ) (equity : ℤ) (b : Bench) (o : Outcome GlobalVerdict) (r : Request)
      → request_of (after_global cfg c a price equity b o).1 ≡ some r
      → (buy ≡ r.signal) × (equity ≡ r.account_equity) × (o ≡ ok go)
  unfolding after_global
  after_global-request price equity b (raise x) r e = absurd (cc)
  after_global-request price equity b (ok (halt x)) r e = absurd (cc)
  after_global-request price equity b (ok go) r e =
      let (s, q) = pass_on-request buy price equity b r e in (s, q, refl)

  ask_global-Asked :
      (s : Signal) (price : ℕ) (equity : ℤ) (b : Bench) (r : Request)
      → request_of (ask_global cfg c a s price equity b).1 ≡ some r
      → Asked s b.global_risk r
  unfolding ask_global
  ask_global-Asked buy price equity b r e =
      let (s, q, v) = after_global-request price equity _ _ r e in
      (sym s, λ _. subst (λ x. global_verdict x b.global_risk ≡ ok go) q v)
  ask_global-Asked sell price equity b r e =
      (sym (pass_on-request sell price equity b r e).0, λ x. absurd (cc))
  ask_global-Asked hold price equity b r e =
      (sym (pass_on-request hold price equity b r e).0, λ x. absurd (cc))

  ask_broker-Asked :
      (s : Signal) (b : Bench) (r : Request)
      → request_of (ask_broker cfg c a s b).1 ≡ some r
      → Asked s b.global_risk r
  unfolding ask_broker
  ask_broker-Asked s b r e = elim (Option-cases a.current_price) [
    | inl n ↦ let no : none ≡ some r = rw n at e in absurd (cc)
    | inr (price, y) ↦ elim (Option-cases a.equity) [
      | inl n ↦ let no : none ≡ some r = rw (y, n) at e in absurd (cc)
      | inr (equity, z) ↦ ask_global-Asked s price equity _ r (rw (y, z) at e)
    ]
  ]

  -- A call for a signal that has passed the sentiment gate too.
  abbrev Passed : Signal → Option Client → GlobalRiskManager → Request → Type 0
  Passed s client g r =
      Asked s g r × (s ≡ buy → (run_pre_execution_checks client 2 a.health a.response).1.0 ≡ true)

  ask_sentiment-Passed :
      (s : Signal) (client : Option Client) (b : Bench) (r : Request)
      → request_of (ask_sentiment cfg c a s client b).0.1 ≡ some r
      → Passed s client b.global_risk r
  unfolding ask_sentiment
  ask_sentiment-Passed hold client b r e = absurd (cc)
  ask_sentiment-Passed sell client b r e = (ask_broker-Asked sell b r e, λ x. absurd (cc))
  ask_sentiment-Passed buy client b r e =
      elim (Bool-cases (run_pre_execution_checks client 2 a.health a.response).1.0) [
        | inl y ↦ (ask_broker-Asked buy b r (rw y at e), λ _. y)
        | inr n ↦ let no : none ≡ some r = rw n at e in absurd (cc)
      ]

  -- An answer of the engine that gives the signal of the call.
  abbrev Signalled : Option Client → Bench → Generated → Request → Type 0
  Signalled client b o r =
      (e : Engine) × (o ≡ generated e r.signal) × Passed r.signal client b.global_risk r

  on_generated-Signalled :
      (client : Option Client) (b : Bench) (o : Generated) (r : Request)
      → request_of (on_generated cfg c a client b o).0.1 ≡ some r
      → Signalled client b o r
  unfolding on_generated
  on_generated-Signalled client b no_answer r e = absurd (cc)
  on_generated-Signalled client b engine_raised r e = absurd (cc)
  on_generated-Signalled client b (generated x s) r e =
      let p = ask_sentiment-Passed s client (record b { engine = x }) r e in
      (x, ap (generated x) (sym p.0.0), subst (λ q. Passed q client b.global_risk r) (sym p.0.0) p)

  -- The bars were there and showed no jump.
  abbrev pub IsCalm : Bars → Type 0
  IsCalm o = (d : Option (ℕ × ℕ)) × (o ≡ bars d) × (is_jump d ≡ false)

  on_bars-Signalled :
      (client : Option Client) (b : Bench) (o : Bars) (r : Request)
      → request_of (on_bars cfg c a client b o).0.1 ≡ some r
      → IsCalm o × Signalled client b (a.generate b.engine) r
  unfolding on_bars
  on_bars-Signalled client b stale_bars r e = absurd (cc)
  on_bars-Signalled client b broken_bars r e = absurd (cc)
  on_bars-Signalled client b (bars d) r e = elim (Bool-cases (is_jump d)) [
    | inl j ↦ let no : none ≡ some r = rw j at e in absurd (cc)
    | inr j ↦ ((d, refl, j), on_generated-Signalled client b (a.generate b.engine) r (rw j at e))
  ]

  finish-request : (x : Bench × Ending) → request_of (finish cfg c a x).1 ≡ request_of x.1
  unfolding finish
  finish-request (b, not_due) = refl
  finish-request (b, split_skipped) = refl
  finish-request (b, out_of_time) = refl
  finish-request (b, stale_data) = refl
  finish-request (b, failed r) = refl
  finish-request (b, decided r) = refl

  check_due-Signalled :
      (client : Option Client) (x : Bench × Bool) (r : Request)
      → request_of (check_due cfg c a client x).0.1 ≡ some r
      → (x.1 ≡ true) × IsCalm a.latest_bars × Signalled client x.0 (a.generate x.0.engine) r
  unfolding check_due
  check_due-Signalled client (b, false) r e = absurd (cc)
  check_due-Signalled client (b, true) r e =
      let (calm, asked) =
        on_bars-Signalled client b a.latest_bars r
          (sym (finish-request (on_bars cfg c a client b a.latest_bars).0) ∙ e) in
      (refl, calm, asked)

-- Being due changes neither the engine nor the check over all strategies.
abbrev SameInputs : Bench → Bench → Type 0
SameInputs b d = (d.engine ≡ b.engine) × (d.global_risk ≡ b.global_risk)

due-SameInputs :
    (t : Timeframe) (ticker : ℕ) (c : Clock) (b : Bench) → SameInputs b (due t ticker c b).0
unfolding due due_daily due_weekly
due-SameInputs one_hour ticker c b = (refl, refl)
due-SameInputs fifteen_min ticker c b = (refl, refl)
due-SameInputs one_day ticker c b = (ground arith, ground arith)
due-SameInputs one_week ticker c b = (ground arith, ground arith)

-- Every call of `execute_signal` has passed all the gates. If a check makes the call, the strategy was
-- due; the bars had come and showed no jump of more than a fifth overnight; the engine has given the
-- signal of the call, in time; and if it is a BUY, the sentiment gate allowed it and the daily loss
-- check over all strategies let it go, at the equity of the call. A SELL needs neither.
pub signal_check_gated :
    (cfg : StrategyConfig) (c : Clock) (a : Answers) (client : Option Client) (b : Bench)
    (r : Request)
    → request_of (check_signal_for_strategy cfg c a client b).0.1 ≡ some r
    → ((due cfg.timeframe cfg.ticker c b).1 ≡ true)
      × IsCalm cfg c a a.latest_bars
      × (e : Engine) × (a.generate b.engine ≡ generated e r.signal)
      × (r.signal ≡ buy
          → (run_pre_execution_checks client 2 a.health a.response).1.0 ≡ true
            × ((check_global_daily_loss c.now r.account_equity cfg.max_daily_loss_pct
                  b.global_risk).1
                ≡ ok go))
unfolding check_signal_for_strategy
signal_check_gated cfg c a client b r e =
    let (same_engine, same_risk) = due-SameInputs cfg.timeframe cfg.ticker c b in
    let (y, calm, (x, at, ((_, asks), gate))) =
      check_due-Signalled cfg c a client (due cfg.timeframe cfg.ticker c b) r e in
    (y, calm, x, rw same_engine at at, λ s. (gate s, rw same_risk at (asks s)))
