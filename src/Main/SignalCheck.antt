-- ===== src/Main/SignalCheck.antt =====
-- `_check_signal_for_strategy` of alphalive/main.py: what the market data, the engine, AlphaSignal and the
-- broker answer is given, and the result is the call of `execute_signal` (Orders/ExecuteSignal.antt), if
-- there is one. Log messages are left out.
pub mod Gated
pub mod Marks
mod Tests
use alpha_live.Prelude.{
  ℕ, ◌+◌, ◌-◌, ◌*◌, Bool, true, false, Option, none, some, List, ℤ, ltb, ◌==◌, if◌then◌else◌,
  Outcome, ok, raise,
}
use alpha_live.Prelude.Lists.{length, count}
use alpha_live.Prelude.Dict.{insert}
use alpha_live.Risk.Types.{Signal, buy, sell, hold}
use alpha_live.Risk.Global.{GlobalRiskManager, GlobalVerdict, go, halt, check_global_daily_loss}
use alpha_live.Engine.State.{Engine, get_state}
use alpha_live.State.Engines.{save_engine_state}
use alpha_live.AlphaSignal.{Response}
use alpha_live.AlphaSignal.Gate.{Client, Health, run_pre_execution_checks}
use alpha_live.Main.Reconciliation.{record_broker_call}
use alpha_live.Main.Periodic.{
  Timeframe, Clock, Bench, alert, split_detected, timed_out, data_stale, check_failed, due,
  mark_periodic_check_done, mark_periodic_check_attempted,
}

pub record StrategyConfig : Type 0 where
  pub ticker : ℕ
  pub timeframe : Timeframe
  pub max_daily_loss_pct : ℕ

-- What `get_latest_bars` gives: an exception, or the last close but one and the last open, `none` for
-- fewer than two bars.
pub data Bars : Type 0 where
  stale_bars broken_bars : Bars
  bars : Option (ℕ × ℕ) → Bars

-- What `generate_signal` does in its thread: it gives no answer in time,
-- raises, or ends with a new engine and a signal. In the first two the engine
-- is taken to be as it was.
pub data Generated : Type 0 where
  no_answer engine_raised : Generated
  generated : Engine → Signal → Generated

-- The answers to the check's calls; `none` stands for a call that raises.
pub record Answers : Type 0 where
  pub latest_bars : Bars
  pub generate : Engine → Generated
  pub health : Health
  pub response : Option Response
  pub current_price : Option ℕ
  pub equity : Option ℤ
  pub positions : Option (List ℕ)
  pub execute_raises : Bool

-- The call of `execute_signal`.
pub record Request : Type 0 where
  pub signal : Signal
  pub current_price : ℕ
  pub account_equity : ℤ
  pub current_positions_count : ℕ
  pub total_portfolio_positions : ℕ

-- How a check ends, and the call that was made.
pub data Ending : Type 0 where
  not_due split_skipped out_of_time stale_data : Ending
  failed decided : Option Request → Ending

-- A move of more than a fifth overnight.
abbrev pub is_jump : Option (ℕ × ℕ) → Bool
is_jump none = false
is_jump (some (close, open_price)) =
    ltb (close * 20) (((open_price - close) + (close - open_price)) * 100)

abbrev pub called : Bool → Bench → Bench
called success b = record b { managers = record_broker_call success b.managers }

module _ (cfg : StrategyConfig) (c : Clock) (a : Answers) where
  -- The positions are read and the order is passed on.
  unfoldable pub pass_on : Signal → ℕ → ℤ → Bench → Bench × Ending
  unfolding record_broker_call
  pass_on s price equity b = elim a.positions [
    | none ↦ (called false b, failed none)
    | some ps ↦
        let r : Request = record {
          signal = s;
          current_price = price;
          account_equity = equity;
          current_positions_count = count (λ p. p == cfg.ticker) ps;
          total_portfolio_positions = length ps;
        } in
        (called true b, if a.execute_raises then failed (some r) else decided (some r))
  ]

  -- The verdict on an entry over all strategies.
  unfoldable pub after_global : ℕ → ℤ → Bench → Outcome GlobalVerdict → Bench × Ending
  unfolding pass_on
  after_global price equity b (raise e) = (b, failed none)
  after_global price equity b (ok (halt reason)) = (b, decided none)
  after_global price equity b (ok go) = pass_on buy price equity b

  unfoldable pub ask_global : Signal → ℕ → ℤ → Bench → Bench × Ending
  unfolding after_global check_global_daily_loss pass_on
  ask_global buy price equity b =
      let (g, v) = check_global_daily_loss c.now equity cfg.max_daily_loss_pct b.global_risk in
      after_global price equity (record b { global_risk = g }) v
  ask_global s price equity b = pass_on s price equity b

  unfoldable pub ask_broker : Signal → Bench → Bench × Ending
  unfolding ask_global record_broker_call
  ask_broker s b = elim a.current_price [
    | none ↦ (b, failed none)
    | some price ↦ elim a.equity [
      | none ↦ (called false b, failed none)
      | some equity ↦ ask_global s price equity (called true b)
    ]
  ]

  -- The sentiment gate, of entries only; the client is the second part of the state.
  unfoldable pub ask_sentiment : Signal → Option Client → Bench → (Bench × Ending) × Option Client
  unfolding run_pre_execution_checks ask_broker
  ask_sentiment hold client b = ((b, decided none), client)
  ask_sentiment sell client b = (ask_broker sell b, client)
  ask_sentiment buy client b =
      let (client', (allowed, pred)) = run_pre_execution_checks client 2 a.health a.response in
      ((if allowed then ask_broker buy b else (b, decided none)), client')

  unfoldable pub on_generated : Option Client → Bench → Generated → (Bench × Ending) × Option Client
  unfolding ask_sentiment
  on_generated client b no_answer = ((b, out_of_time), client)
  on_generated client b engine_raised = ((b, failed none), client)
  on_generated client b (generated e s) = ask_sentiment s client (record b { engine = e })

  unfoldable pub on_bars : Option Client → Bench → Bars → (Bench × Ending) × Option Client
  unfolding on_generated
  on_bars client b stale_bars = ((b, stale_data), client)
  on_bars client b broken_bars = ((b, failed none), client)
  on_bars client b (bars o) =
      if is_jump o
      then ((b, split_skipped), client)
      else on_generated client b (a.generate b.engine)

  abbrev keep_engine : Bench → Bench
  keep_engine b = record b {
    evals = record b.evals {
      store = save_engine_state cfg.ticker (get_state b.engine) b.evals.store;
    };
  }

  abbrev mark_time : Bench → Bench
  mark_time b = record b { last_signal_check = insert cfg.ticker c.seconds b.last_signal_check }

  -- What the end of the check leaves behind.
  unfoldable pub finish : Bench × Ending → Bench × Ending
  unfolding mark_periodic_check_done mark_periodic_check_attempted save_engine_state
  finish (b, not_due) = (b, not_due)
  finish (b, split_skipped) = (
    mark_periodic_check_done cfg.timeframe cfg.ticker c (alert (split_detected cfg.ticker) b),
    split_skipped,
  )
  finish (b, out_of_time) = (
    mark_periodic_check_attempted cfg.timeframe cfg.ticker c (alert (timed_out cfg.ticker) b),
    out_of_time,
  )
  finish (b, stale_data) = (
    mark_periodic_check_attempted cfg.timeframe cfg.ticker c (alert (data_stale cfg.ticker) b),
    stale_data,
  )
  finish (b, failed r) = (
    mark_periodic_check_attempted cfg.timeframe cfg.ticker c (alert (check_failed cfg.ticker) b),
    failed r,
  )
  finish (b, decided r) =
      (mark_time (mark_periodic_check_done cfg.timeframe cfg.ticker c (keep_engine b)), decided r)

  unfoldable pub check_due : Option Client → Bench × Bool → (Bench × Ending) × Option Client
  unfolding finish on_bars
  check_due client (b, false) = ((b, not_due), client)
  check_due client (b, true) =
      let (x, client') = on_bars client b a.latest_bars in (finish x, client')

  unfoldable pub check_signal_for_strategy :
      Option Client → Bench → (Bench × Ending) × Option Client
  unfolding due check_due
  check_signal_for_strategy client b = check_due client (due cfg.timeframe cfg.ticker c b)
