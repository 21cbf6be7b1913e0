-- ===== src/Main/SignalCheck/Tests.antt =====
-- A weekly strategy that buys on a Monday morning.
use alpha_live.Prelude.{◌≡◌, ◌*◌, refl, some, none, true, false, [], ◌∷◌, pos, ok}
use alpha_live.Prelude.Dict.{lookup}
use alpha_live.Risk.Types.{dollar, buy}
use alpha_live.Risk.Global.{go, check_global_daily_loss}
use alpha_live.Risk.Global as Global
use alpha_live.State.Types.{Side}
use alpha_live.State.Samples.{sample_store}
use alpha_live.Engine.State.{Engine, new_engine}
use alpha_live.AlphaSignal.Gate.{http_error, run_pre_execution_checks}
use alpha_live.Main.Periodic.{Clock, Bench, one_week, due}
use alpha_live.Main.SignalCheck.{
  StrategyConfig, Answers, bars, stale_bars, generated, Request, decided, stale_data,
  check_signal_for_strategy,
}
use alpha_live.Main.SignalCheck.Gated.{IsCalm, signal_check_gated}
use alpha_live.Main.SignalCheck.Marks.{
  IsMarked, IsReleased, is_failure, is_complete, periods_used_by_decisions,
}

abbrev config : StrategyConfig
config = record { ticker = 5; timeframe = one_week; max_daily_loss_pct = 5000000 }

abbrev morning_clock : Clock
morning_clock = record {
  now = record { date = 20000; hour = 9; instant = 50000 };
  week = 2026;
  minute = 36;
  seconds = 50000;
}

abbrev long_engine : Engine
long_engine = record (new_engine false) { in_position = true; entry_price = 7 }

abbrev answers : Answers
answers = record {
  latest_bars = bars (some (100, 101));
  generate = λ e. generated long_engine buy;
  health = http_error;
  response = none;
  current_price = some 100000000;
  equity = some (pos (1000 * dollar));
  positions = some (5 ∷ 6 ∷ []);
  execute_raises = false;
}

abbrev bench : Bench
bench = record {
  evals = record { store = sample_store; in_flight = [] };
  morning_checks_done = [];
  last_signal_check = [];
  managers = [];
  global_risk =
      Global.init false (record { date = 20000; hour = 9; instant = 50000 })
        (record { paused = false; reason = none });
  trading_paused_env = none;
  engine = new_engine false;
  alerts = [];
}

abbrev request : Request
request = record {
  signal = buy;
  current_price = 100000000;
  account_equity = pos (1000 * dollar);
  current_positions_count = 1;
  total_portfolio_positions = 2;
}

buy_run :
    (check_signal_for_strategy config morning_clock answers none bench).0.1 ≡ decided (some request)
unfolding check_signal_for_strategy new_engine lookup alpha_live.State.Types.default_state
    Global.check_today Global.check_daily_reset Global.init Global.check_loss Global.judge
    Global.beyond_limit Global.sum_pnl
buy_run = refl

stale_run :
    (check_signal_for_strategy config morning_clock
      (record answers { latest_bars = stale_bars })
      none
      bench).0.1
    ≡ stale_data
unfolding check_signal_for_strategy new_engine lookup alpha_live.State.Types.default_state
stale_run = refl

signal_check_gated_example :
    ((due one_week 5 morning_clock bench).1 ≡ true)
    × IsCalm config morning_clock answers answers.latest_bars
    × (e : Engine) × (answers.generate bench.engine ≡ generated e buy)
    × (buy ≡ buy
        → (run_pre_execution_checks none 2 http_error none).1.0 ≡ true
          × ((check_global_daily_loss morning_clock.now
                (pos (1000 * dollar))
                5000000
                bench.global_risk).1
              ≡ ok go))
unfolding check_signal_for_strategy new_engine lookup alpha_live.State.Types.default_state
    Global.check_today Global.check_daily_reset Global.init Global.check_loss Global.judge
    Global.beyond_limit Global.sum_pnl
signal_check_gated_example = signal_check_gated config morning_clock answers none bench request refl

periods_used_by_decisions_example :
    let (b, ending) = (check_signal_for_strategy config morning_clock answers none bench).0 in
    (is_failure ending ≡ true
      → (b.evals.store ≡ bench.evals.store) × IsReleased one_week 5 morning_clock b)
    × (is_complete ending ≡ true
        → IsMarked one_week 5 morning_clock b × IsReleased one_week 5 morning_clock b)
periods_used_by_decisions_example =
    periods_used_by_decisions config morning_clock answers none bench
