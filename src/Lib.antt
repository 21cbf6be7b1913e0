-- ===== src/Lib.antt =====
-- AlphaLive: the risk management, the durable state and the order bookkeeping of a bot that trades
-- stocks for a set of strategies through a broker.
--
-- A main loop (alphalive/main.py) polls each strategy: market data gives bars, the signal engine a
-- signal, the strategy's risk manager decides whether the signal may become an order, and the order
-- manager sends it. Before an order goes out an intent for it is stored in the state file; what the
-- broker reports about it later is booked on the ledger of positions there, and what a booking
-- realises goes back to the risk manager, whose counters are stored in the same file and restored
-- when the process restarts. A global risk manager adds the operator's pause and a loss limit over
-- all strategies.
--
-- Which file models what (paths are from the repository's root):
--   Utils/EnvBool     parse_bool_env of alphalive/utils/env_bool.py: a text is the list of its
--                     code points, with the white space and the letters that matter to the words.
--   Utils/Retry       retry_with_backoff of alphalive/utils/retry.py: the call and the classifier are
--                     parameters, the result is how the loop ends, the calls and the waits. The loop
--                     recurses on the attempts that are left.
--   Risk/Types        the state of RiskManager (alphalive/execution/risk_manager.py) and the settings
--                     it reads (alphalive/strategy_schema.py).
--   Risk/Sizing       calculate_position_size.
--   Risk/Exits        check_stop_loss, check_take_profit, check_trailing_stop.
--   Risk/Daily        attach_state, _persist, reset_daily, record_order_submitted,
--                     record_fill_result, record_trade, record_api_call, record_broker_failure,
--                     record_broker_success, enter_degraded_mode, exit_degraded_mode.
--   Risk/Gate         check_daily_loss_limit, check_max_positions, check_cooldown, can_trade.
--   Risk/Session      any sequence of those calls and of restarts, each with the clock's reading.
--   Risk/Global       GlobalRiskManager of the same file.
--   Engine            the decisions of alphalive/strategy/signal_engine.py on the indicators of a bar,
--                     which are given: State (the engine and its snapshots), Cooldown, Crossover
--                     (ma_crossover), MeanReversion, Momentum, Breakout (bollinger_breakout), Vwap,
--                     Combo (bollinger_rsi_combo), TrendRsi, Greenblatt, and Filter (generate_signal
--                     with _is_bear_market). Indicators are natural numbers, and NaN is none.
--   AlphaSignal       alphalive/services/alphasignal_client.py: the checks on a response, and in
--                     AlphaSignal/Gate the identity, the gate and its fail policy.
--   Main/Ledger       _sync_position_ledger of alphalive/main.py.
--   Main/Reconciliation _run_position_reconciliation, _apply_corporate_actions,
--                     _record_broker_call.
--   Main/Engines      _restore_engine_states, _sync_engines_with_ledger.
--   Main/Periodic     should_run_signal_check and the marks of the checks.
--   Main/SignalCheck  _check_signal_for_strategy up to the call of execute_signal.
--   State/Types       what BotState.state of alphalive/state.py holds.
--   State/Disk        _load, _handle_unreadable_state, _migrate, save: the state file and its backup
--                     are values, and whether a write succeeds is the environment's choice.
--   State/Fills       apply_intent_fill_progress.
--   State/Intents     create_submission_intent, update_submission_intent, get_submission_intent,
--                     get_open_intent, list_open_intents.
--                     Intents/Contract is what the store promises.
--   State/Engines     the engine snapshots.
--   State/Ledger      position highs, entry timestamps, is_min_hold_met, record_position_open,
--                     record_position_close, the daily profit, the dashboard's pause file.
--   State/Dates       the marks that carry a date, and reset_daily.
--   State/Weekly      the claims and completions of the weekly and daily evaluations.
--   Orders/Placing    _place_with_retry and _is_definite_rejection of
--                     alphalive/execution/order_manager.py: what each attempt does and what the broker
--                     then answers about the client order id are arguments.
--   Orders/Progress   _apply_order_progress: one booking over the state, the risk manager and the
--                     global one.
--   Orders/Reconcile  _map_broker_order_status and _reconcile_intent.
--   Orders/CheckExits check_exits.
--   Orders/Settle     cancel_open_entry_orders and _settle_working_orders_before_close; the broker is
--                     an interface with a state of its own.
--   Orders/Venue      what an order manager asks of the broker, as an interface, and the preparing and
--                     sending of one order.
--   Orders/OpenClose  _reconcile_open_close_intent.
--   Orders/Sync       sync_open_intents.
--   Orders/ClosePosition close_position.
--   Orders/Signals, Orders/TakeOrder, Orders/ExecuteSignal execute_signal: its decision, what becomes of
--                     the order, and the whole.
--   Portfolio         alphalive/portfolio/target_weights.py.
--   Prelude           shared helpers: tests on numbers, integers over the native naturals, lists,
--                     association lists for Python's dictionaries, results that may raise.
--
-- How values are modelled. Quantities are natural numbers of 10⁻⁹ shares, prices of 10⁻⁶ dollars a
-- share, and amounts of 10⁻¹⁵ dollars, so that a product of the first two is exact; percentages are in
-- units of 10⁻⁶ percent. Comparisons against a percentage are multiplied through by 100 percent
-- instead of divided. The rounding of floats is not modelled; where the code divides one amount by a
-- quantity (the incremental fill price, the average entry price) the quotient is a parameter `divide`
-- of which nothing is assumed unless a theorem says so. Prices and quantities of a broker report are
-- not negative. Dates, instants in seconds, tickers and identifiers are numbers. The clock's reading
-- is an argument. A method that changes an object takes it and returns it; log messages are left out,
-- and alerts are values in the order in which they are sent. An exception is a value of Outcome.
-- There is no fuel: every loop here runs over a list or over a number of attempts.
--
-- What is not modelled: the indicators, the confidences and the texts of the signal engine (floating
-- point over pandas frames), the market data, the broker's transport, Telegram, the dashboard, the
-- configuration loaders, the main loop's schedule and start, replay, the screener and the scripts; of
-- state.py the process lock. They are input and output, or later parts of this library.
pub mod Prelude
pub mod Utils
pub mod Risk
pub mod State
pub mod Engine
pub mod AlphaSignal
pub mod Orders
pub mod Main
pub mod Portfolio
