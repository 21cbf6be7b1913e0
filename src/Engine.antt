-- ===== src/Engine.antt =====
-- alphalive/strategy/signal_engine.py: the state of a signal engine, and the strategies that keep state
-- or replay their decisions over a window of bars. Prices and indicator values are numbers of a fixed
-- unit, `none` where the code has NaN.
pub mod Alternate
pub mod Breakout
pub mod Combo
pub mod Cooldown
pub mod Crossover
pub mod Filter
pub mod Greenblatt
pub mod MeanReversion
pub mod Momentum
pub mod State
pub mod TrendRsi
pub mod Turns
pub mod Vwap
