-- ===== src/Risk.antt =====
-- alphalive/execution/risk_manager.py: the per-strategy risk manager and the global one.
pub mod Types
pub mod Samples
pub mod Sizing
pub mod Exits
pub mod Daily
pub mod Gate
pub mod Session
pub mod Global
