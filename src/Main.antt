-- ===== src/Main.antt =====
-- alphalive/main.py: the bookkeeping that the main loop does at startup and between its checks.
pub mod Ledger
pub mod Reconciliation
pub mod Engines
pub mod Periodic
pub mod SignalCheck
