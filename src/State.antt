-- ===== src/State.antt =====
-- alphalive/state.py: the persistent state of the bot.
pub mod Types
pub mod Samples
pub mod Disk
pub mod Fills
pub mod Intents
pub mod Ledger
pub mod Weekly
pub mod Dates
pub mod Engines
