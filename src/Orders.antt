-- ===== src/Orders.antt =====
-- alphalive/execution/order_manager.py: placing orders and following them to their end.
pub mod CheckExits
pub mod ClosePosition
pub mod Placing
mod Samples
pub mod Progress
pub mod Reconcile
pub mod ExecuteSignal
pub mod OpenClose
pub mod Settle
pub mod Signals
pub mod Sync
pub mod TakeOrder
pub mod Venue
