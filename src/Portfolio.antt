-- ===== src/Portfolio.antt =====
-- alphalive/portfolio: the targets of an equal-weight portfolio.
pub mod Targets
