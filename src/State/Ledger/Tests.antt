-- ===== src/State/Ledger/Tests.antt =====
-- Runs of the ledger's operations on concrete values.
