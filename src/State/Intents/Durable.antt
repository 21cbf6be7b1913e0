-- ===== src/State/Intents/Durable.antt =====
-- An intent is on disk before anything else happens with it, if the write succeeds.
