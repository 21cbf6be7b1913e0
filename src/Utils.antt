-- ===== src/Utils.antt =====
-- alphalive/utils: boolean environment variables and the retry loop.
pub mod EnvBool
pub mod Retry
