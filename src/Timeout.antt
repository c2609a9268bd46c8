-- ===== src/Timeout.antt =====
-- internal/timeout/timeout.go: the timeout service. The ticker and the stop channel decide how many
-- checks run after the first one.
pub mod Service
pub mod Safety
