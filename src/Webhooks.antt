-- ===== src/Webhooks.antt =====
-- src/services/webhooks.ts, as far as its circuit breaker.
pub mod Breaker
