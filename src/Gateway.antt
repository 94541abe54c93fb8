-- ===== src/Gateway.antt =====
-- packages/gateway/src: the cache of responses and the rate limiter.
pub mod Lru
pub mod RateLimit
