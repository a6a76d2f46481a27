-- ===== src/RateLimit.antt =====
-- inference/rate_limit.py: the token bucket is in RateLimit/Bucket, the controller in
-- RateLimit/Controller, its callers in RateLimit/Callers.
pub mod Bucket
pub mod Controller
pub mod Callers
mod Tests
