-- ===== src/SberJazz.antt =====
-- The SberJazz connector service, in parts
-- (src/interview_analytics_agent/services/sberjazz_service.py).
pub mod World
pub mod RedisLaws
pub mod Payloads
pub mod Limits
pub mod Store
pub mod Breaker
pub mod Lock
pub mod Calls
pub mod Sessions
pub mod Live
pub mod Job
