-- ===== src/Redis.antt =====
-- RedisWrapper (src/redis_wrapper/redis_wrapper.cpp, include/redis_wrapper/redis_wrapper.h).
pub mod Reply
pub mod Commands
