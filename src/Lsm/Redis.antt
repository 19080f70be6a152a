-- ===== src/Lsm/Redis.antt =====
-- RedisWrapper::clear and RedisWrapper::flushall (src/redis_wrapper/redis_wrapper.cpp), and the
-- handlers of FLUSHALL and SAVE that call them (server/src/handler.cpp).
use tiny_lsm_tree.Common.{Bool, Bytes, bytes}
use tiny_lsm_tree.Redis.Reply.{line}
use tiny_lsm_tree.Lsm.Front.{Lsm}
use tiny_lsm_tree.Lsm.Front

module _ {Rate : Type 0} where
  unfoldable pub redis_clear : (Bytes → Bool) → Lsm Rate → Lsm Rate
  unfolding Front.clear
  redis_clear removes l = Front.clear removes l

  unfoldable pub redis_flushall : Lsm Rate → Lsm Rate
  unfolding Front.flush
  redis_flushall l = Front.flush l

  unfoldable pub flushall_handler : (Bytes → Bool) → Lsm Rate → Lsm Rate × Bytes
  unfolding redis_clear
  flushall_handler removes l = (redis_clear removes l, line (bytes "+OK"))

  unfoldable pub save_handler : Lsm Rate → Lsm Rate × Bytes
  unfolding redis_flushall
  save_handler l = (redis_flushall l, line (bytes "+OK"))
