-- ===== src/Server/Handlers.antt =====
-- The handlers of server/src/handler.cpp: each checks the number of arguments, the name of the
-- command among them, and passes them to its command.
use tiny_lsm_tree.Common.{
  ◌-◌, ◌%◌, List, ◌++◌, Bytes, bytes, length, ltb, ◌==◌, not, ◌||◌, if◌then◌else◌,
}
use tiny_lsm_tree.Redis.Reply.{Reply, ok, ◌>>=◌, line}
use tiny_lsm_tree.Redis.Commands

unfoldable pub set_handler : List Bytes → Reply
unfolding Commands.set
set_handler args =
    if not (length args == 3)
    then ok (line (bytes "-ERR wrong number of arguments for 'SET' command"))
    else Commands.set args

unfoldable pub get_handler : List Bytes → Reply
unfolding Commands.get
get_handler args =
    if not (length args == 2)
    then ok (line (bytes "-ERR wrong number of arguments for 'GET' command"))
    else Commands.get args

unfoldable pub del_handler : List Bytes → Reply
unfolding Commands.del
del_handler args =
    if ltb (length args) 2
    then ok (line (bytes "-ERR wrong number of arguments for 'DEL' command"))
    else Commands.del args

unfoldable pub incr_handler : List Bytes → Reply
unfolding Commands.incr
incr_handler args =
    if not (length args == 2)
    then ok (line (bytes "-ERR wrong number of arguments for 'INCR' command"))
    else (do res ← Commands.incr args; ok (line (bytes ":" ++ res)))

unfoldable pub decr_handler : List Bytes → Reply
unfolding Commands.decr
decr_handler args =
    if not (length args == 2)
    then ok (line (bytes "-ERR wrong number of arguments for 'DECR' command"))
    else (do res ← Commands.decr args; ok (line (bytes ":" ++ res)))

unfoldable pub expire_handler : List Bytes → Reply
unfolding Commands.expire
expire_handler args =
    if not (length args == 3)
    then ok (line (bytes "-ERR wrong number of arguments for 'EXPIRE' command"))
    else Commands.expire args

unfoldable pub ttl_handler : List Bytes → Reply
unfolding Commands.ttl
ttl_handler args =
    if not (length args == 2)
    then ok (line (bytes "-ERR wrong number of arguments for 'TTL' command"))
    else Commands.ttl args

unfoldable pub hset_handler : List Bytes → Reply
unfolding Commands.hset
hset_handler args =
    if ltb (length args) 4
    then ok (line (bytes "-ERR wrong number of arguments for 'HSET' command"))
    else Commands.hset args

unfoldable pub hget_handler : List Bytes → Reply
unfolding Commands.hget
hget_handler args =
    if not (length args == 3)
    then ok (line (bytes "-ERR wrong number of arguments for 'HGET' command"))
    else Commands.hget args

unfoldable pub hdel_handler : List Bytes → Reply
unfolding Commands.hdel
hdel_handler args =
    if not (length args == 3)
    then ok (line (bytes "-ERR wrong number of arguments for 'HDEL' command"))
    else Commands.hdel args

unfoldable pub hkeys_handler : List Bytes → Reply
unfolding Commands.hkeys
hkeys_handler args =
    if not (length args == 2)
    then ok (line (bytes "-ERR wrong number of arguments for 'HKEYS' command"))
    else Commands.hkeys args

unfoldable pub lpush_handler : List Bytes → Reply
unfolding Commands.lpush
lpush_handler args =
    if not (length args == 3)
    then ok (line (bytes "-ERR wrong number of arguments for 'LPUSH' command"))
    else Commands.lpush args

unfoldable pub rpush_handler : List Bytes → Reply
unfolding Commands.rpush
rpush_handler args =
    if not (length args == 3)
    then ok (line (bytes "-ERR wrong number of arguments for 'RPUSH' command"))
    else Commands.rpush args

unfoldable pub lpop_handler : List Bytes → Reply
unfolding Commands.lpop
lpop_handler args =
    if not (length args == 2)
    then ok (line (bytes "-ERR wrong number of arguments for 'LPOP' command"))
    else Commands.lpop args

unfoldable pub rpop_handler : List Bytes → Reply
unfolding Commands.rpop
rpop_handler args =
    if not (length args == 2)
    then ok (line (bytes "-ERR wrong number of arguments for 'RPOP' command"))
    else Commands.rpop args

unfoldable pub llen_handler : List Bytes → Reply
unfolding Commands.llen
llen_handler args =
    if not (length args == 3)
    then ok (line (bytes "-ERR wrong number of arguments for 'LLEN' command"))
    else Commands.llen args

unfoldable pub lrange_handler : List Bytes → Reply
unfolding Commands.lrange
lrange_handler args =
    if not (length args == 4)
    then ok (line (bytes "-ERR wrong number of arguments for 'LRANGE' command"))
    else Commands.lrange args

unfoldable pub zadd_handler : List Bytes → Reply
unfolding Commands.zadd
zadd_handler args =
    if ltb (length args) 4 || not ((length args - 2) % 2 == 0)
    then ok (line (bytes "-ERR wrong number of arguments for 'zadd' command"))
    else Commands.zadd args

unfoldable pub zrem_handler : List Bytes → Reply
unfolding Commands.zrem
zrem_handler args =
    if ltb (length args) 3
    then ok (line (bytes "-ERR wrong number of arguments for 'zrem' command"))
    else Commands.zrem args

unfoldable pub zrange_handler : List Bytes → Reply
unfolding Commands.zrange
zrange_handler args =
    if ltb (length args) 4
    then ok (line (bytes "-ERR wrong number of arguments for 'zrange' command"))
    else Commands.zrange args

unfoldable pub zcard_handler : List Bytes → Reply
unfolding Commands.zcard
zcard_handler args =
    if not (length args == 2)
    then ok (line (bytes "-ERR wrong number of arguments for 'zcard' command"))
    else Commands.zcard args

unfoldable pub zscore_handler : List Bytes → Reply
unfolding Commands.zscore
zscore_handler args =
    if not (length args == 3)
    then ok (line (bytes "-ERR wrong number of arguments for 'zscore' command"))
    else Commands.zscore args

unfoldable pub zincrby_handler : List Bytes → Reply
unfolding Commands.zincrby
zincrby_handler args =
    if not (length args == 4)
    then ok (line (bytes "-ERR wrong number of arguments for 'zincrby' command"))
    else Commands.zincrby args

unfoldable pub zrank_handler : List Bytes → Reply
unfolding Commands.zrank
zrank_handler args =
    if not (length args == 3)
    then ok (line (bytes "-ERR wrong number of arguments for 'zrank' command"))
    else Commands.zrank args

unfoldable pub sadd_handler : List Bytes → Reply
unfolding Commands.sadd
sadd_handler args =
    if ltb (length args) 3
    then ok (line (bytes "-ERR wrong number of arguments for 'sadd' command"))
    else Commands.sadd args

unfoldable pub srem_handler : List Bytes → Reply
unfolding Commands.srem
srem_handler args =
    if ltb (length args) 3
    then ok (line (bytes "-ERR wrong number of arguments for 'srem' command"))
    else Commands.srem args

unfoldable pub sismember_handler : List Bytes → Reply
unfolding Commands.sismember
sismember_handler args =
    if not (length args == 3)
    then ok (line (bytes "-ERR wrong number of arguments for 'sismember' command"))
    else Commands.sismember args

unfoldable pub scard_handler : List Bytes → Reply
unfolding Commands.scard
scard_handler args =
    if not (length args == 2)
    then ok (line (bytes "-ERR wrong number of arguments for 'scard' command"))
    else Commands.scard args

unfoldable pub smembers_handler : List Bytes → Reply
unfolding Commands.smembers
smembers_handler args =
    if not (length args == 2)
    then ok (line (bytes "-ERR wrong number of arguments for 'smembers' command"))
    else Commands.smembers args
