-- ===== src/Server/Ops.antt =====
-- The names of operations: `OPS`, `toLower` and `string2Ops` of server/src/handler.cpp and
-- server/include/handler.h.
use tiny_lsm_tree.Common.{ℕ, ◌+◌, map, ◌&&◌, Bytes, bytes, leb, bytes_eq, if◌then◌else◌}

pub data Ops : Type 0 where
  ping flushall save get set del incr decr expire ttl hset hget hdel hkeys lpush rpush lpop rpop
        llen lrange zadd zrem zrange zcard zscore zincrby zrank sadd srem sismember scard smembers
        unknown :
      Ops

-- `std::tolower` in the C locale
unfoldable pub lower_char : ℕ → ℕ
lower_char c = if leb b'A' c && leb c b'Z' then c + 32 else c

unfoldable pub to_lower : Bytes → Bytes
unfolding lower_char
to_lower = map lower_char

-- The ladder of `string2Ops` on the lower-case name.
unfoldable pub ops_of_lower : Bytes → Ops
ops_of_lower s =
    if bytes_eq s (bytes "ping")
    then Ops.ping
    else if bytes_eq s (bytes "flushall")
    then Ops.flushall
    else if bytes_eq s (bytes "save")
    then Ops.save
    else if bytes_eq s (bytes "get")
    then Ops.get
    else if bytes_eq s (bytes "set")
    then Ops.set
    else if bytes_eq s (bytes "del")
    then Ops.del
    else if bytes_eq s (bytes "incr")
    then Ops.incr
    else if bytes_eq s (bytes "decr")
    then Ops.decr
    else if bytes_eq s (bytes "expire")
    then Ops.expire
    else if bytes_eq s (bytes "ttl")
    then Ops.ttl
    else if bytes_eq s (bytes "hset")
    then Ops.hset
    else if bytes_eq s (bytes "hget")
    then Ops.hget
    else if bytes_eq s (bytes "hdel")
    then Ops.hdel
    else if bytes_eq s (bytes "hkeys")
    then Ops.hkeys
    else if bytes_eq s (bytes "rpush")
    then Ops.rpush
    else if bytes_eq s (bytes "lpush")
    then Ops.lpush
    else if bytes_eq s (bytes "rpop")
    then Ops.rpop
    else if bytes_eq s (bytes "lpop")
    then Ops.lpop
    else if bytes_eq s (bytes "llen")
    then Ops.llen
    else if bytes_eq s (bytes "lrange")
    then Ops.lrange
    else if bytes_eq s (bytes "zadd")
    then Ops.zadd
    else if bytes_eq s (bytes "zcard")
    then Ops.zcard
    else if bytes_eq s (bytes "zincrby")
    then Ops.zincrby
    else if bytes_eq s (bytes "zrange")
    then Ops.zrange
    else if bytes_eq s (bytes "zrank")
    then Ops.zrank
    else if bytes_eq s (bytes "zrem")
    then Ops.zrem
    else if bytes_eq s (bytes "zscore")
    then Ops.zscore
    else if bytes_eq s (bytes "sadd")
    then Ops.sadd
    else if bytes_eq s (bytes "scard")
    then Ops.scard
    else if bytes_eq s (bytes "smembers")
    then Ops.smembers
    else if bytes_eq s (bytes "srem")
    then Ops.srem
    else if bytes_eq s (bytes "sismember")
    then Ops.sismember
    else Ops.unknown

unfoldable pub string_to_ops : Bytes → Ops
unfolding to_lower ops_of_lower
string_to_ops s = ops_of_lower (to_lower s)
