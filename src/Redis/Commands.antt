-- ===== src/Redis/Commands.antt =====
-- The commands of RedisWrapper (src/redis_wrapper/redis_wrapper.cpp): how each takes its arguments,
-- and what the `redis_` functions answer. None of these reads or changes the database yet.
use tiny_lsm_tree.Common.{◌-◌, ◌%◌, List, [], ◌∷◌, ◌++◌, Bytes, bytes}
use tiny_lsm_tree.Common.{length, drop, ltb, ◌==◌, not, ◌||◌, if◌then◌else◌}
use tiny_lsm_tree.Common.Int.{ℤ}
use tiny_lsm_tree.Redis.Reply.{Reply, ok, ◌>>=◌, arg, line, to_string, stoi}

unfoldable pub redis_incr : Bytes → Bytes
redis_incr key = bytes "1"

unfoldable pub redis_decr : Bytes → Bytes
redis_decr key = bytes "-1"

unfoldable pub redis_del : List Bytes → Bytes
redis_del args = line (bytes ":" ++ to_string 0)

unfoldable pub redis_expire : Bytes → Bytes → Bytes
redis_expire key seconds_count = line (bytes ":1")

unfoldable pub redis_set : Bytes → Bytes → Bytes
redis_set key value = line (bytes "+OK")

unfoldable pub redis_get : Bytes → Bytes
redis_get key = line (bytes "$-1")

unfoldable pub redis_ttl : Bytes → Bytes
redis_ttl key = line (bytes ":1")

unfoldable pub redis_hset_batch : Bytes → List (Bytes × Bytes) → Bytes
redis_hset_batch key field_value_pairs = line (bytes ":" ++ to_string 0)

unfoldable pub redis_hset : Bytes → Bytes → Bytes → Bytes
redis_hset key field value = line (bytes "+OK")

unfoldable pub redis_hget : Bytes → Bytes → Bytes
redis_hget key field = line (bytes "$-1")

unfoldable pub redis_hdel : Bytes → Bytes → Bytes
redis_hdel key field = line (bytes ":1")

unfoldable pub redis_hkeys : Bytes → Bytes
redis_hkeys key = line (bytes "*0")

unfoldable pub redis_lpush : Bytes → Bytes → Bytes
redis_lpush key value = line (bytes ":" ++ to_string 1)

unfoldable pub redis_rpush : Bytes → Bytes → Bytes
redis_rpush key value = line (bytes ":" ++ to_string 1)

unfoldable pub redis_lpop : Bytes → Bytes
redis_lpop key = line (bytes "$-1")

unfoldable pub redis_rpop : Bytes → Bytes
redis_rpop key = line (bytes "$-1")

unfoldable pub redis_llen : Bytes → Bytes
redis_llen key = line (bytes ":1")

unfoldable pub redis_lrange : Bytes → ℤ → ℤ → Bytes
redis_lrange key start stop = line (bytes "*0")

unfoldable pub redis_zadd : List Bytes → Bytes
redis_zadd args = line (bytes ":1")

unfoldable pub redis_zrem : List Bytes → Bytes
redis_zrem args = line (bytes ":" ++ to_string 0)

unfoldable pub redis_zrange : List Bytes → Bytes
redis_zrange args = line (bytes "*0")

unfoldable pub redis_zcard : Bytes → Bytes
redis_zcard key = line (bytes ":1")

unfoldable pub redis_zscore : Bytes → Bytes → Bytes
redis_zscore key elem = line (bytes "$-1")

unfoldable pub redis_zincrby : Bytes → Bytes → Bytes → Bytes
redis_zincrby key increment elem = line (bytes "$-1")

unfoldable pub redis_zrank : Bytes → Bytes → Bytes
redis_zrank key elem = line (bytes "$-1")

unfoldable pub redis_sadd : List Bytes → Bytes
redis_sadd args = line (bytes ":1")

unfoldable pub redis_srem : List Bytes → Bytes
redis_srem args = line (bytes ":" ++ to_string 0)

unfoldable pub redis_sismember : Bytes → Bytes → Bytes
redis_sismember key member = line (bytes ":1")

unfoldable pub redis_scard : Bytes → Bytes
redis_scard key = line (bytes ":1")

unfoldable pub redis_smembers : Bytes → Bytes
redis_smembers key = line (bytes "*0")

unfoldable pub set : List Bytes → Reply
unfolding redis_set
set args = do a ← arg args 1; b ← arg args 2; ok (redis_set a b)

unfoldable pub get : List Bytes → Reply
unfolding redis_get
get args = do a ← arg args 1; ok (redis_get a)

unfoldable pub del : List Bytes → Reply
unfolding redis_del
del args = ok (redis_del args)

unfoldable pub incr : List Bytes → Reply
unfolding redis_incr
incr args = do a ← arg args 1; ok (redis_incr a)

unfoldable pub decr : List Bytes → Reply
unfolding redis_decr
decr args = do a ← arg args 1; ok (redis_decr a)

unfoldable pub expire : List Bytes → Reply
unfolding redis_expire
expire args = do a ← arg args 1; b ← arg args 2; ok (redis_expire a b)

unfoldable pub ttl : List Bytes → Reply
unfolding redis_ttl
ttl args = do a ← arg args 1; ok (redis_ttl a)

unfoldable pub hget : List Bytes → Reply
unfolding redis_hget
hget args = do a ← arg args 1; b ← arg args 2; ok (redis_hget a b)

unfoldable pub hdel : List Bytes → Reply
unfolding redis_hdel
hdel args = do a ← arg args 1; b ← arg args 2; ok (redis_hdel a b)

unfoldable pub hkeys : List Bytes → Reply
unfolding redis_hkeys
hkeys args = do a ← arg args 1; ok (redis_hkeys a)

unfoldable pub lpush : List Bytes → Reply
unfolding redis_lpush
lpush args = do a ← arg args 1; b ← arg args 2; ok (redis_lpush a b)

unfoldable pub rpush : List Bytes → Reply
unfolding redis_rpush
rpush args = do a ← arg args 1; b ← arg args 2; ok (redis_rpush a b)

unfoldable pub lpop : List Bytes → Reply
unfolding redis_lpop
lpop args = do a ← arg args 1; ok (redis_lpop a)

unfoldable pub rpop : List Bytes → Reply
unfolding redis_rpop
rpop args = do a ← arg args 1; ok (redis_rpop a)

unfoldable pub llen : List Bytes → Reply
unfolding redis_llen
llen args = do a ← arg args 1; ok (redis_llen a)

unfoldable pub zadd : List Bytes → Reply
unfolding redis_zadd
zadd args = ok (redis_zadd args)

unfoldable pub zrem : List Bytes → Reply
unfolding redis_zrem
zrem args = ok (redis_zrem args)

unfoldable pub zrange : List Bytes → Reply
unfolding redis_zrange
zrange args = ok (redis_zrange args)

unfoldable pub zcard : List Bytes → Reply
unfolding redis_zcard
zcard args = do a ← arg args 1; ok (redis_zcard a)

unfoldable pub zscore : List Bytes → Reply
unfolding redis_zscore
zscore args = do a ← arg args 1; b ← arg args 2; ok (redis_zscore a b)

unfoldable pub zincrby : List Bytes → Reply
unfolding redis_zincrby
zincrby args = do a ← arg args 1; b ← arg args 2; c ← arg args 3; ok (redis_zincrby a b c)

unfoldable pub zrank : List Bytes → Reply
unfolding redis_zrank
zrank args = do a ← arg args 1; b ← arg args 2; ok (redis_zrank a b)

unfoldable pub sadd : List Bytes → Reply
unfolding redis_sadd
sadd args = ok (redis_sadd args)

unfoldable pub srem : List Bytes → Reply
unfolding redis_srem
srem args = ok (redis_srem args)

unfoldable pub sismember : List Bytes → Reply
unfolding redis_sismember
sismember args = do a ← arg args 1; b ← arg args 2; ok (redis_sismember a b)

unfoldable pub scard : List Bytes → Reply
unfolding redis_scard
scard args = do a ← arg args 1; ok (redis_scard a)

unfoldable pub smembers : List Bytes → Reply
unfolding redis_smembers
smembers args = do a ← arg args 1; ok (redis_smembers a)

-- `for (size_t i = 2; i < args.size(); i += 2)`, on the arguments from the second on
unfoldable pub field_values : List Bytes → List (Bytes × Bytes)
field_values [] = []
field_values (f ∷ []) = []
field_values (f ∷ v ∷ rest) = (f, v) ∷ field_values rest

unfoldable pub hset : List Bytes → Reply
unfolding redis_hset_batch field_values
hset args =
    if ltb (length args) 4 || not ((length args - 1) % 2 == 1)
    then ok (line (bytes "-ERR wrong number of arguments for 'hset' command"))
    else do key ← arg args 1; ok (redis_hset_batch key (field_values (drop 2 args)))

unfoldable pub lrange : List Bytes → Reply
unfolding redis_lrange
lrange args = do
  s ← arg args 2
  start ← stoi s
  e ← arg args 3
  stop ← stoi e
  key ← arg args 1
  ok (redis_lrange key start stop)
