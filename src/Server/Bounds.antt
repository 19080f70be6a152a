-- ===== src/Server/Bounds.antt =====
-- No handler of server/src/handler.cpp reads behind the end of its arguments.
use tiny_lsm_tree.Common.{
  List, Option, none, some, arith, ◌-◌, ◌%◌, Bytes, length, ltb, ◌==◌, not, ◌||◌,
}
use tiny_lsm_tree.Redis.Reply.{Reply, arg, stoi}
use tiny_lsm_tree.Redis.Commands
use tiny_lsm_tree.Server.Ops.{Ops}
use tiny_lsm_tree.Server.Safe.{
  Safe, replies, bind-Safe, arg-Safe, stoi-Safe, guarded-Safe, reads_one, reads_two, reads_three,
}
use tiny_lsm_tree.Server.Handlers.{
  set_handler, get_handler, del_handler, incr_handler, decr_handler, expire_handler, ttl_handler,
  hset_handler,
}
use tiny_lsm_tree.Server.Handlers.{
  hget_handler, hdel_handler, hkeys_handler, lpush_handler, rpush_handler, lpop_handler,
  rpop_handler, llen_handler,
}
use tiny_lsm_tree.Server.Handlers.{
  lrange_handler, zadd_handler, zrem_handler, zrange_handler, zcard_handler, zscore_handler,
  zincrby_handler, zrank_handler,
}
use tiny_lsm_tree.Server.Handlers.{
  sadd_handler, srem_handler, sismember_handler, scard_handler, smembers_handler,
}

set-Safe : (args : List Bytes) → Safe (set_handler args)
unfolding set_handler Commands.set
set-Safe args = guarded-Safe (not (length args == 3)) _ _ (λ e. reads_two args _ (ground arith))

get-Safe : (args : List Bytes) → Safe (get_handler args)
unfolding get_handler Commands.get
get-Safe args = guarded-Safe (not (length args == 2)) _ _ (λ e. reads_one args _ (ground arith))

del-Safe : (args : List Bytes) → Safe (del_handler args)
unfolding del_handler Commands.del
del-Safe args = guarded-Safe (ltb (length args) 2) _ _ (λ e. replies _)

incr-Safe : (args : List Bytes) → Safe (incr_handler args)
unfolding incr_handler Commands.incr
incr-Safe args =
    guarded-Safe (not (length args == 2)) _ _
      (λ e. bind-Safe (Commands.incr args) _ (reads_one args _ (ground arith)) (λ res. replies _))

decr-Safe : (args : List Bytes) → Safe (decr_handler args)
unfolding decr_handler Commands.decr
decr-Safe args =
    guarded-Safe (not (length args == 2)) _ _
      (λ e. bind-Safe (Commands.decr args) _ (reads_one args _ (ground arith)) (λ res. replies _))

expire-Safe : (args : List Bytes) → Safe (expire_handler args)
unfolding expire_handler Commands.expire
expire-Safe args = guarded-Safe (not (length args == 3)) _ _ (λ e. reads_two args _ (ground arith))

ttl-Safe : (args : List Bytes) → Safe (ttl_handler args)
unfolding ttl_handler Commands.ttl
ttl-Safe args = guarded-Safe (not (length args == 2)) _ _ (λ e. reads_one args _ (ground arith))

hget-Safe : (args : List Bytes) → Safe (hget_handler args)
unfolding hget_handler Commands.hget
hget-Safe args = guarded-Safe (not (length args == 3)) _ _ (λ e. reads_two args _ (ground arith))

hdel-Safe : (args : List Bytes) → Safe (hdel_handler args)
unfolding hdel_handler Commands.hdel
hdel-Safe args = guarded-Safe (not (length args == 3)) _ _ (λ e. reads_two args _ (ground arith))

hkeys-Safe : (args : List Bytes) → Safe (hkeys_handler args)
unfolding hkeys_handler Commands.hkeys
hkeys-Safe args = guarded-Safe (not (length args == 2)) _ _ (λ e. reads_one args _ (ground arith))

lpush-Safe : (args : List Bytes) → Safe (lpush_handler args)
unfolding lpush_handler Commands.lpush
lpush-Safe args = guarded-Safe (not (length args == 3)) _ _ (λ e. reads_two args _ (ground arith))

rpush-Safe : (args : List Bytes) → Safe (rpush_handler args)
unfolding rpush_handler Commands.rpush
rpush-Safe args = guarded-Safe (not (length args == 3)) _ _ (λ e. reads_two args _ (ground arith))

lpop-Safe : (args : List Bytes) → Safe (lpop_handler args)
unfolding lpop_handler Commands.lpop
lpop-Safe args = guarded-Safe (not (length args == 2)) _ _ (λ e. reads_one args _ (ground arith))

rpop-Safe : (args : List Bytes) → Safe (rpop_handler args)
unfolding rpop_handler Commands.rpop
rpop-Safe args = guarded-Safe (not (length args == 2)) _ _ (λ e. reads_one args _ (ground arith))

llen-Safe : (args : List Bytes) → Safe (llen_handler args)
unfolding llen_handler Commands.llen
llen-Safe args = guarded-Safe (not (length args == 3)) _ _ (λ e. reads_one args _ (ground arith))

zadd-Safe : (args : List Bytes) → Safe (zadd_handler args)
unfolding zadd_handler Commands.zadd
zadd-Safe args =
    guarded-Safe (ltb (length args) 4 || not ((length args - 2) % 2 == 0)) _ _ (λ e. replies _)

zrem-Safe : (args : List Bytes) → Safe (zrem_handler args)
unfolding zrem_handler Commands.zrem
zrem-Safe args = guarded-Safe (ltb (length args) 3) _ _ (λ e. replies _)

zrange-Safe : (args : List Bytes) → Safe (zrange_handler args)
unfolding zrange_handler Commands.zrange
zrange-Safe args = guarded-Safe (ltb (length args) 4) _ _ (λ e. replies _)

zcard-Safe : (args : List Bytes) → Safe (zcard_handler args)
unfolding zcard_handler Commands.zcard
zcard-Safe args = guarded-Safe (not (length args == 2)) _ _ (λ e. reads_one args _ (ground arith))

zscore-Safe : (args : List Bytes) → Safe (zscore_handler args)
unfolding zscore_handler Commands.zscore
zscore-Safe args = guarded-Safe (not (length args == 3)) _ _ (λ e. reads_two args _ (ground arith))

zincrby-Safe : (args : List Bytes) → Safe (zincrby_handler args)
unfolding zincrby_handler Commands.zincrby
zincrby-Safe args =
    guarded-Safe (not (length args == 4)) _ _ (λ e. reads_three args _ (ground arith))

zrank-Safe : (args : List Bytes) → Safe (zrank_handler args)
unfolding zrank_handler Commands.zrank
zrank-Safe args = guarded-Safe (not (length args == 3)) _ _ (λ e. reads_two args _ (ground arith))

sadd-Safe : (args : List Bytes) → Safe (sadd_handler args)
unfolding sadd_handler Commands.sadd
sadd-Safe args = guarded-Safe (ltb (length args) 3) _ _ (λ e. replies _)

srem-Safe : (args : List Bytes) → Safe (srem_handler args)
unfolding srem_handler Commands.srem
srem-Safe args = guarded-Safe (ltb (length args) 3) _ _ (λ e. replies _)

sismember-Safe : (args : List Bytes) → Safe (sismember_handler args)
unfolding sismember_handler Commands.sismember
sismember-Safe args =
    guarded-Safe (not (length args == 3)) _ _ (λ e. reads_two args _ (ground arith))

scard-Safe : (args : List Bytes) → Safe (scard_handler args)
unfolding scard_handler Commands.scard
scard-Safe args = guarded-Safe (not (length args == 2)) _ _ (λ e. reads_one args _ (ground arith))

smembers-Safe : (args : List Bytes) → Safe (smembers_handler args)
unfolding smembers_handler Commands.smembers
smembers-Safe args =
    guarded-Safe (not (length args == 2)) _ _ (λ e. reads_one args _ (ground arith))

hset-Safe : (args : List Bytes) → Safe (hset_handler args)
unfolding hset_handler Commands.hset
hset-Safe args = guarded-Safe (ltb (length args) 4) _ _ (λ e.
    guarded-Safe (ltb (length args) 4 || not ((length args - 1) % 2 == 1)) _ _
      (λ e'. bind-Safe (arg args 1) _ (arg-Safe args 1 (ground arith)) (λ k. replies _)))

lrange-Safe : (args : List Bytes) → Safe (lrange_handler args)
unfolding lrange_handler Commands.lrange
lrange-Safe args = guarded-Safe (not (length args == 4)) _ _ (λ e.
    bind-Safe (arg args 2) _ (arg-Safe args 2 (ground arith)) (λ s.
      bind-Safe (stoi s) _ (stoi-Safe s) (λ start.
        bind-Safe (arg args 3) _ (arg-Safe args 3 (ground arith)) (λ t.
          bind-Safe (stoi t) _ (stoi-Safe t)
            (λ stop. bind-Safe (arg args 1) _ (arg-Safe args 1 (ground arith)) (λ k. replies _))))))

-- The handler that goes with the name of an operation, for those that take arguments.
unfoldable pub handler_of : Ops → Option (List Bytes → Reply)
handler_of Ops.get = some get_handler
handler_of Ops.set = some set_handler
handler_of Ops.del = some del_handler
handler_of Ops.incr = some incr_handler
handler_of Ops.decr = some decr_handler
handler_of Ops.expire = some expire_handler
handler_of Ops.ttl = some ttl_handler
handler_of Ops.hset = some hset_handler
handler_of Ops.hget = some hget_handler
handler_of Ops.hdel = some hdel_handler
handler_of Ops.hkeys = some hkeys_handler
handler_of Ops.lpush = some lpush_handler
handler_of Ops.rpush = some rpush_handler
handler_of Ops.lpop = some lpop_handler
handler_of Ops.rpop = some rpop_handler
handler_of Ops.llen = some llen_handler
handler_of Ops.lrange = some lrange_handler
handler_of Ops.zadd = some zadd_handler
handler_of Ops.zrem = some zrem_handler
handler_of Ops.zrange = some zrange_handler
handler_of Ops.zcard = some zcard_handler
handler_of Ops.zscore = some zscore_handler
handler_of Ops.zincrby = some zincrby_handler
handler_of Ops.zrank = some zrank_handler
handler_of Ops.sadd = some sadd_handler
handler_of Ops.srem = some srem_handler
handler_of Ops.sismember = some sismember_handler
handler_of Ops.scard = some scard_handler
handler_of Ops.smembers = some smembers_handler
handler_of _ = none

-- The handler, if there is one, does not read behind the end of these arguments.
abbrev pub Answers : Option (List Bytes → Reply) → List Bytes → Type 0
Answers none args = Unit
Answers (some h) args = Safe (h args)

-- Whatever the operation and whatever the arguments, its handler ends with a reply or with an
-- exception of the standard library: it never reads an element behind the end of `args`.
pub handlers-Safe : (op : Ops) (args : List Bytes) → Answers (handler_of op) args
unfolding handler_of
handlers-Safe Ops.ping args = tt
handlers-Safe Ops.flushall args = tt
handlers-Safe Ops.save args = tt
handlers-Safe Ops.get args = get-Safe args
handlers-Safe Ops.set args = set-Safe args
handlers-Safe Ops.del args = del-Safe args
handlers-Safe Ops.incr args = incr-Safe args
handlers-Safe Ops.decr args = decr-Safe args
handlers-Safe Ops.expire args = expire-Safe args
handlers-Safe Ops.ttl args = ttl-Safe args
handlers-Safe Ops.hset args = hset-Safe args
handlers-Safe Ops.hget args = hget-Safe args
handlers-Safe Ops.hdel args = hdel-Safe args
handlers-Safe Ops.hkeys args = hkeys-Safe args
handlers-Safe Ops.lpush args = lpush-Safe args
handlers-Safe Ops.rpush args = rpush-Safe args
handlers-Safe Ops.lpop args = lpop-Safe args
handlers-Safe Ops.rpop args = rpop-Safe args
handlers-Safe Ops.llen args = llen-Safe args
handlers-Safe Ops.lrange args = lrange-Safe args
handlers-Safe Ops.zadd args = zadd-Safe args
handlers-Safe Ops.zrem args = zrem-Safe args
handlers-Safe Ops.zrange args = zrange-Safe args
handlers-Safe Ops.zcard args = zcard-Safe args
handlers-Safe Ops.zscore args = zscore-Safe args
handlers-Safe Ops.zincrby args = zincrby-Safe args
handlers-Safe Ops.zrank args = zrank-Safe args
handlers-Safe Ops.sadd args = sadd-Safe args
handlers-Safe Ops.srem args = srem-Safe args
handlers-Safe Ops.sismember args = sismember-Safe args
handlers-Safe Ops.scard args = scard-Safe args
handlers-Safe Ops.smembers args = smembers-Safe args
handlers-Safe Ops.unknown args = tt
