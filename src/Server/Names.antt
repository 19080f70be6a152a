-- ===== src/Server/Names.antt =====
-- The table of names in server/src/handler.cpp: which word gives which operation, in small letters
-- or capitals.
use tiny_lsm_tree.Common.{◌≡◌, refl, sym, ap, ◌∙◌, subst, ◌≢◌, ◌↔◌, ◌⊎◌, inl, inr, []}
use tiny_lsm_tree.Common.{true}
use tiny_lsm_tree.Common.{Bytes, bytes, bytes_eq, bytes_eq→eq, Bool-cases, if◌then◌else◌}
use tiny_lsm_tree.Server.Spelling.{all_small, Spells, to_lower-Spells}
use tiny_lsm_tree.Server.Ops.{Ops, to_lower, ops_of_lower, string_to_ops}

-- The name of an operation in the protocol.
unfoldable pub name_of : Ops → Bytes
name_of Ops.ping = bytes "ping"
name_of Ops.flushall = bytes "flushall"
name_of Ops.save = bytes "save"
name_of Ops.get = bytes "get"
name_of Ops.set = bytes "set"
name_of Ops.del = bytes "del"
name_of Ops.incr = bytes "incr"
name_of Ops.decr = bytes "decr"
name_of Ops.expire = bytes "expire"
name_of Ops.ttl = bytes "ttl"
name_of Ops.hset = bytes "hset"
name_of Ops.hget = bytes "hget"
name_of Ops.hdel = bytes "hdel"
name_of Ops.hkeys = bytes "hkeys"
name_of Ops.lpush = bytes "lpush"
name_of Ops.rpush = bytes "rpush"
name_of Ops.lpop = bytes "lpop"
name_of Ops.rpop = bytes "rpop"
name_of Ops.llen = bytes "llen"
name_of Ops.lrange = bytes "lrange"
name_of Ops.zadd = bytes "zadd"
name_of Ops.zrem = bytes "zrem"
name_of Ops.zrange = bytes "zrange"
name_of Ops.zcard = bytes "zcard"
name_of Ops.zscore = bytes "zscore"
name_of Ops.zincrby = bytes "zincrby"
name_of Ops.zrank = bytes "zrank"
name_of Ops.sadd = bytes "sadd"
name_of Ops.srem = bytes "srem"
name_of Ops.sismember = bytes "sismember"
name_of Ops.scard = bytes "scard"
name_of Ops.smembers = bytes "smembers"
name_of Ops.unknown = []

ops_of_lower-name_of : (op : Ops) → ops_of_lower (name_of op) ≡ op
unfolding ops_of_lower name_of bytes_eq
ops_of_lower-name_of Ops.ping = refl
ops_of_lower-name_of Ops.flushall = refl
ops_of_lower-name_of Ops.save = refl
ops_of_lower-name_of Ops.get = refl
ops_of_lower-name_of Ops.set = refl
ops_of_lower-name_of Ops.del = refl
ops_of_lower-name_of Ops.incr = refl
ops_of_lower-name_of Ops.decr = refl
ops_of_lower-name_of Ops.expire = refl
ops_of_lower-name_of Ops.ttl = refl
ops_of_lower-name_of Ops.hset = refl
ops_of_lower-name_of Ops.hget = refl
ops_of_lower-name_of Ops.hdel = refl
ops_of_lower-name_of Ops.hkeys = refl
ops_of_lower-name_of Ops.lpush = refl
ops_of_lower-name_of Ops.rpush = refl
ops_of_lower-name_of Ops.lpop = refl
ops_of_lower-name_of Ops.rpop = refl
ops_of_lower-name_of Ops.llen = refl
ops_of_lower-name_of Ops.lrange = refl
ops_of_lower-name_of Ops.zadd = refl
ops_of_lower-name_of Ops.zrem = refl
ops_of_lower-name_of Ops.zrange = refl
ops_of_lower-name_of Ops.zcard = refl
ops_of_lower-name_of Ops.zscore = refl
ops_of_lower-name_of Ops.zincrby = refl
ops_of_lower-name_of Ops.zrank = refl
ops_of_lower-name_of Ops.sadd = refl
ops_of_lower-name_of Ops.srem = refl
ops_of_lower-name_of Ops.sismember = refl
ops_of_lower-name_of Ops.scard = refl
ops_of_lower-name_of Ops.smembers = refl
ops_of_lower-name_of Ops.unknown = refl

-- Nothing is known by this name, or it is the name of the operation.
abbrev Named : Bytes → Ops → Type 0
Named s op = (op ≡ Ops.unknown) ⊎ (s ≡ name_of op)

rung :
    (s k : Bytes) (op rest : Ops)
    → k ≡ name_of op
    → Named s rest
    → Named s (if bytes_eq s k then op else rest)
rung s k op rest e h = elim (Bool-cases (bytes_eq s k)) [
  | inl y ↦ subst (λ b. Named s (if b then op else rest)) (sym y) (inr (bytes_eq→eq s k y ∙ e))
  | inr n ↦ subst (λ b. Named s (if b then op else rest)) (sym n) h
]

ops_of_lower_lem : (s : Bytes) → Named s (ops_of_lower s)
unfolding ops_of_lower name_of
ops_of_lower_lem s = rung s _ Ops.ping _ refl (
    rung s _ Ops.flushall _ refl (
      rung s _ Ops.save _ refl (
        rung s _ Ops.get _ refl (
          rung s _ Ops.set _ refl (
            rung s _ Ops.del _ refl (
              rung s _ Ops.incr _ refl (
                rung s _ Ops.decr _ refl (
                  rung s _ Ops.expire _ refl (
                    rung s _ Ops.ttl _ refl (
                      rung s _ Ops.hset _ refl (
                        rung s _ Ops.hget _ refl (
                          rung s _ Ops.hdel _ refl (
                            rung s _ Ops.hkeys _ refl (
                              rung s _ Ops.rpush _ refl (
                                rung s _ Ops.lpush _ refl (
                                  rung s _ Ops.rpop _ refl (
                                    rung s _ Ops.lpop _ refl (
                                      rung s _ Ops.llen _ refl (
                                        rung s _ Ops.lrange _ refl (
                                          rung s _ Ops.zadd _ refl (
                                            rung s _ Ops.zcard _ refl (
                                              rung s _ Ops.zincrby _ refl (
                                                rung s _ Ops.zrange _ refl (
                                                  rung s _ Ops.zrank _ refl (
                                                    rung s _ Ops.zrem _ refl (
                                                      rung s _ Ops.zscore _ refl (
                                                        rung s _ Ops.sadd _ refl (
                                                          rung s _ Ops.scard _ refl (
                                                            rung s _ Ops.smembers _ refl (
                                                            rung s _ Ops.srem _ refl (
                                                            rung s _ Ops.sismember _ refl (
                                                            inl refl))))))))))))))))))))))))))))))))

name_of_small : (op : Ops) → all_small (name_of op) ≡ true
unfolding all_small name_of
name_of_small Ops.ping = refl
name_of_small Ops.flushall = refl
name_of_small Ops.save = refl
name_of_small Ops.get = refl
name_of_small Ops.set = refl
name_of_small Ops.del = refl
name_of_small Ops.incr = refl
name_of_small Ops.decr = refl
name_of_small Ops.expire = refl
name_of_small Ops.ttl = refl
name_of_small Ops.hset = refl
name_of_small Ops.hget = refl
name_of_small Ops.hdel = refl
name_of_small Ops.hkeys = refl
name_of_small Ops.lpush = refl
name_of_small Ops.rpush = refl
name_of_small Ops.lpop = refl
name_of_small Ops.rpop = refl
name_of_small Ops.llen = refl
name_of_small Ops.lrange = refl
name_of_small Ops.zadd = refl
name_of_small Ops.zrem = refl
name_of_small Ops.zrange = refl
name_of_small Ops.zcard = refl
name_of_small Ops.zscore = refl
name_of_small Ops.zincrby = refl
name_of_small Ops.zrank = refl
name_of_small Ops.sadd = refl
name_of_small Ops.srem = refl
name_of_small Ops.sismember = refl
name_of_small Ops.scard = refl
name_of_small Ops.smembers = refl
name_of_small Ops.unknown = refl

-- A request gives an operation other than `unknown` exactly when its first word is the name of that
-- operation, each letter of which may be a small one or its capital.
pub string_to_ops-name_of :
    (s : Bytes) (op : Ops) → op ≢ Ops.unknown → (string_to_ops s ≡ op) ↔ Spells s (name_of op)
unfolding string_to_ops
string_to_ops-name_of s op ne =
    let spelled = to_lower-Spells s (name_of op) (name_of_small op) in
    (
      (λ e. elim (ops_of_lower_lem (to_lower s)) [
        | inl u ↦ elim (ne (sym e ∙ u)) [ ]
        | inr h ↦ spelled.0 (h ∙ ap name_of e)
      ]),
      (λ h. ap ops_of_lower (spelled.1 h) ∙ ops_of_lower-name_of op),
    )
