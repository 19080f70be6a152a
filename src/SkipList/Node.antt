-- ===== src/SkipList/Node.antt =====
-- SkipListNode and the fields of SkipList (include/skiplist/skiplist.h), the constructor of the
-- list and `random_level` (src/skiplist/skipList.cpp).
use tiny_lsm_tree.Common.{ℕ, zero, suc, ◌+◌, ◌-◌, Bool, ◌&&◌, not, Option, none, Bytes}
use tiny_lsm_tree.Common.{◌==◌, ltb, if◌then◌else◌, bytes_eq, bytes_lt, bytes}

-- `forward` and `backward` are the two vectors, which have `level` places.
pub record SkipListNode : Type 0 where
  pub key : Bytes
  pub value : Bytes
  pub tranc_id : ℕ
  pub level : ℕ
  pub forward : ℕ → Option ℕ
  pub backward : ℕ → Option ℕ

abbrev pub new_node : Bytes → Bytes → ℕ → ℕ → SkipListNode
new_node k v level tranc_id = record {
  key = k;
  value = v;
  tranc_id = tranc_id;
  level = level;
  forward = λ _. none;
  backward = λ _. none;
}

-- The comparisons of nodes: by key, and for one key the larger transaction first.
unfoldable pub node_eq : SkipListNode → SkipListNode → Bool
node_eq a b = bytes_eq a.key b.key && (bytes_eq a.value b.value && a.tranc_id == b.tranc_id)

unfoldable pub node_ne : SkipListNode → SkipListNode → Bool
unfolding node_eq
node_ne a b = not (node_eq a b)

unfoldable pub node_lt : SkipListNode → SkipListNode → Bool
node_lt a b = if bytes_eq a.key b.key then ltb b.tranc_id a.tranc_id else bytes_lt a.key b.key

unfoldable pub node_gt : SkipListNode → SkipListNode → Bool
node_gt a b = if bytes_eq a.key b.key then ltb a.tranc_id b.tranc_id else bytes_lt b.key a.key

pub record SkipList : Type 0 where
  pub store : ℕ → SkipListNode
  pub next : ℕ
  pub head : ℕ
  pub max_level : ℕ
  pub current_level : ℕ
  pub size_bytes : ℕ
  pub coin : ℕ → ℕ
  pub drawn : ℕ

-- Writing one place of a function, as of a vector or of the store.
abbrev pub update {ℓ} : {A : Type ℓ} → (ℕ → A) → ℕ → A → ℕ → A
update f i a j = if j == i then a else f j

abbrev pub key_of : SkipList → ℕ → Bytes
key_of s a = (s.store a).key

-- `a->forward_[i]`
abbrev pub forward_of : SkipList → ℕ → ℕ → Option ℕ
forward_of s a i = (s.store a).forward i

abbrev pub put_node : SkipList → ℕ → SkipListNode → SkipList
put_node s a n = record s { store = update s.store a n }

-- `a->forward_[i] = p`
abbrev pub set_forward : SkipList → ℕ → ℕ → Option ℕ → SkipList
set_forward s a i p = put_node s a (record (s.store a) { forward = update (s.store a).forward i p })

-- `a->backward_[i] = p`, which is `set_backward`
abbrev pub set_backward : SkipList → ℕ → ℕ → Option ℕ → SkipList
set_backward s a i p =
    put_node s a (record (s.store a) { backward = update (s.store a).backward i p })

-- `SkipList(max_lvl)`, its generator in the state (coin, drawn)
abbrev pub new_list : ℕ → (ℕ → ℕ) → ℕ → SkipList
new_list max_lvl coin drawn = record {
  store = λ _. new_node (bytes "") (bytes "") max_lvl 0;
  next = 1;
  head = 0;
  max_level = max_lvl;
  current_level = 1;
  size_bytes = 0;
  coin = coin;
  drawn = drawn;
}

-- The loop of `random_level`; `room` is `max_level - level`. The test draws before it looks at
-- the level, also in the round that ends the loop. The result is the level and the draws made.
unfoldable pub random_level_loop : (ℕ → ℕ) → ℕ → ℕ → ℕ → ℕ × ℕ
random_level_loop coin zero level drawn = (level, drawn + 1)
random_level_loop coin (suc room) level drawn =
    let more = random_level_loop coin room (level + 1) (drawn + 1) in
    if coin drawn == 0 then more else (level, drawn + 1)

unfoldable pub random_level : SkipList → ℕ × ℕ
unfolding random_level_loop
random_level s = random_level_loop s.coin (s.max_level - 1) 1 s.drawn
