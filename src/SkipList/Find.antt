-- ===== src/SkipList/Find.antt =====
-- The search of src/skiplist/skipList.cpp, which `put`, `get`, `remove`, `begin_preffix` and
-- `end_preffix` share, and the read operations `get` and `flush`.
use tiny_lsm_tree.Common.{ℕ, zero, suc, Option, none, some, true, false, List, [], ◌∷◌, Bytes}
use tiny_lsm_tree.Common.{if◌then◌else◌, bytes_eq, bytes_lt}
use tiny_lsm_tree.SkipList.Node.{SkipList, update, key_of, forward_of}

-- `while (current->forward_[i] && current->forward_[i]->key_ < key)`; fuel: the nodes allocated
unfoldable pub walk : SkipList → ℕ → Bytes → ℕ → ℕ → ℕ
walk s i k zero cur = cur
walk s i k (suc fuel) cur = elim (forward_of s cur i) [
  | none ↦ cur
  | some b ↦ elim (bytes_lt (key_of s b) k) [ true ↦ walk s i k fuel b | false ↦ cur ]
]

-- `for (int i = n - 1; i >= 0; i--)`: where the search stands at the end, and `update`
unfoldable pub descend : SkipList → Bytes → ℕ → ℕ → (ℕ → Option ℕ) → ℕ × (ℕ → Option ℕ)
unfolding walk
descend s k zero cur upd = (cur, upd)
descend s k (suc i) cur upd =
    let c = walk s i k s.next cur in descend s k i c (update upd i (some c))

unfoldable pub search_from_head : SkipList → Bytes → ℕ × (ℕ → Option ℕ)
unfolding descend
search_from_head s k = descend s k s.current_level s.head (λ _. none)

-- `current->forward_[0]` after the search: the first node whose key is not below `k`
unfoldable pub lower_bound : SkipList → Bytes → Option ℕ
unfolding search_from_head
lower_bound s k = forward_of s (search_from_head s k).0 0

-- `SkipList::get`; the transaction is not looked at. `none` is the empty iterator.
unfoldable pub get : SkipList → Bytes → ℕ → Option ℕ
unfolding lower_bound
get s k tranc_id = elim (lower_bound s k) [
  | none ↦ none
  | some a ↦ if bytes_eq (key_of s a) k then some a else none
]

-- What `flush` reports of one node.
pub record Entry : Type 0 where
  pub key : Bytes
  pub value : Bytes
  pub tranc_id : ℕ

abbrev pub entry_of : SkipList → ℕ → Entry
entry_of s a = record {
  key = (s.store a).key;
  value = (s.store a).value;
  tranc_id = (s.store a).tranc_id;
}

-- `while (node) { data.emplace_back(...); node = node->forward_[0]; }`
unfoldable pub flush_loop : SkipList → ℕ → Option ℕ → List Entry
flush_loop s zero p = []
flush_loop s (suc fuel) none = []
flush_loop s (suc fuel) (some a) = entry_of s a ∷ flush_loop s fuel (forward_of s a 0)

unfoldable pub flush : SkipList → List Entry
unfolding flush_loop
flush s = flush_loop s s.next (forward_of s s.head 0)
