-- ===== src/SkipList/Write.antt =====
-- `put`, `remove` and `clear` of src/skiplist/skipList.cpp.
use tiny_lsm_tree.Common.{
  ℕ, zero, suc, ◌+◌, ◌-◌, ◌%◌, ◌^◌, Option, none, some, true, false, ◌&&◌, ◌==◌,
}
use tiny_lsm_tree.Common.{Bytes, bytes, ltb, leb, length, if◌then◌else◌, bytes_eq}
use tiny_lsm_tree.SkipList.Node.{SkipList, new_node, key_of, forward_of}
use tiny_lsm_tree.SkipList.Node.{put_node, set_forward, set_backward, random_level}
use tiny_lsm_tree.SkipList.Find.{search_from_head}

-- Sums of `size_t`, whose differences wrap around.
abbrev pub size_mod : ℕ
size_mod = 2 ^ 64

abbrev pub node_size : Bytes → Bytes → ℕ
node_size k v = length k + length v + 8

-- `size_bytes += value.size() - current->value_.size(); current->value_ = value;`
unfoldable pub overwrite : SkipList → ℕ → Bytes → SkipList
overwrite s a v =
    let n = s.store a in
    record (put_node s a (record n { value = v })) {
      size_bytes = (s.size_bytes + (length v + size_mod - length n.value)) % size_mod;
    }

-- `for (int i = current_level; i < newlevel; i++) update[i] = head;`
unfoldable pub raise : SkipList → ℕ → (ℕ → Option ℕ) → ℕ → Option ℕ
raise s newlevel upd i = if leb s.current_level i && ltb i newlevel then some s.head else upd i

-- One round of the loop that links the new node at `a` into level `i`, behind `u`.
unfoldable pub link : SkipList → ℕ → ℕ → ℕ → SkipList
link s a i u = let s' = set_forward s a i (forward_of s u i) in set_forward s' u i (some a)

-- `for (int i = 0; i < n; i++)` over `link`; a null `update[i]` would be undefined
unfoldable pub splice : SkipList → ℕ → (ℕ → Option ℕ) → ℕ → SkipList
unfolding link
splice s a upd zero = s
splice s a upd (suc i) =
    let s' = splice s a upd i in elim (upd i) [ none ↦ s' | some u ↦ link s' a i u ]

-- One round of the loop that sets the backward pointers.
unfoldable pub link_back : SkipList → ℕ → ℕ → Option ℕ → SkipList
link_back s a i u =
    let s' = set_backward s a i u in
    elim (forward_of s' a i) [ none ↦ s' | some b ↦ set_backward s' b i (some a) ]

unfoldable pub splice_back : SkipList → ℕ → (ℕ → Option ℕ) → ℕ → SkipList
unfolding link_back
splice_back s a upd zero = s
splice_back s a upd (suc i) = link_back (splice_back s a upd i) a i (upd i)

-- Allocating the new node, its size added and the level raised where it is higher.
unfoldable pub allocate : SkipList → Bytes → Bytes → ℕ → ℕ → ℕ → SkipList
allocate s k v tranc_id newlevel drawn =
    record (put_node s s.next (new_node k v newlevel tranc_id)) {
      next = s.next + 1;
      current_level = if ltb s.current_level newlevel then newlevel else s.current_level;
      size_bytes = (s.size_bytes + node_size k v) % size_mod;
      drawn = drawn;
    }

-- The part of `put` after the search when the key is not there.
unfoldable pub insert_at : SkipList → Bytes → Bytes → ℕ → ℕ × ℕ → (ℕ → Option ℕ) → SkipList
unfolding raise splice splice_back allocate
insert_at s k v tranc_id (newlevel, drawn) upd =
    let upd' = raise s newlevel upd in
    let s' = allocate s k v tranc_id newlevel drawn in
    splice_back (splice s' s.next upd' newlevel) s.next upd' newlevel

unfoldable pub insert_new : SkipList → Bytes → Bytes → ℕ → (ℕ → Option ℕ) → SkipList
unfolding insert_at random_level
insert_new s k v tranc_id upd = insert_at s k v tranc_id (random_level s) upd

-- `SkipList::put`
unfoldable pub put : SkipList → Bytes → Bytes → ℕ → SkipList
unfolding search_from_head overwrite insert_new
put s k v tranc_id =
    let (cur, upd) = search_from_head s k in
    elim (forward_of s cur 0) [
      | none ↦ insert_new s k v tranc_id upd
      | some a ↦ if bytes_eq (key_of s a) k then overwrite s a v else insert_new s k v tranc_id upd
    ]

-- One round of the loop that unlinks `a`: on level `i`, from behind `u`.
unfoldable pub detach : SkipList → ℕ → ℕ → ℕ → SkipList
detach s a i u =
    let s' = set_forward s u i (forward_of s a i) in
    elim (forward_of s' a i) [ none ↦ s' | some c ↦ set_backward s' c i (some u) ]

-- The loop that unlinks `a` from level 0 up; it ends at the first level whose `update[i]` does
-- not point to `a`. `rounds` is the number of levels left.
unfoldable pub unlink : ℕ → SkipList → ℕ → ℕ → (ℕ → Option ℕ) → SkipList
unfolding detach
unlink zero s a i upd = s
unlink (suc rounds) s a i upd = elim (upd i) [
  | none ↦ s
  | some u ↦ elim (forward_of s u i) [
    | none ↦ s
    | some b ↦ elim (b == a) [ false ↦ s | true ↦ unlink rounds (detach s a i u) a (i + 1) upd ]
  ]
]

-- `while (current_level > 1 && head->forward_[current_level - 1] == nullptr) current_level--;`
unfoldable pub lower : ℕ → SkipList → SkipList
lower zero s = s
lower (suc rounds) s = elim (ltb 1 s.current_level) [
  | false ↦ s
  | true ↦ elim (forward_of s s.head (s.current_level - 1)) [
    | some a ↦ s
    | none ↦ lower rounds (record s { current_level = s.current_level - 1 })
  ]
]

-- `SkipList::remove`
unfoldable pub remove : SkipList → Bytes → SkipList
unfolding search_from_head unlink lower
remove s k =
    let (cur, upd) = search_from_head s k in
    elim (forward_of s cur 0) [
      | none ↦ s
      | some a ↦
          if bytes_eq (key_of s a) k
          then (let s1 = unlink s.current_level s a 0 upd in
              let n = s1.store a in
              lower s1.current_level (record s1 {
                size_bytes = (s1.size_bytes + size_mod - node_size n.key n.value) % size_mod;
              }))
          else s
    ]

-- `SkipList::clear`; the level is not reset.
unfoldable pub clear : SkipList → SkipList
clear s = record (put_node s s.next (new_node (bytes "") (bytes "") s.max_level 0)) {
  head = s.next;
  next = s.next + 1;
  size_bytes = 0;
}

-- `SkipList::get_size`
abbrev pub get_size : SkipList → ℕ
get_size s = s.size_bytes
