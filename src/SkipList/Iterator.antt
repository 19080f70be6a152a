-- ===== src/SkipList/Iterator.antt =====
-- SkipListIterator of include/skiplist/skiplist.h, and the ranges that src/skiplist/skipList.cpp
-- returns as pairs of iterators.
use tiny_lsm_tree.Common.{
  ℕ, zero, suc, Option, none, some, Bool, true, false, not, Bytes, take, length,
}
use tiny_lsm_tree.Common.{bytes_eq, is_empty, ◌==◌, List, [], ◌∷◌}
use tiny_lsm_tree.SkipList.Node.{SkipList, key_of, forward_of}
use tiny_lsm_tree.SkipList.Find.{lower_bound, Entry, entry_of}

-- Enum class IteratorType of include/iterator/iterator.h.
pub data IteratorType : Type 0 where
  skip_list mem_table sst heap two_merge concact level undefined : IteratorType

-- A node pointer into the list that it came from; `none` is the end.
pub record SkipListIterator : Type 0 where
  pub list : SkipList
  pub current : Option ℕ

-- `operator++`
unfoldable pub advance : SkipListIterator → SkipListIterator
advance it = record it {
  current = elim it.current [ none ↦ none | some a ↦ forward_of it.list a 0 ];
}

abbrev pub pointer_eq : Option ℕ → Option ℕ → Bool
pointer_eq none none = true
pointer_eq none (some b) = false
pointer_eq (some a) none = false
pointer_eq (some a) (some b) = a == b

-- `operator==` and `operator!=`, which both answer false to an iterator of another type
unfoldable pub iter_eq : SkipListIterator → IteratorType → Option ℕ → Bool
iter_eq it IteratorType.skip_list other = pointer_eq it.current other
iter_eq it other_type other = false

unfoldable pub iter_ne : SkipListIterator → IteratorType → Option ℕ → Bool
iter_ne it IteratorType.skip_list other = not (pointer_eq it.current other)
iter_ne it other_type other = false

-- `operator*`, `none` for the exception; `get_key`, `get_value` and `get_tranc_id` read the same
-- node, without the check
unfoldable pub read : SkipListIterator → Option Entry
read it = elim it.current [ none ↦ none | some a ↦ some (entry_of it.list a) ]

unfoldable pub is_valid : SkipListIterator → Bool
is_valid it = elim it.current [ none ↦ false | some a ↦ not (is_empty (key_of it.list a)) ]

unfoldable pub is_end : SkipListIterator → Bool
is_end it = elim it.current [ none ↦ true | some a ↦ false ]

-- `SkipList::begin` and `SkipList::end`
unfoldable pub begin : SkipList → Option ℕ
begin s = forward_of s s.head 0

-- `key_.compare(0, prefix.size(), prefix) == 0`
unfoldable pub has_prefix : Bytes → Bytes → Bool
has_prefix prefix key = bytes_eq (take (length prefix) key) prefix

-- `SkipList::begin_preffix`
unfoldable pub begin_preffix : SkipList → Bytes → Option ℕ
begin_preffix s prefix = lower_bound s prefix

-- The loop of `end_preffix` over level 0.
unfoldable pub skip_prefix : SkipList → Bytes → ℕ → Option ℕ → Option ℕ
unfolding has_prefix
skip_prefix s prefix zero p = p
skip_prefix s prefix (suc fuel) none = none
skip_prefix s prefix (suc fuel) (some a) = elim (has_prefix prefix (key_of s a)) [
  | true ↦ skip_prefix s prefix fuel (forward_of s a 0)
  | false ↦ some a
]

-- `SkipList::end_preffix`
unfoldable pub end_preffix : SkipList → Bytes → Option ℕ
unfolding skip_prefix
end_preffix s prefix = skip_prefix s prefix s.next (lower_bound s prefix)

-- `for (iter = first; iter != last; ++iter)`, the entries that such a loop reads. At the null
-- pointer the loop would read through it, which `collect` shows as the end.
unfoldable pub collect : SkipList → ℕ → Option ℕ → Option ℕ → List Entry
collect s zero p last = []
collect s (suc fuel) none last = []
collect s (suc fuel) (some a) last = elim (pointer_eq (some a) last) [
  | true ↦ []
  | false ↦ entry_of s a ∷ collect s fuel (forward_of s a 0) last
]

-- What a predicate on keys answers: 0, a positive or a negative number.
pub data Answer : Type 0 where
  holds go_right go_left : Answer

-- The while loop of one level of `iters_monotony_predicate`.
unfoldable pub seek : SkipList → (Bytes → Answer) → ℕ → ℕ → ℕ → ℕ
seek s predicate i zero cur = cur
seek s predicate i (suc fuel) cur = elim (forward_of s cur i) [
  | none ↦ cur
  | some b ↦ elim (predicate (key_of s b)) [ Answer.go_right ↦ seek s predicate i fuel b | _ ↦ cur ]
]

unfoldable pub seek_down : SkipList → (Bytes → Answer) → ℕ → ℕ → ℕ
unfolding seek
seek_down s predicate zero cur = cur
seek_down s predicate (suc i) cur = seek_down s predicate i (seek s predicate i s.next cur)

-- The last loop: the node before the first one, from `a` on, that the predicate does not hold of.
unfoldable pub last_match : SkipList → (Bytes → Answer) → ℕ → ℕ → ℕ
last_match s predicate zero a = a
last_match s predicate (suc fuel) a = elim (forward_of s a 0) [
  | none ↦ a
  | some b ↦ elim (predicate (key_of s b)) [ Answer.holds ↦ last_match s predicate fuel b | _ ↦ a ]
]

-- `SkipList::iters_monotony_predicate`: the first node and the one behind the last, or nullopt.
unfoldable pub iters_monotony_predicate : SkipList → (Bytes → Answer) → Option (ℕ × Option ℕ)
unfolding seek_down last_match
iters_monotony_predicate s predicate =
    let cur = seek_down s predicate s.current_level s.head in
    let first = seek s predicate 0 s.next cur in
    elim (forward_of s first 0) [
      | none ↦ none
      | some a ↦ elim (predicate (key_of s a)) [
        | Answer.holds ↦ some (a, forward_of s (last_match s predicate s.next a) 0)
        | _ ↦ none
      ]
    ]
