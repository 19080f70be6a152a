-- ===== src/Lsm/TwoMerge.antt =====
-- TwoMergeIterator (src/lsm/two_merge_iterator.cpp, include/lsm/two_merge_iterator.h), over two
-- iterators that share an interface; `none` is a null pointer.
use tiny_lsm_tree.Common.{
  ℕ, Option, none, some, Bool, true, false, not, ◌&&◌, ◌||◌, [], bytes_eq, if◌then◌else◌,
}
use tiny_lsm_tree.Common.Result.{Result, ok, fault, ◌>>=◌}
use tiny_lsm_tree.SkipList.Iterator.{IteratorType}
use tiny_lsm_tree.Heap.Merge.{Pair}
use tiny_lsm_tree.Level.Base.{BaseIterator}

pub record TwoMergeIterator (I : Type 0) : Type 0 where
  pub it_a : Option I
  pub it_b : Option I
  pub choose_a : Bool
  pub current : Option Pair
  pub max_tranc_id : ℕ

abbrev pub empty_merge : {I : Type 0} → TwoMergeIterator I
empty_merge = record {
  it_a = none;
  it_b = none;
  choose_a = false;
  current = none;
  max_tranc_id = 0;
}

module _ {I : Type 0} (b : BaseIterator I) where
  unfoldable pub choose_it_a : TwoMergeIterator I → Bool
  choose_it_a t = false

  -- One step of the second iterator, if both stand at one key.
  unfoldable pub skip_it_b : TwoMergeIterator I → Result (TwoMergeIterator I)
  skip_it_b t = elim t.it_a [
    | none ↦ fault
    | some x ↦ if b.is_end x then ok t else elim t.it_b [
      | none ↦ fault
      | some y ↦
          if not (b.is_end y) && bytes_eq (b.deref x).0 (b.deref y).0
          then ok (record t { it_b = some (b.advance y) })
          else ok t
    ]
  ]

  unfoldable pub skip_by_tranc_id : TwoMergeIterator I → TwoMergeIterator I
  skip_by_tranc_id t = t

  -- The constructor.
  unfoldable pub new_merge : Option I → Option I → ℕ → Result (TwoMergeIterator I)
  unfolding skip_by_tranc_id skip_it_b choose_it_a
  new_merge x y max_tranc_id =
      skip_it_b (
        skip_by_tranc_id (record {
          it_a = x;
          it_b = y;
          choose_a = false;
          current = none;
          max_tranc_id = max_tranc_id;
        }))
      >>= λ t. ok (record t { choose_a = choose_it_a t })

  -- `operator==`, `operator!=` and `operator*` are to be written, as is `operator++`, whose body has
  -- no `return`.
  unfoldable pub two_merge_eq : TwoMergeIterator I → IteratorType → Bool
  two_merge_eq t other = false

  unfoldable pub two_merge_ne : TwoMergeIterator I → IteratorType → Bool
  two_merge_ne t other = false

  unfoldable pub deref : TwoMergeIterator I → Pair
  deref t = ([], [])

  unfoldable pub advance : TwoMergeIterator I → Result (TwoMergeIterator I)
  advance t = fault

  abbrev pub get_type : TwoMergeIterator I → IteratorType
  get_type t = IteratorType.two_merge

  abbrev pub get_tranc_id : TwoMergeIterator I → ℕ
  get_tranc_id t = t.max_tranc_id

  abbrev pub at_end : Option I → Bool
  at_end none = true
  at_end (some x) = b.is_end x

  unfoldable pub is_end : TwoMergeIterator I → Bool
  is_end t = at_end t.it_a && at_end t.it_b

  abbrev pub at_pair : Option I → Bool
  at_pair none = false
  at_pair (some x) = b.is_valid x

  unfoldable pub is_valid : TwoMergeIterator I → Bool
  is_valid t = at_pair t.it_a || at_pair t.it_b

  -- `operator->`, a null pointer
  unfoldable pub arrow : TwoMergeIterator I → Option Pair
  arrow t = none

  unfoldable pub update_current : TwoMergeIterator I → TwoMergeIterator I
  update_current t = t
