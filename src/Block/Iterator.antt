-- ===== src/Block/Iterator.antt =====
-- BlockIterator (src/block/block_iterator.cpp, include/block/block_iterator.h), and the methods of
-- Block that make one.
use tiny_lsm_tree.Common.{ℕ, Option, none, some, Bool, true, [], Bytes, length, ◌==◌}
use tiny_lsm_tree.Common.Result.{Result, ok, fault}
use tiny_lsm_tree.Heap.Merge.{Pair}
use tiny_lsm_tree.Block.Data.{Block}

pub record BlockIterator : Type 0 where
  pub block : Option Block
  pub current_index : ℕ
  pub tranc_id : ℕ
  pub cached_value : Option Pair

unfoldable pub skip_by_tranc_id : BlockIterator → BlockIterator
skip_by_tranc_id it = it

-- `BlockIterator(b, index, tranc_id)`
unfoldable pub at_index : Option Block → ℕ → ℕ → BlockIterator
unfolding skip_by_tranc_id
at_index b index tranc_id =
    skip_by_tranc_id
      (record { block = b; current_index = index; tranc_id = tranc_id; cached_value = none })

-- `operator->`, a null pointer
unfoldable pub arrow : BlockIterator → Option Pair
arrow it = none

unfoldable pub advance : BlockIterator → BlockIterator
advance it = it

unfoldable pub block_iter_eq : BlockIterator → BlockIterator → Bool
block_iter_eq it other = true

unfoldable pub block_iter_ne : BlockIterator → BlockIterator → Bool
block_iter_ne it other = true

-- `operator*`
unfoldable pub deref : BlockIterator → Pair
deref it = ([], [])

-- The null pointer is followed without a check.
unfoldable pub is_end : BlockIterator → Result Bool
is_end it = elim it.block [ none ↦ fault | some b ↦ ok (it.current_index == length b.offsets) ]

-- `Block::begin` and `Block::end`
unfoldable pub begin : Block → ℕ → BlockIterator
unfolding at_index
begin b tranc_id = at_index none 0 0

unfoldable pub end : Block → BlockIterator
unfolding at_index
end b = at_index none 0 0

-- `Block::iters_preffix`
unfoldable pub iters_preffix : Block → ℕ → Bytes → Option (BlockIterator × BlockIterator)
iters_preffix b tranc_id preffix = none

-- The constructor with a key leaves the index as it is found in memory.
unfoldable pub at_key : ℕ → Option Block → Bytes → ℕ → BlockIterator
at_key found b key tranc_id = record {
  block = b;
  current_index = found;
  tranc_id = tranc_id;
  cached_value = none;
}

unfoldable pub update_current : BlockIterator → BlockIterator
update_current it = it

-- `Block::get_monotony_predicate_iters`
unfoldable pub get_monotony_predicate_iters {ℓ} :
    {P : Type ℓ} → Block → ℕ → P → Option (BlockIterator × BlockIterator)
get_monotony_predicate_iters b tranc_id predicate = none
