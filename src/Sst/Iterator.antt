-- ===== src/Sst/Iterator.antt =====
-- SstIterator (src/sst/sst_iterator.cpp, include/sst/sst_iterator.h).
use tiny_lsm_tree.Common.{
  ℕ, zero, suc, ◌-◌, ◌%◌, ◌^◌, Option, none, some, Bool, true, false, not, ◌&&◌,
}
use tiny_lsm_tree.Common.{List, [], ◌∷◌, Bytes, ltb, if◌then◌else◌}
use tiny_lsm_tree.Common.Int.{ℤ, pos, negsuc}
use tiny_lsm_tree.Common.Result.{Result, ok, throws, fault, ◌>>=◌}
use tiny_lsm_tree.SkipList.Iterator.{IteratorType}
use tiny_lsm_tree.Heap.Item.{SearchItem}
use tiny_lsm_tree.Heap.Merge.{Pair, HeapIterator, push}
use tiny_lsm_tree.Block.Iterator.{BlockIterator}
use tiny_lsm_tree.Block.Iterator
use tiny_lsm_tree.Sst.Table.{Sst, num_blocks}

-- `-iter.m_sst->get_sst_id()`, a `size_t` that wraps, as the `int` that it is narrowed to
abbrev pub minus_id : ℕ → ℤ
minus_id id =
    let low = (2 ^ 32 - id % 2 ^ 32) % 2 ^ 32 in
    if ltb low (2 ^ 31) then pos low else negsuc (2 ^ 32 - 1 - low)

abbrev queue_of : List SearchItem → HeapIterator
queue_of q = record { items = q; max_tranc_id = 0; current = none }

pub record SstIterator (Rate : Type 0) : Type 0 where
  pub m_sst : Option (Sst Rate)
  pub m_block_idx : ℕ
  pub max_tranc_id : ℕ
  pub m_block_it : Option BlockIterator
  pub cached_value : Option Pair

module _ {Rate : Type 0} where
  abbrev fresh_iterator : Option (Sst Rate) → ℕ → SstIterator Rate
  fresh_iterator s tranc_id = record {
    m_sst = s;
    m_block_idx = 0;
    max_tranc_id = tranc_id;
    m_block_it = none;
    cached_value = none;
  }

  unfoldable pub seek_first : SstIterator Rate → SstIterator Rate
  seek_first it = it

  unfoldable pub seek : SstIterator Rate → Bytes → SstIterator Rate
  seek it key = it

  -- The two constructors.
  unfoldable pub at_first : Option (Sst Rate) → ℕ → SstIterator Rate
  unfolding seek_first
  at_first s tranc_id = elim s [
    | none ↦ fresh_iterator none tranc_id
    | some t ↦ seek_first (fresh_iterator (some t) tranc_id)
  ]

  unfoldable pub at_key : Option (Sst Rate) → Bytes → ℕ → SstIterator Rate
  unfolding seek
  at_key s key tranc_id = elim s [
    | none ↦ fresh_iterator none tranc_id
    | some t ↦ seek (fresh_iterator (some t) tranc_id) key
  ]

  unfoldable pub set_block_idx : SstIterator Rate → ℕ → SstIterator Rate
  set_block_idx it idx = record it { m_block_idx = idx }

  unfoldable pub set_block_it : SstIterator Rate → Option BlockIterator → SstIterator Rate
  set_block_it it b = record it { m_block_it = b }

  -- `(*m_block_it)->`, which follows the pointer that the block's iterator gives
  abbrev pub pointee : SstIterator Rate → Result Pair
  pointee it = elim it.m_block_it [
    | none ↦ throws
    | some b ↦ elim (Iterator.arrow b) [ none ↦ fault | some p ↦ ok p ]
  ]

  unfoldable pub key : SstIterator Rate → Result Bytes
  unfolding Iterator.arrow
  key it = do p ← pointee it; ok p.0

  unfoldable pub value : SstIterator Rate → Result Bytes
  unfolding Iterator.arrow
  value it = do p ← pointee it; ok p.1

  unfoldable pub advance : SstIterator Rate → SstIterator Rate
  advance it = it

  -- `operator==` and `operator!=` are to be written; both answer false.
  unfoldable pub sst_iter_eq : SstIterator Rate → IteratorType → Bool
  sst_iter_eq it other = false

  unfoldable pub sst_iter_ne : SstIterator Rate → IteratorType → Bool
  sst_iter_ne it other = false

  -- `operator*`
  unfoldable pub deref : SstIterator Rate → Pair
  deref it = ([], [])

  abbrev pub get_type : SstIterator Rate → IteratorType
  get_type it = IteratorType.sst

  abbrev pub get_tranc_id : SstIterator Rate → ℕ
  get_tranc_id it = it.max_tranc_id

  unfoldable pub is_end : SstIterator Rate → Bool
  is_end it = elim it.m_block_it [ none ↦ true | some b ↦ false ]

  unfoldable pub is_valid : SstIterator Rate → Result Bool
  unfolding Iterator.is_end num_blocks
  is_valid it = elim it.m_block_it [
    | none ↦ ok false
    | some b ↦
        (Iterator.is_end b >>= λ over. elim over [
          | true ↦ ok false
          | false ↦ elim it.m_sst [ none ↦ fault | some s ↦ ok (ltb it.m_block_idx (num_blocks s)) ]
        ])
  ]

  -- The cache is filled once.
  unfoldable pub update_current : SstIterator Rate → Result (SstIterator Rate)
  unfolding Iterator.is_end Iterator.deref
  update_current it = elim it.cached_value [
    | some p ↦ ok it
    | none ↦ elim it.m_block_it [
      | none ↦ ok it
      | some b ↦
          (Iterator.is_end b >>= λ over. elim over [
            | true ↦ ok it
            | false ↦ ok (record it { cached_value = some (Iterator.deref b) })
          ])
    ]
  ]

  -- `while (iter.is_valid() && !iter.is_end())` of merge_sst_iterator, which `key` leaves in the
  -- first round as long as the block's `operator->` is to be written: any fuel will do.
  unfoldable pub push_valid : ℕ → ℕ → SstIterator Rate → List SearchItem → Result (List SearchItem)
  unfolding is_valid is_end key value advance push
  push_valid zero tranc_id it q = ok q
  push_valid (suc fuel) tranc_id it q = is_valid it >>= λ valid. elim (valid && not (is_end it)) [
    | false ↦ ok q
    | true ↦ key it >>= λ k. value it >>= λ v. elim it.m_sst [
      | none ↦ fault
      | some s ↦ push_valid fuel tranc_id (advance it) (
          push
            (record {
              key = k;
              value = v;
              tranc_id = tranc_id;
              idx = minus_id s.sst_id;
              level = pos 0;
            })
            q)
    ]
  ]

  unfoldable pub push_iterators :
      ℕ → List (SstIterator Rate) → List SearchItem → Result (List SearchItem)
  unfolding push_valid
  push_iterators tranc_id [] q = ok q
  push_iterators tranc_id (it ∷ its) q =
      push_valid 1 tranc_id it q >>= λ r. push_iterators tranc_id its r

  -- `merge_sst_iterator`
  unfoldable pub merge_sst_iterator :
      List (SstIterator Rate) → ℕ → Result (HeapIterator × HeapIterator)
  unfolding push_iterators
  merge_sst_iterator iter_vec tranc_id =
      push_iterators tranc_id iter_vec [] >>= λ q. ok (queue_of q, queue_of [])

-- `operator->`, which follows the cache whether it is filled or not
unfoldable pub arrow : {Rate : Type 0} → SstIterator Rate → Result (SstIterator Rate × Pair)
unfolding update_current
arrow it = update_current it >>= λ filled. elim filled.cached_value [
  | none ↦ fault
  | some p ↦ ok (filled, p)
]

-- `sst_iters_monotony_predicate`
unfoldable pub sst_iters_monotony_predicate {ℓ} :
    {Rate : Type 0} {P : Type ℓ}
    → Option (Sst Rate)
    → ℕ
    → P
    → Option (SstIterator Rate × SstIterator Rate)
sst_iters_monotony_predicate s tranc_id predicate = none
