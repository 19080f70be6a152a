-- ===== src/Sst/Concact.antt =====
-- ConcactIterator (src/sst/concact_iterator.cpp, include/sst/concact_iterator.h).
use tiny_lsm_tree.Common.{
  Option, ℕ, none, Bool, true, false, not, List, [], ◌∷◌, Bytes, if◌then◌else◌,
}
use tiny_lsm_tree.Common.Result.{Result, ok, ◌>>=◌}
use tiny_lsm_tree.SkipList.Iterator.{IteratorType}
use tiny_lsm_tree.Heap.Merge.{Pair}
use tiny_lsm_tree.Sst.Table.{Sst, sst_begin}
use tiny_lsm_tree.Sst.Iterator.{SstIterator, at_first}
use tiny_lsm_tree.Sst.Iterator

pub record ConcactIterator (Rate : Type 0) : Type 0 where
  pub cur_iter : SstIterator Rate
  pub cur_idx : ℕ
  pub ssts : List (Sst Rate)
  pub max_tranc_id : ℕ

module _ {Rate : Type 0} where
  -- The constructor: `ssts[0]->begin` throws.
  unfoldable pub new_concact : List (Sst Rate) → ℕ → Result (ConcactIterator Rate)
  unfolding at_first sst_begin
  new_concact [] tranc_id = ok (record {
    cur_iter = at_first none tranc_id;
    cur_idx = 0;
    ssts = [];
    max_tranc_id = tranc_id;
  })
  new_concact (s ∷ ss) tranc_id = do
    first ← sst_begin s tranc_id
    ok (record { cur_iter = first; cur_idx = 0; ssts = s ∷ ss; max_tranc_id = tranc_id })

  unfoldable pub advance : ConcactIterator Rate → ConcactIterator Rate
  advance it = it

  -- `operator==` and `operator!=` are to be written; both answer false.
  unfoldable pub concact_eq : ConcactIterator Rate → IteratorType → Bool
  concact_eq it other = false

  unfoldable pub concact_ne : ConcactIterator Rate → IteratorType → Bool
  concact_ne it other = false

  unfoldable pub deref : ConcactIterator Rate → Pair
  deref it = ([], [])

  abbrev pub get_type : ConcactIterator Rate → IteratorType
  get_type it = IteratorType.concact

  abbrev pub get_tranc_id : ConcactIterator Rate → ℕ
  get_tranc_id it = it.max_tranc_id

  unfoldable pub is_end : ConcactIterator Rate → Result Bool
  unfolding Iterator.is_end Iterator.is_valid
  is_end it =
      if Iterator.is_end it.cur_iter
      then ok true
      else (do valid ← Iterator.is_valid it.cur_iter; ok (not valid))

  unfoldable pub is_valid : ConcactIterator Rate → Result Bool
  unfolding Iterator.is_end Iterator.is_valid
  is_valid it = if Iterator.is_end it.cur_iter then ok false else Iterator.is_valid it.cur_iter

  unfoldable pub key : ConcactIterator Rate → Result Bytes
  unfolding Iterator.key
  key it = Iterator.key it.cur_iter

  unfoldable pub value : ConcactIterator Rate → Result Bytes
  unfolding Iterator.value
  value it = Iterator.value it.cur_iter

  -- `operator->`, a null pointer
  unfoldable pub arrow : ConcactIterator Rate → Option Pair
  arrow it = none
