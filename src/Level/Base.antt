-- ===== src/Level/Base.antt =====
-- BaseIterator (include/iterator/iterator.h), the interface of every iterator that a Level_Iterator
-- merges: the operations that it calls, what a loop over the iterator reads, and how the two agree.
use tiny_lsm_tree.Common.{ℕ, Bool, true, false, List, [], ◌∷◌, ◌≡◌}
use tiny_lsm_tree.Heap.Merge.{Pair}

-- `deref` is `operator*` and `advance` is `operator++`; both are called at valid iterators only.
pub record BaseIterator (I : Type 0) : Type 0 where
  pub is_valid : I → Bool
  pub is_end : I → Bool
  pub deref : I → Pair
  pub advance : I → I
  pub get_tranc_id : I → ℕ
  pub reads : I → List Pair

-- An iterator stands behind its last pair, or at the first of the pairs that are left.
pub data Stands {I : Type 0} (b : BaseIterator I) (it : I) : Type 0 where
  ended : b.reads it ≡ [] → b.is_valid it ≡ false → Stands b it
  at :
      (p : Pair) (ps : List Pair)
      → b.reads it ≡ p ∷ ps
      → b.is_valid it ≡ true
      → b.deref it ≡ p
      → b.reads (b.advance it) ≡ ps
      → Stands b it

abbrev pub IsIterator : {I : Type 0} → BaseIterator I → Type 0
IsIterator {I = I} b = (it : I) → Stands b it
