-- ===== src/Sst/Laws.antt =====
-- Sizes and the order of tables (src/sst/sst.cpp, src/sst/sst_iterator.cpp).
use tiny_lsm_tree.Common.{ℕ, ◌-◌, ◌^◌, ◌<◌, Option, Bytes, ltb, ◌≡◌, refl, arith}
use tiny_lsm_tree.Common.Int.{int_lt}
use tiny_lsm_tree.Files.Object
use tiny_lsm_tree.Files.Stream
use tiny_lsm_tree.Block.Meta.{BlockCache}
use tiny_lsm_tree.Sst.Table.{Sst, create_sst_with_meta_only, sst_size}
use tiny_lsm_tree.Sst.Iterator.{minus_id}

-- A table made by create_sst_with_meta_only keeps the size that it was given in its file object, yet
-- sst_size reports 2^64 - 1, whatever that size was: it asks the stream, which no file is behind.
pub create_sst_with_meta_only-sst_size :
    (Rate : Type 0) (m_size bloom sst_id file_size : ℕ) (first_key last_key : Bytes)
    (cache : Option BlockCache)
    → let s : Sst Rate =
        create_sst_with_meta_only m_size bloom sst_id file_size first_key last_key cache in
      (s.file.m_size ≡ file_size) × ((sst_size s).1 ≡ 2 ^ 64 - 1)
unfolding create_sst_with_meta_only sst_size Object.size Object.set_size Stream.size
create_sst_with_meta_only-sst_size Rate m_size bloom sst_id file_size first_key last_key cache =
    (refl, refl)

-- Of two tables with identifiers below 2^31, the one with the greater identifier, which is the
-- newer, has the smaller index in the queue of merge_sst_iterator.
pub minus_id-newer_first :
    (a b : ℕ) → a < 2 ^ 31 → b < 2 ^ 31 → int_lt (minus_id a) (minus_id b) ≡ ltb b a
unfolding int_lt
minus_id-newer_first a b h k = ground arith
