-- ===== src/Sst/Table.antt =====
-- SST and SSTBuilder (src/sst/sst.cpp, include/sst/sst.h).
use tiny_lsm_tree.Common.{
  ℕ, ◌-◌, ◌^◌, Option, none, some, Bool, List, [], Bytes, length, if◌then◌else◌,
}
use tiny_lsm_tree.Common.Result.{Result, throws}
use tiny_lsm_tree.Files.Object.{FileObj, new_object, set_size}
use tiny_lsm_tree.Files.Object
use tiny_lsm_tree.Block.Data.{Block, new_block}
use tiny_lsm_tree.Block.Meta.{BlockMeta, BlockCache}
use tiny_lsm_tree.Sst.Bloom.{BloomFilter, new_filter}

pub record Sst (Rate : Type 0) : Type 0 where
  pub file : FileObj
  pub meta_entries : List BlockMeta
  pub bloom_offset : ℕ
  pub meta_block_offset : ℕ
  pub sst_id : ℕ
  pub first_key : Bytes
  pub last_key : Bytes
  pub bloom_filter : Option (BloomFilter Rate)
  pub block_cache : Option BlockCache
  pub min_tranc_id : ℕ
  pub max_tranc_id : ℕ

module _ {Rate : Type 0} where
  -- `open`, a null pointer; named apart from a word of this language
  unfoldable pub open_sst : ℕ → FileObj → Option BlockCache → Option (Sst Rate)
  open_sst sst_id file block_cache = none

  -- `m_size` and `bloom_offset` are what a new object finds in memory.
  unfoldable pub create_sst_with_meta_only :
      ℕ → ℕ → ℕ → ℕ → Bytes → Bytes → Option BlockCache → Sst Rate
  unfolding set_size
  create_sst_with_meta_only m_size bloom_offset sst_id file_size first_key last_key block_cache =
      record {
        file = set_size (new_object m_size) file_size;
        meta_entries = [];
        bloom_offset = bloom_offset;
        meta_block_offset = 0;
        sst_id = sst_id;
        first_key = first_key;
        last_key = last_key;
        bloom_filter = none;
        block_cache = block_cache;
        min_tranc_id = 2 ^ 64 - 1;
        max_tranc_id = 0;
      }

  unfoldable pub read_block : Sst Rate → ℕ → Option Block
  read_block s block_idx = none

  unfoldable pub find_block_idx : Sst Rate → Bytes → ℕ
  find_block_idx s key = 0

  unfoldable pub num_blocks : Sst Rate → ℕ
  num_blocks s = length s.meta_entries

  abbrev pub get_first_key : Sst Rate → Bytes
  get_first_key s = s.first_key

  abbrev pub get_last_key : Sst Rate → Bytes
  get_last_key s = s.last_key

  -- `sst_size` asks the stream.
  unfoldable pub sst_size : Sst Rate → Sst Rate × ℕ
  unfolding Object.size
  sst_size s = let (file, n) = Object.size s.file in (record s { file = file }, n)

  abbrev pub get_sst_id : Sst Rate → ℕ
  get_sst_id s = s.sst_id

  unfoldable pub get_tranc_id_range : Sst Rate → ℕ × ℕ
  get_tranc_id_range s = (s.min_tranc_id, s.max_tranc_id)

  -- `get`, `begin` and `end` are to be written, and throw.
  unfoldable pub sst_get : {A : Type 0} → Sst Rate → Bytes → ℕ → Result A
  sst_get s key tranc_id = throws

  unfoldable pub sst_begin : {A : Type 0} → Sst Rate → ℕ → Result A
  sst_begin s tranc_id = throws

  unfoldable pub sst_end : {A : Type 0} → Sst Rate → Result A
  sst_end s = throws

pub record SstBuilder (Rate : Type 0) : Type 0 where
  pub block : Block
  pub first_key : Bytes
  pub last_key : Bytes
  pub meta_entries : List BlockMeta
  pub data_bytes : Bytes
  pub block_size : ℕ
  pub bloom_filter : Option (BloomFilter Rate)
  pub min_tranc_id : ℕ
  pub max_tranc_id : ℕ

module _ {Rate : Type 0} where
  -- The constructor: the filter, with the size and the rate of the configuration, where one is
  -- wanted; `found` is what a new filter and the block size find in memory.
  unfoldable pub new_builder : ℕ → Rate → ℕ × ℕ × ℕ → ℕ → Bool → SstBuilder Rate
  unfolding new_filter
  new_builder expected rate (bits, hashes, found_size) block_size has_bloom = record {
    block = new_block block_size;
    first_key = [];
    last_key = [];
    meta_entries = [];
    data_bytes = [];
    block_size = found_size;
    bloom_filter = if has_bloom then some (new_filter expected rate bits hashes) else none;
    min_tranc_id = 2 ^ 64 - 1;
    max_tranc_id = 0;
  }

  unfoldable pub builder_add : SstBuilder Rate → Bytes → Bytes → ℕ → SstBuilder Rate
  builder_add b key value tranc_id = b

  unfoldable pub estimated_size : SstBuilder Rate → ℕ
  estimated_size b = length b.data_bytes

  unfoldable pub finish_block : SstBuilder Rate → SstBuilder Rate
  finish_block b = b

  -- A null pointer.
  unfoldable pub build : SstBuilder Rate → ℕ → Bytes → Option BlockCache → Option (Sst Rate)
  build b sst_id path block_cache = none
