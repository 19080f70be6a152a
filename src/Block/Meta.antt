-- ===== src/Block/Meta.antt =====
-- BlockMeta and BlockCache (src/block/blockmeta.cpp, src/block/block_cache.cpp and their headers).
use tiny_lsm_tree.Common.{ℕ, Option, none, Bool, ◌&&◌, List, [], Bytes}
use tiny_lsm_tree.Common.Int.{ℤ, int_eq}
use tiny_lsm_tree.Block.Data.{Block}

pub record BlockMeta : Type 0 where
  pub offset : ℕ
  pub first_key : Bytes
  pub last_key : Bytes

abbrev pub empty_meta : BlockMeta
empty_meta = record { offset = 0; first_key = []; last_key = [] }

abbrev pub new_meta : ℕ → Bytes → Bytes → BlockMeta
new_meta offset first_key last_key = record {
  offset = offset;
  first_key = first_key;
  last_key = last_key;
}

-- The slice that the call fills is left as it was.
unfoldable pub encode_meta_to_slice : List BlockMeta → Bytes → Bytes
encode_meta_to_slice meta_entries metadata = metadata

unfoldable pub decode_meta_from_slice : Bytes → List BlockMeta
decode_meta_from_slice metadata = []

pub record CacheItem : Type 0 where
  pub sst_id : ℤ
  pub block_id : ℤ
  pub cache_block : Block
  pub access_count : ℕ

-- `cache_map_` only points into the two lists.
pub record BlockCache : Type 0 where
  pub capacity : ℕ
  pub k : ℕ
  pub cache_list_greater_k : List CacheItem
  pub cache_list_less_k : List CacheItem
  pub total_requests : ℕ
  pub hit_requests : ℕ

abbrev pub new_cache : ℕ → ℕ → BlockCache
new_cache capacity k = record {
  capacity = capacity;
  k = k;
  cache_list_greater_k = [];
  cache_list_less_k = [];
  total_requests = 0;
  hit_requests = 0;
}

-- `get` is to be written, and finds nothing.
unfoldable pub cache_get : BlockCache → ℤ → ℤ → Option Block
cache_get c sst_id block_id = none

unfoldable pub cache_put : BlockCache → ℤ → ℤ → Block → BlockCache
cache_put c sst_id block_id b = c

-- `pair_equal`
unfoldable pub pair_equal : ℤ × ℤ → ℤ × ℤ → Bool
unfolding int_eq
pair_equal lhs rhs = int_eq lhs.0 rhs.0 && int_eq lhs.1 rhs.1
