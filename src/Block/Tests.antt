-- ===== src/Block/Tests.antt =====
-- The theorems on blocks at concrete blocks.
use tiny_lsm_tree.Common.{◌≡◌, [], ◌∷◌, bytes, arith}
use tiny_lsm_tree.Common.Result.{ok}
use tiny_lsm_tree.Block.Data.{Block, BlockEntry, get_first_key}
use tiny_lsm_tree.Block.Layout.{block_of, get_first_key-block_of}

abbrev entry_a : BlockEntry
entry_a = record { key = bytes "apple"; value = bytes "red"; tranc_id = 7 }

abbrev entry_b : BlockEntry
entry_b = record { key = bytes "banana"; value = bytes ""; tranc_id = 300 }

get_first_key-block_of_example :
    (get_first_key (block_of 4096 []) ≡ ok [])
    × (get_first_key (block_of 4096 (entry_a ∷ entry_b ∷ [])) ≡ ok (bytes "apple"))
get_first_key-block_of_example = get_first_key-block_of 4096 entry_a (entry_b ∷ []) (omega arith)

abbrev two_offsets : Block
two_offsets = record { data_bytes = 0 ∷ 0 ∷ []; offsets = 0 ∷ 17 ∷ []; capacity = 64 }
