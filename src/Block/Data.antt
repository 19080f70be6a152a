-- ===== src/Block/Data.antt =====
-- Block (src/block/block.cpp, include/block/block.h). The methods that the course leaves to be
-- written return constants.
use Prim.Native.Nat.{Ordering}
use tiny_lsm_tree.Common.{ℕ, ◌+◌, ◌*◌, ◌%◌, ◌^◌, Option, none, some, Bool, true, false, ◌||◌}
use tiny_lsm_tree.Common.{List, [], ◌∷◌, Bytes, bytes, bytes_eq, bytes_lt, is_empty, length, take}
use tiny_lsm_tree.Common.{get_elem?, ltb, leb, if◌then◌else◌}
use tiny_lsm_tree.Common.Result.{Result, ok, throws, fault, ◌>>=◌}
use tiny_lsm_tree.Files.Object.{little_endian}

-- `data` holds the entries, `offsets` where each begins.
pub record Block : Type 0 where
  pub data_bytes : Bytes
  pub offsets : List ℕ
  pub capacity : ℕ

pub record BlockEntry : Type 0 where
  pub key : Bytes
  pub value : Bytes
  pub tranc_id : ℕ

-- `Block(size_t capacity)`
abbrev pub new_block : ℕ → Block
new_block capacity = record { data_bytes = []; offsets = []; capacity = capacity }

unfoldable pub encode : Block → Bytes
encode b = []

-- A null pointer.
unfoldable pub decode : Bytes → Bool → Option Block
decode encoded with_hash = none

abbrev no_offsets : List ℕ → Bool
no_offsets [] = true
no_offsets (o ∷ os) = false

-- The first two bytes are the length of the key, in the byte order of the machine.
unfoldable pub read_key : Bytes → Result Bytes
unfolding little_endian
read_key [] = fault
read_key (lo ∷ []) = fault
read_key (lo ∷ hi ∷ rest) =
    let key_len = little_endian (lo ∷ hi ∷ []) in
    if ltb (length rest) key_len then fault else ok (take key_len rest)

unfoldable pub get_first_key : Block → Result Bytes
unfolding read_key
get_first_key b =
    if is_empty b.data_bytes || no_offsets b.offsets then ok [] else read_key b.data_bytes

-- An index past the end of a vector.
abbrev pub index : List ℕ → ℕ → Result ℕ
index xs i = elim (get_elem? xs i) [ none ↦ fault | some x ↦ ok x ]

unfoldable pub get_offset_at : Block → ℕ → Result ℕ
get_offset_at b idx = if ltb (length b.offsets) idx then throws else index b.offsets idx

unfoldable pub add_entry : Block → Bytes → Bytes → ℕ → Bool → Block × Bool
add_entry b key value tranc_id force_write = (b, false)

unfoldable pub get_key_at : Block → ℕ → Bytes
get_key_at b offset = bytes ""

unfoldable pub get_value_at : Block → ℕ → Bytes
get_value_at b offset = bytes ""

unfoldable pub get_tranc_id_at : Block → ℕ → ℕ
get_tranc_id_at b offset = 0

-- `key.compare(target)`, of which only the sign is fixed.
abbrev pub compare_bytes : Bytes → Bytes → Ordering
compare_bytes a b =
    if bytes_lt a b then Ordering.lt else if bytes_eq a b then Ordering.eq else Ordering.gt

unfoldable pub compare_key_at : Block → ℕ → Bytes → Ordering
unfolding get_key_at
compare_key_at b offset target = compare_bytes (get_key_at b offset) target

unfoldable pub is_same_key : Block → ℕ → Bytes → Result Bool
unfolding get_key_at
is_same_key b idx target_key =
    if leb (length b.offsets) idx
    then ok false
    else (do offset ← index b.offsets idx; ok (bytes_eq (get_key_at b offset) target_key))

unfoldable pub get_idx_binary : Block → Bytes → ℕ → Option ℕ
get_idx_binary b key tranc_id = none

unfoldable pub get_value_binary : Block → Bytes → ℕ → Result (Option Bytes)
unfolding get_idx_binary get_value_at
get_value_binary b key tranc_id = elim (get_idx_binary b key tranc_id) [
  | none ↦ ok none
  | some idx ↦ (do offset ← index b.offsets idx; ok (some (get_value_at b offset)))
]

unfoldable pub get_entry_at : Block → ℕ → BlockEntry
unfolding get_key_at get_value_at get_tranc_id_at
get_entry_at b offset = record {
  key = get_key_at b offset;
  value = get_value_at b offset;
  tranc_id = get_tranc_id_at b offset;
}

unfoldable pub size : Block → ℕ
size b = length b.offsets

unfoldable pub cur_size : Block → ℕ
cur_size b = (length b.data_bytes + length b.offsets * 2 + 2) % 2 ^ 64

unfoldable pub is_empty_block : Block → Bool
is_empty_block b = no_offsets b.offsets
