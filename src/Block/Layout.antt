-- ===== src/Block/Layout.antt =====
-- Block (src/block/block.cpp) against the layout of an encoded block that include/block/block.h
-- draws.
use tiny_lsm_tree.Common.{ℕ, zero, suc, ◌+◌, ◌/◌, ◌%◌, ◌<◌, ◌≤◌, List, [], ◌∷◌, ◌++◌, Bytes}
use tiny_lsm_tree.Common.{
  ◌≡◌, refl, ap, ◌∙◌, arith, length, length-append, get_elem?, false, inl, inr,
}
use tiny_lsm_tree.Common.{ltb, is_empty, append_assoc, ◌⊎◌, Bool-cases, none, some}
use tiny_lsm_tree.Common.Result.{ok, throws, fault}
use tiny_lsm_tree.Files.Object.{little_endian}
use tiny_lsm_tree.Files.Slices.{take-append}
use tiny_lsm_tree.Block.Data.{Block, BlockEntry, read_key, get_first_key, get_offset_at, index}

-- A number in `width` bytes, the lowest first.
unfoldable pub bytes_of : ℕ → ℕ → Bytes
bytes_of zero n = []
bytes_of (suc width) n = n % 256 ∷ bytes_of width (n / 256)

-- |key_len (2B)|key|val_len (2B)|val|tranc_id (8B)|
unfoldable pub entry_bytes : BlockEntry → Bytes
unfolding bytes_of
entry_bytes e =
    bytes_of 2 (length e.key)
    ++ (e.key ++ (bytes_of 2 (length e.value) ++ (e.value ++ bytes_of 8 e.tranc_id)))

-- A block that holds the entries from `offset` on.
unfoldable pub laid_out : ℕ → List BlockEntry → Bytes × List ℕ
unfolding entry_bytes
laid_out offset [] = ([], [])
laid_out offset (e ∷ es) =
    let (rest, offsets) = laid_out (offset + length (entry_bytes e)) es in
    (entry_bytes e ++ rest, offset ∷ offsets)

unfoldable pub block_of : ℕ → List BlockEntry → Block
unfolding laid_out
block_of capacity es =
    let (all, offsets) = laid_out 0 es in
    record { data_bytes = all; offsets = offsets; capacity = capacity }

little_endian-bytes_of : (n : ℕ) → n < 65536 → little_endian (n % 256 ∷ (n / 256) % 256 ∷ []) ≡ n
unfolding little_endian
little_endian-bytes_of n h = omega arith

read_key-prefix :
    (key rest : Bytes)
    → length key < 65536
    → read_key (length key % 256 ∷ (length key / 256) % 256 ∷ (key ++ rest)) ≡ ok key
unfolding read_key
read_key-prefix key rest h =
    let fits : ltb (length (key ++ rest)) (length key) ≡ false =
      ground (arith, length-append key rest) in
    rw (little_endian-bytes_of (length key) h, fits, take-append key rest) refl

-- In a block laid out as drawn, with a first key that two bytes can measure, get_first_key reads
-- that key; in an empty block it gives the empty key.
pub get_first_key-block_of :
    (capacity : ℕ) (e : BlockEntry) (es : List BlockEntry)
    → length e.key < 65536
    → (get_first_key (block_of capacity []) ≡ ok [])
      × (get_first_key (block_of capacity (e ∷ es)) ≡ ok e.key)
unfolding get_first_key block_of laid_out entry_bytes bytes_of is_empty
get_first_key-block_of capacity e es h =
    let (rest, offsets) = laid_out (0 + length (entry_bytes e)) es in
    let behind = bytes_of 2 (length e.value) ++ (e.value ++ bytes_of 8 e.tranc_id) in
    (
      refl,
      ap (λ (bs : Bytes). read_key (length e.key % 256 ∷ (length e.key / 256) % 256 ∷ bs))
            (append_assoc e.key behind rest)
          ∙ read_key-prefix e.key (behind ++ rest) h,
    )

get_elem?-cases :
    (xs : List ℕ) (i : ℕ)
    → ((i < length xs) × ((x : ℕ) × (get_elem? xs i ≡ some x)))
      ⊎ ((length xs ≤ i) × (get_elem? xs i ≡ none))
get_elem?-cases [] i = inr (omega arith, refl)
get_elem?-cases (x ∷ xs) zero = inl (omega arith, (x, refl))
get_elem?-cases (x ∷ xs) (suc i) = elim (get_elem?-cases xs i) [
  | inl found ↦ inl (omega (arith, found.0), found.1)
  | inr past ↦ inr (omega (arith, past.0), past.1)
]

-- get_offset_at gives the offset below the size and throws above it; at the size itself, which its
-- test lets pass, it reads behind the end of the vector.
pub get_offset_at-Cases :
    (b : Block) (idx : ℕ)
    → ((idx < length b.offsets)
        × ((o : ℕ) × (get_elem? b.offsets idx ≡ some o) × (get_offset_at b idx ≡ ok o)))
      ⊎ (((idx ≡ length b.offsets) × (get_offset_at b idx ≡ fault))
          ⊎ ((length b.offsets < idx) × (get_offset_at b idx ≡ throws)))
unfolding get_offset_at
get_offset_at-Cases b idx = elim (get_elem?-cases b.offsets idx) [
  | inl (below, (o, e)) ↦
      let test : ltb (length b.offsets) idx ≡ false = ground arith in
      inl (below, (o, e, rw (test, index, e) refl))
  | inr (past, e) ↦ elim (Bool-cases (ltb (length b.offsets) idx)) [
    | inl above ↦ inr (inr (ground arith, rw above refl))
    | inr equal ↦ inr (inl (ground arith, rw (equal, index, e) refl))
  ]
]
