-- ===== src/Sst/Bloom.antt =====
-- BloomFilter (src/utils/bloom_filter.cpp, include/utils/bloom_filter.h). `hasher` is
-- `std::hash<std::string>`, and `Rate` stands for `double`.
use tiny_lsm_tree.Common.{ℕ, Bool, false, List, [], ◌++◌, map, Bytes, bytes}

pub record BloomFilter (Rate : Type 0) : Type 0 where
  pub expected_elements : ℕ
  pub false_positive_rate : Rate
  pub num_bits : ℕ
  pub num_hashes : ℕ
  pub bits : List Bool

module _ {Rate : Type 0} where
  -- `BloomFilter(expected_elements, false_positive_rate)`; the numbers of bits and hashes stay as
  -- they are found in memory.
  unfoldable pub new_filter : ℕ → Rate → ℕ → ℕ → BloomFilter Rate
  new_filter expected_elements rate num_bits num_hashes = record {
    expected_elements = expected_elements;
    false_positive_rate = rate;
    num_bits = num_bits;
    num_hashes = num_hashes;
    bits = [];
  }

  unfoldable pub add : BloomFilter Rate → Bytes → BloomFilter Rate
  add f key = f

  unfoldable pub possibly_contains : BloomFilter Rate → Bytes → Bool
  possibly_contains f key = false

  -- `bits_.assign(bits_.size(), false)`
  unfoldable pub clear : BloomFilter Rate → BloomFilter Rate
  clear f = record f { bits = map (λ b. false) f.bits }

  unfoldable pub hash1 : (Bytes → ℕ) → BloomFilter Rate → Bytes → ℕ
  hash1 hasher f key = hasher key

  unfoldable pub hash2 : (Bytes → ℕ) → BloomFilter Rate → Bytes → ℕ
  hash2 hasher f key = hasher (key ++ bytes "salt")

  unfoldable pub hash : BloomFilter Rate → Bytes → ℕ → ℕ
  hash f key idx = 0

  unfoldable pub encode : BloomFilter Rate → Bytes
  encode f = []

  -- `decode`, which gives a default filter back: its fields are as they are found in memory.
  unfoldable pub decode : BloomFilter Rate → Bytes → BloomFilter Rate
  decode found encoded = record found { bits = [] }
