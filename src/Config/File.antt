-- ===== src/Config/File.antt =====
-- How TomlConfig reads and writes its file (src/config/config.cpp). The TOML library is a parameter:
-- a text parses to what is found at each path, or `parse` throws. An assignment to
-- `config["a"]["b"]` is a pair of the path and the value, and `format` makes a text of them.
use tiny_lsm_tree.Common.{ℕ, ◌-◌, ◌%◌, ◌^◌, Option, none, some, Bool, true, false, List, [], ◌∷◌}
use tiny_lsm_tree.Common.{Bytes, bytes, is_empty, ltb, if◌then◌else◌}
use tiny_lsm_tree.Common.Int.{ℤ, pos, negsuc}
use tiny_lsm_tree.Config.Values.{TomlConfig, set_default_values}

pub data Scalar (Real : Type 0) : Type 0 where
  integer : ℤ → Scalar Real
  text : Bytes → Scalar Real
  floating : Real → Scalar Real

abbrev pub Route : Type 0
Route = List Bytes

abbrev pub lsm_core : Bytes → Route
lsm_core key = bytes "lsm" ∷ bytes "core" ∷ key ∷ []

abbrev pub lsm_cache : Bytes → Route
lsm_cache key = bytes "lsm" ∷ bytes "cache" ∷ key ∷ []

abbrev redis : Bytes → Route
redis key = bytes "redis" ∷ key ∷ []

abbrev bloom : Bytes → Route
bloom key = bytes "bloom_filter" ∷ key ∷ []

-- The narrowing of a 64-bit integer to `int`.
unfoldable pub to_int : ℤ → ℤ
to_int (pos n) =
    let low = n % 2 ^ 32 in if ltb low (2 ^ 31) then pos low else negsuc (2 ^ 32 - 1 - low)
to_int (negsuc n) =
    let low = n % 2 ^ 32 in if ltb low (2 ^ 31) then negsuc low else pos (2 ^ 32 - 1 - low)

-- `s[0]`, which is the terminator of an empty string.
abbrev first_char : Bytes → ℕ
first_char [] = 0
first_char (c ∷ cs) = c

-- What is found at each path.
abbrev pub Reader : Type 0 → Type 0
Reader Real = Route → Option (Scalar Real)

-- One assignment of loadFromFile; `none` is an exception before it.
abbrev pub Step : Type 0 → Type 0
Step Real = TomlConfig Real → Option (TomlConfig Real)

module _ {Real : Type 0} where
  -- `as_integer`, `as_string` and `as_floating`; `none` where they, or `at`, throw.
  unfoldable pub as_integer : Option (Scalar Real) → Option ℤ
  as_integer (some (integer z)) = some z
  as_integer other = none

  unfoldable pub as_string : Option (Scalar Real) → Option Bytes
  as_string (some (text s)) = some s
  as_string other = none

  unfoldable pub as_floating : Option (Scalar Real) → Option Real
  as_floating (some (floating d)) = some d
  as_floating other = none

  unfoldable pub set_from :
      {A : Type 0} → Option A → (TomlConfig Real → A → TomlConfig Real) → Step Real
  set_from none put c = none
  set_from (some a) put c = some (put c a)

  -- The assignments, in their order.
  unfoldable pub load_steps : Reader Real → List (Step Real)
  unfolding set_from as_integer as_string as_floating to_int
  load_steps r =
      set_from (as_integer (r (lsm_core (bytes "LSM_TOL_MEM_SIZE_LIMIT"))))
        (λ c x. record c { lsm_tol_mem_size_limit = x })
      ∷ set_from (as_integer (r (lsm_core (bytes "LSM_PER_MEM_SIZE_LIMIT"))))
          (λ c x. record c { lsm_per_mem_size_limit = x })
      ∷ set_from (as_integer (r (lsm_core (bytes "LSM_BLOCK_SIZE"))))
          (λ c x. record c { lsm_block_size = to_int x })
      ∷ set_from (as_integer (r (lsm_core (bytes "LSM_SST_LEVEL_RATIO"))))
          (λ c x. record c { lsm_sst_level_ratio = to_int x })
      ∷ set_from (as_integer (r (lsm_cache (bytes "LSM_BLOCK_CACHE_CAPACITY"))))
          (λ c x. record c { lsm_block_cache_capacity = to_int x })
      ∷ set_from (as_integer (r (lsm_cache (bytes "LSM_BLOCK_CACHE_K"))))
          (λ c x. record c { lsm_block_cache_k = to_int x })
      ∷ set_from (as_string (r (redis (bytes "REDIS_EXPIRE_HEADER"))))
          (λ c x. record c { redis_expire_header = x })
      ∷ set_from (as_string (r (redis (bytes "REDIS_HASH_VALUE_PREFFIX"))))
          (λ c x. record c { redis_hash_value_preffix = x })
      ∷ set_from (as_string (r (redis (bytes "REDIS_FIELD_PREFIX"))))
          (λ c x. record c { redis_field_prefix = x })
      ∷ set_from (as_string (r (redis (bytes "REDIS_FIELD_SEPARATOR"))))
          (λ c x. record c { redis_field_separator = first_char x })
      ∷ set_from (as_string (r (redis (bytes "REDIS_LIST_SEPARATOR"))))
          (λ c x. record c { redis_list_separator = first_char x })
      ∷ set_from (as_string (r (redis (bytes "REDIS_SORTED_SET_PREFIX"))))
          (λ c x. record c { redis_sorted_set_prefix = x })
      ∷ set_from (as_integer (r (redis (bytes "REDIS_SORTED_SET_SCORE_LEN"))))
          (λ c x. record c { redis_sorted_set_score_len = to_int x })
      ∷ set_from (as_string (r (redis (bytes "REDIS_SET_PREFIX"))))
          (λ c x. record c { redis_set_prefix = x })
      ∷ set_from (as_integer (r (bloom (bytes "BLOOM_FILTER_EXPECTED_SIZE"))))
          (λ c x. record c { bloom_filter_expected_size = to_int x })
      ∷ set_from (as_floating (r (bloom (bytes "BLOOM_FILTER_EXPECTED_ERROR_RATE"))))
          (λ c x. record c { bloom_filter_expected_error_rate = x })
      ∷ []

  -- The first exception ends the assignments; the answer is whether there was none.
  unfoldable pub run_steps : List (Step Real) → TomlConfig Real → TomlConfig Real × Bool
  run_steps [] c = (c, true)
  run_steps (f ∷ fs) c = elim (f c) [ none ↦ (c, false) | some d ↦ run_steps fs d ]

  -- `loadFromFile`, on what the file parses to.
  unfoldable pub load_from_file :
      Real → Option (Reader Real) → TomlConfig Real → TomlConfig Real × Bool
  unfolding set_default_values run_steps load_steps
  load_from_file tenth parsed c = elim parsed [
    | none ↦ (set_default_values tenth c, false)
    | some r ↦ run_steps (load_steps r) (set_default_values tenth c)
  ]

  -- The constructor; `found` is what the object finds in memory.
  unfoldable pub new_config :
      Real → (Bytes → Option (Reader Real)) → TomlConfig Real → Bytes → TomlConfig Real
  unfolding set_default_values load_from_file
  new_config tenth parse found path =
      let c = record found { config_file_path = path } in
      if is_empty path then set_default_values tenth c else (load_from_file tenth (parse path) c).0

  -- `getInstance`, the first time it is called.
  unfoldable pub get_instance :
      Real
      → (Bytes → Bool)
      → (Bytes → Option (Reader Real))
      → TomlConfig Real
      → Bytes
      → TomlConfig Real
  unfolding new_config
  get_instance tenth readable parse found path =
      new_config tenth parse found (if readable path then path else bytes "config.toml")

  -- The table that saveToFile fills.
  unfoldable pub saved_table : TomlConfig Real → List (Route × Scalar Real)
  saved_table c =
      (lsm_core (bytes "LSM_TOL_MEM_SIZE_LIMIT"), integer c.lsm_tol_mem_size_limit)
      ∷ (lsm_core (bytes "LSM_PER_MEM_SIZE_LIMIT"), integer c.lsm_per_mem_size_limit)
      ∷ (lsm_core (bytes "LSM_BLOCK_SIZE"), integer c.lsm_block_size)
      ∷ (lsm_core (bytes "LSM_SST_LEVEL_RATIO"), integer c.lsm_sst_level_ratio)
      ∷ (lsm_cache (bytes "LSM_BLOCK_CACHE_CAPACITY"), integer c.lsm_block_cache_capacity)
      ∷ (lsm_cache (bytes "LSM_BLOCK_CACHE_K"), integer c.lsm_block_cache_k)
      ∷ (redis (bytes "REDIS_EXPIRE_HEADER"), text c.redis_expire_header)
      ∷ (redis (bytes "REDIS_HASH_VALUE_PREFFIX"), text c.redis_hash_value_preffix)
      ∷ (redis (bytes "REDIS_FIELD_PREFIX"), text c.redis_field_prefix)
      ∷ (redis (bytes "REDIS_FIELD_SEPARATOR"), text (c.redis_field_separator ∷ []))
      ∷ (redis (bytes "REDIS_LIST_SEPARATOR"), text (c.redis_list_separator ∷ []))
      ∷ (redis (bytes "REDIS_SORTED_SET_PREFIX"), text c.redis_sorted_set_prefix)
      ∷ (redis (bytes "REDIS_SORTED_SET_SCORE_LEN"), integer c.redis_sorted_set_score_len)
      ∷ (redis (bytes "REDIS_SET_PREFIX"), text c.redis_set_prefix)
      ∷ (bloom (bytes "BLOOM_FILTER_EXPECTED_SIZE"), integer c.bloom_filter_expected_size)
      ∷ (
        bloom (bytes "BLOOM_FILTER_EXPECTED_ERROR_RATE"),
        floating c.bloom_filter_expected_error_rate,
      )
      ∷ []

  -- `saveToFile`: the table whose text is written, where the file opens, and the answer.
  unfoldable pub save_to_file : Bool → TomlConfig Real → Option (List (Route × Scalar Real)) × Bool
  unfolding saved_table
  save_to_file opens c = if opens then (some (saved_table c), true) else (none, false)

  -- The destructor, which saves to a path where no file is readable.
  unfoldable pub destroy :
      (Bytes → Bool) → Bool → TomlConfig Real → Option (List (Route × Scalar Real))
  unfolding save_to_file
  destroy readable opens c =
      if is_empty c.config_file_path
      then none
      else if readable c.config_file_path
      then none
      else (save_to_file opens c).0
