-- ===== src/Config/Laws.antt =====
-- The file of TomlConfig (src/config/config.cpp): what is saved is read back, and what a load that
-- fails leaves.
use tiny_lsm_tree.Common.{
  ◌^◌, ◌<◌, Option, none, some, Bool, true, false, ◌&&◌, List, [], ◌∷◌, bytes,
}
use tiny_lsm_tree.Common.{◌≡◌, refl, ap, ◌∙◌, arith, bytes_eq, if◌then◌else◌}
use tiny_lsm_tree.Common.Int.{ℤ, pos, negsuc}
use tiny_lsm_tree.Config.Values.{TomlConfig, set_default_values}
use tiny_lsm_tree.Config.File.{
  Scalar, integer, Route, Reader, lsm_core, to_int, as_integer, as_string, as_floating, set_from,
  load_steps, run_steps, load_from_file, saved_table,
}

unfoldable pub route_eq : Route → Route → Bool
unfolding bytes_eq
route_eq [] [] = true
route_eq [] (y ∷ ys) = false
route_eq (x ∷ xs) [] = false
route_eq (x ∷ xs) (y ∷ ys) = bytes_eq x y && route_eq xs ys

-- What stands at a path of a table.
unfoldable pub find_value : {A : Type 0} → List (Route × A) → Route → Option A
unfolding route_eq
find_value [] r = none
find_value ((q, a) ∷ rest) r = if route_eq q r then some a else find_value rest r

-- The range of `int`.
abbrev pub IsInt : ℤ → Type 0
IsInt (pos n) = n < 2 ^ 31
IsInt (negsuc n) = n < 2 ^ 31

pub record HasInts {Real : Type 0} (c : TomlConfig Real) : Type 0 where
  pub block_size : IsInt c.lsm_block_size
  pub level_ratio : IsInt c.lsm_sst_level_ratio
  pub cache_capacity : IsInt c.lsm_block_cache_capacity
  pub cache_k : IsInt c.lsm_block_cache_k
  pub score_len : IsInt c.redis_sorted_set_score_len
  pub expected_size : IsInt c.bloom_filter_expected_size

to_int-IsInt : (z : ℤ) → IsInt z → to_int z ≡ z
unfolding to_int
to_int-IsInt (pos n) h = ground arith
to_int-IsInt (negsuc n) h = ground arith

-- If the text of the table that saveToFile fills parses back to what stands in the table, and the
-- `int` values are in range, then loadFromFile succeeds on it and restores every value, whatever the
-- object held before; the path of the file stays that of the object.
pub load_from_file-saved_table :
    {Real Text : Type 0} (tenth : Real) (format : List (Route × Scalar Real) → Text)
    (parse : Text → Option (Reader Real)) (c other : TomlConfig Real)
    → HasInts c
    → parse (format (saved_table c)) ≡ some (find_value (saved_table c))
    → load_from_file tenth (parse (format (saved_table c))) other
      ≡ (record c { config_file_path = other.config_file_path }, true)
unfolding load_from_file set_default_values saved_table run_steps load_steps set_from as_integer
    as_string as_floating find_value route_eq bytes_eq
load_from_file-saved_table tenth format parse c other h law =
    ap (λ o. load_from_file tenth o other) law
    ∙ rw
        (
          to_int-IsInt c.lsm_block_size h.block_size,
          to_int-IsInt c.lsm_sst_level_ratio h.level_ratio,
          to_int-IsInt c.lsm_block_cache_capacity h.cache_capacity,
          to_int-IsInt c.lsm_block_cache_k h.cache_k,
          to_int-IsInt c.redis_sorted_set_score_len h.score_len,
          to_int-IsInt c.bloom_filter_expected_size h.expected_size,
        )
        refl

-- A file with the first limit but without the second makes loadFromFile answer false; yet the first
-- limit is the one of the file, not the default, while the second is the default.
pub load_from_file_keeps_read :
    {Real : Type 0} (tenth : Real) (r : Reader Real) (c : TomlConfig Real) (z : ℤ)
    → r (lsm_core (bytes "LSM_TOL_MEM_SIZE_LIMIT")) ≡ some (integer z)
    → r (lsm_core (bytes "LSM_PER_MEM_SIZE_LIMIT")) ≡ none
    → let answer = load_from_file tenth (some r) c in
      (answer.1 ≡ false)
      × (answer.0.lsm_tol_mem_size_limit ≡ z)
      × (answer.0.lsm_per_mem_size_limit ≡ pos 4194304)
unfolding load_from_file set_default_values run_steps load_steps set_from as_integer
load_from_file_keeps_read tenth r c z h k = rw (h, k) (refl, refl, refl)
