-- ===== src/Config/Tests.antt =====
-- The theorems on the configuration at concrete values; numbers stand for `double`.
use tiny_lsm_tree.Common.{
  ℕ, Option, none, some, true, false, List, bytes, arith, ◌≡◌, refl, if◌then◌else◌, bytes_eq,
}
use tiny_lsm_tree.Common.Int.{pos}
use tiny_lsm_tree.Config.Values.{TomlConfig}
use tiny_lsm_tree.Config.File.{
  Scalar, integer, Route, Reader, lsm_core, load_from_file, saved_table,
}
use tiny_lsm_tree.Config.Laws.{
  find_value, route_eq, load_from_file-saved_table, load_from_file_keeps_read,
}

abbrev chosen : TomlConfig ℕ
chosen = record {
  config_file_path = bytes "a.toml";
  lsm_tol_mem_size_limit = pos 1000000;
  lsm_per_mem_size_limit = pos 1000;
  lsm_block_size = pos 512;
  lsm_sst_level_ratio = pos 10;
  lsm_block_cache_capacity = pos 16;
  lsm_block_cache_k = pos 2;
  redis_expire_header = bytes "E_";
  redis_hash_value_preffix = bytes "H_";
  redis_field_prefix = bytes "F_";
  redis_field_separator = 44;
  redis_list_separator = 59;
  redis_sorted_set_prefix = bytes "Z_";
  redis_sorted_set_score_len = pos 20;
  redis_set_prefix = bytes "S_";
  bloom_filter_expected_size = pos 100;
  bloom_filter_expected_error_rate = 5;
}

abbrev before : TomlConfig ℕ
before = record chosen { config_file_path = bytes "b.toml"; lsm_block_size = pos 1 }

-- A library whose texts are the tables.
abbrev table_text : List (Route × Scalar ℕ) → List (Route × Scalar ℕ)
table_text t = t

abbrev table_parse : List (Route × Scalar ℕ) → Option (Reader ℕ)
unfolding find_value
table_parse t = some (find_value t)

load_from_file-saved_table_example :
    load_from_file 1 (table_parse (table_text (saved_table chosen))) before
    ≡ (record chosen { config_file_path = bytes "b.toml" }, true)
unfolding table_parse
load_from_file-saved_table_example =
    load_from_file-saved_table 1 table_text table_parse chosen before
      (record {
        block_size = omega arith;
        level_ratio = omega arith;
        cache_capacity = omega arith;
        cache_k = omega arith;
        score_len = omega arith;
        expected_size = omega arith;
      })
      refl

abbrev only_first : Reader ℕ
unfolding route_eq
only_first r =
    if route_eq r (lsm_core (bytes "LSM_TOL_MEM_SIZE_LIMIT")) then some (integer (pos 7)) else none

load_from_file_keeps_read_example :
    ((load_from_file 1 (some only_first) before).1 ≡ false)
    × ((load_from_file 1 (some only_first) before).0.lsm_tol_mem_size_limit ≡ pos 7)
    × ((load_from_file 1 (some only_first) before).0.lsm_per_mem_size_limit ≡ pos 4194304)
unfolding only_first route_eq bytes_eq
load_from_file_keeps_read_example = load_from_file_keeps_read 1 only_first before (pos 7) refl refl
