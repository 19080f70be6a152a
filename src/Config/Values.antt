-- ===== src/Config/Values.antt =====
-- The values of TomlConfig (src/config/config.cpp), their defaults and the getters. `Real` is
-- `double`.
use tiny_lsm_tree.Common.{ℕ, Bytes, bytes}
use tiny_lsm_tree.Common.Int.{ℤ, pos}

pub record TomlConfig (Real : Type 0) : Type 0 where
  pub config_file_path : Bytes
  pub lsm_tol_mem_size_limit : ℤ
  pub lsm_per_mem_size_limit : ℤ
  pub lsm_block_size : ℤ
  pub lsm_sst_level_ratio : ℤ
  pub lsm_block_cache_capacity : ℤ
  pub lsm_block_cache_k : ℤ
  pub redis_expire_header : Bytes
  pub redis_hash_value_preffix : Bytes
  pub redis_field_prefix : Bytes
  pub redis_field_separator : ℕ
  pub redis_list_separator : ℕ
  pub redis_sorted_set_prefix : Bytes
  pub redis_sorted_set_score_len : ℤ
  pub redis_set_prefix : Bytes
  pub bloom_filter_expected_size : ℤ
  pub bloom_filter_expected_error_rate : Real

module _ {Real : Type 0} where
  -- `setDefaultValues`; `tenth` is the literal 0.1. The separators are `$` and `#`.
  unfoldable pub set_default_values : Real → TomlConfig Real → TomlConfig Real
  set_default_values tenth c = record {
    config_file_path = c.config_file_path;
    lsm_tol_mem_size_limit = pos 67108864;
    lsm_per_mem_size_limit = pos 4194304;
    lsm_block_size = pos 32768;
    lsm_sst_level_ratio = pos 4;
    lsm_block_cache_capacity = pos 1024;
    lsm_block_cache_k = pos 8;
    redis_expire_header = bytes "REDIS_EXPIRE_";
    redis_hash_value_preffix = bytes "REDIS_HASH_VALUE_";
    redis_field_prefix = bytes "REDIS_FIELD_";
    redis_field_separator = 36;
    redis_list_separator = 35;
    redis_sorted_set_prefix = bytes "REDIS_SORTED_SET_";
    redis_sorted_set_score_len = pos 32;
    redis_set_prefix = bytes "REDIS_SET_";
    bloom_filter_expected_size = pos 65536;
    bloom_filter_expected_error_rate = tenth;
  }

  abbrev pub get_lsm_tol_mem_size_limit : TomlConfig Real → ℤ
  get_lsm_tol_mem_size_limit c = c.lsm_tol_mem_size_limit

  abbrev pub get_lsm_per_mem_size_limit : TomlConfig Real → ℤ
  get_lsm_per_mem_size_limit c = c.lsm_per_mem_size_limit

  abbrev pub get_lsm_block_size : TomlConfig Real → ℤ
  get_lsm_block_size c = c.lsm_block_size

  abbrev pub get_lsm_sst_level_ratio : TomlConfig Real → ℤ
  get_lsm_sst_level_ratio c = c.lsm_sst_level_ratio

  abbrev pub get_lsm_block_cache_capacity : TomlConfig Real → ℤ
  get_lsm_block_cache_capacity c = c.lsm_block_cache_capacity

  abbrev pub get_lsm_block_cache_k : TomlConfig Real → ℤ
  get_lsm_block_cache_k c = c.lsm_block_cache_k

  abbrev pub get_redis_expire_header : TomlConfig Real → Bytes
  get_redis_expire_header c = c.redis_expire_header

  abbrev pub get_redis_hash_value_preffix : TomlConfig Real → Bytes
  get_redis_hash_value_preffix c = c.redis_hash_value_preffix

  abbrev pub get_redis_field_prefix : TomlConfig Real → Bytes
  get_redis_field_prefix c = c.redis_field_prefix

  abbrev pub get_redis_field_separator : TomlConfig Real → ℕ
  get_redis_field_separator c = c.redis_field_separator

  abbrev pub get_redis_list_separator : TomlConfig Real → ℕ
  get_redis_list_separator c = c.redis_list_separator

  abbrev pub get_redis_sorted_set_prefix : TomlConfig Real → Bytes
  get_redis_sorted_set_prefix c = c.redis_sorted_set_prefix

  abbrev pub get_redis_sorted_set_score_len : TomlConfig Real → ℤ
  get_redis_sorted_set_score_len c = c.redis_sorted_set_score_len

  abbrev pub get_redis_set_prefix : TomlConfig Real → Bytes
  get_redis_set_prefix c = c.redis_set_prefix

  abbrev pub get_bloom_filter_expected_size : TomlConfig Real → ℤ
  get_bloom_filter_expected_size c = c.bloom_filter_expected_size

  abbrev pub get_bloom_filter_expected_error_rate : TomlConfig Real → Real
  get_bloom_filter_expected_error_rate c = c.bloom_filter_expected_error_rate
