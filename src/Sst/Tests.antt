-- ===== src/Sst/Tests.antt =====
-- The theorems on sorted tables at concrete tables.
use tiny_lsm_tree.Common.{ℕ, ◌-◌, ◌^◌, none, bytes, ◌≡◌}
use tiny_lsm_tree.Sst.Table.{Sst, create_sst_with_meta_only, sst_size}
use tiny_lsm_tree.Sst.Laws.{create_sst_with_meta_only-sst_size}

create_sst_with_meta_only-sst_size_example :
    let s : Sst ℕ = create_sst_with_meta_only 0 0 3 4096 (bytes "a") (bytes "m") none in
    (s.file.m_size ≡ 4096) × ((sst_size s).1 ≡ 2 ^ 64 - 1)
create_sst_with_meta_only-sst_size_example =
    create_sst_with_meta_only-sst_size ℕ 0 0 3 4096 (bytes "a") (bytes "m") none
