-- ===== src/Lsm/Engine.antt =====
-- LSMEngine (src/lsm/engine.cpp, include/lsm/engine.h). The methods that the course leaves to be
-- written return constants. The directory of the data is the list of its entries.
use tiny_lsm_tree.Common.{ℕ, zero, suc, ◌-◌, ◌*◌, ◌%◌, ◌^◌, Option, none, Bool, List, [], ◌∷◌, ◌++◌}
use tiny_lsm_tree.Common.{Bytes, bytes, length, ◌==◌, if◌then◌else◌}
use tiny_lsm_tree.Common.Result.{Result, throws}
use tiny_lsm_tree.Redis.Reply.{to_string}
use tiny_lsm_tree.MemTable.Table.{MemTable, new_table}
use tiny_lsm_tree.MemTable.Table
use tiny_lsm_tree.Block.Meta.{BlockCache}
use tiny_lsm_tree.Sst.Table.{Sst}

pub record DirEntry : Type 0 where
  pub path : Bytes
  pub is_regular_file : Bool

-- `level_sst_ids` and `ssts` are the pairs of the maps.
pub record LsmEngine (Rate : Type 0) : Type 0 where
  pub data_dir : Bytes
  pub memtable : MemTable
  pub level_sst_ids : List (ℕ × List ℕ)
  pub ssts : List (ℕ × Sst Rate)
  pub block_cache : Option BlockCache
  pub next_sst_id : ℕ
  pub cur_max_level : ℕ
  pub directory : List DirEntry

-- A result of a lookup: the value and its transaction.
abbrev pub Found : Type 0
Found = Option (Bytes × ℕ)

-- What `setw` puts before a number that is shorter than `n` characters.
unfoldable pub fill : ℕ → Bytes
fill zero = []
fill (suc n) = 48 ∷ fill n

unfoldable pub padded : ℕ → ℕ → Bytes
unfolding fill
padded width n = fill (width - length (to_string n)) ++ to_string n

-- The loop of `clear` over the directory. `removes` says whether the system removes a file; where
-- it does not, the exception ends the loop.
unfoldable pub clear_directory : (Bytes → Bool) → List DirEntry → List DirEntry
clear_directory removes [] = []
clear_directory removes (e ∷ es) =
    let rest = clear_directory removes es in
    if e.is_regular_file then if removes e.path then rest else e ∷ es else e ∷ rest

-- `get_sst_size`, from the limit and the ratio of the configuration. `std::pow` is exact while the
-- power is below 2^53.
unfoldable pub get_sst_size : ℕ → ℕ → ℕ → ℕ
get_sst_size limit ratio level = if level == 0 then limit else (limit * ratio ^ level) % 2 ^ 64

module _ {Rate : Type 0} where
  -- The constructor, over what the directory holds.
  unfoldable pub new_engine : (ℕ → ℕ → ℕ) → List DirEntry → Bytes → LsmEngine Rate
  new_engine seeds directory path = record {
    data_dir = path;
    memtable = new_table seeds;
    level_sst_ids = [];
    ssts = [];
    block_cache = none;
    next_sst_id = 0;
    cur_max_level = 0;
    directory = directory;
  }

  unfoldable pub get : LsmEngine Rate → Bytes → ℕ → Found
  get e key tranc_id = none

  unfoldable pub get_batch : LsmEngine Rate → List Bytes → ℕ → List (Bytes × Found)
  get_batch e keys tranc_id = []

  unfoldable pub sst_get : LsmEngine Rate → Bytes → ℕ → Found
  sst_get e key tranc_id = none

  unfoldable pub put : LsmEngine Rate → Bytes → Bytes → ℕ → LsmEngine Rate × ℕ
  put e key value tranc_id = (e, 0)

  unfoldable pub put_batch : LsmEngine Rate → List (Bytes × Bytes) → ℕ → LsmEngine Rate × ℕ
  put_batch e kvs tranc_id = (e, 0)

  unfoldable pub remove : LsmEngine Rate → Bytes → ℕ → LsmEngine Rate × ℕ
  remove e key tranc_id = (e, 0)

  unfoldable pub remove_batch : LsmEngine Rate → List Bytes → ℕ → LsmEngine Rate × ℕ
  remove_batch e keys tranc_id = (e, 0)

  unfoldable pub clear : (Bytes → Bool) → LsmEngine Rate → LsmEngine Rate
  unfolding clear_directory Table.clear
  clear removes e = record e {
    memtable = Table.clear e.memtable;
    level_sst_ids = [];
    ssts = [];
    directory = clear_directory removes e.directory;
  }

  unfoldable pub flush : LsmEngine Rate → LsmEngine Rate × ℕ
  flush e = (e, 0)

  unfoldable pub get_sst_path : LsmEngine Rate → ℕ → ℕ → Bytes
  unfolding padded
  get_sst_path e sst_id target_level =
      e.data_dir ++ (bytes "/sst_" ++ (padded 32 sst_id ++ (bytes "." ++ to_string target_level)))

  unfoldable pub lsm_iters_monotony_predicate {ℓ} :
      {P I : Type ℓ} → LsmEngine Rate → ℕ → P → Option (I × I)
  lsm_iters_monotony_predicate e tranc_id predicate = none

  -- `begin` and `end` are to be written, and throw.
  unfoldable pub begin : {I : Type 0} → LsmEngine Rate → ℕ → Result I
  begin e tranc_id = throws

  unfoldable pub end : {I : Type 0} → LsmEngine Rate → Result I
  end e = throws

  unfoldable pub full_compact : LsmEngine Rate → ℕ → LsmEngine Rate
  full_compact e src_level = e

  unfoldable pub full_l0_l1_compact :
      LsmEngine Rate → List ℕ → List ℕ → LsmEngine Rate × List (Sst Rate)
  full_l0_l1_compact e l0_ids l1_ids = (e, [])

  unfoldable pub full_common_compact :
      LsmEngine Rate → List ℕ → List ℕ → ℕ → LsmEngine Rate × List (Sst Rate)
  full_common_compact e lx_ids ly_ids level_y = (e, [])

  unfoldable pub gen_sst_from_iter : {I : Type 0} → LsmEngine Rate → I → ℕ → ℕ → List (Sst Rate)
  gen_sst_from_iter e iter target_sst_size target_level = []
