-- ===== src/Lsm/Transaction.antt =====
-- TranManager and TranContext (src/lsm/transation.cpp, include/lsm/transaction.h). Most methods are
-- to be written: they leave the state as it is.
use tiny_lsm_tree.Common.{
  ℕ, ◌+◌, ◌%◌, ◌^◌, Option, none, Bool, true, false, List, [], ◌++◌, Bytes, bytes,
}
use tiny_lsm_tree.Common.{is_empty, if◌then◌else◌}
use tiny_lsm_tree.Wal.Record.{Record}

pub data IsolationLevel : Type 0 where
  read_uncommitted read_committed repeatable_read serializable : IsolationLevel

unfoldable pub isolation_level_to_string : IsolationLevel → Bytes
isolation_level_to_string IsolationLevel.read_uncommitted = bytes "READ_UNCOMMITTED"
isolation_level_to_string IsolationLevel.read_committed = bytes "READ_COMMITTED"
isolation_level_to_string IsolationLevel.repeatable_read = bytes "REPEATABLE_READ"
isolation_level_to_string IsolationLevel.serializable = bytes "SERIALIZABLE"

-- The pointers to the engine and to the manager are left out: no method follows them.
pub record TranContext : Type 0 where
  pub tranc_id : ℕ
  pub operations : List Record
  pub temp_map : List (Bytes × Bytes)
  pub is_committed : Bool
  pub is_aborted : Bool
  pub isolation_level : IsolationLevel

-- The constructor leaves the number and the level as they are found in memory.
unfoldable pub new_context : TranContext → ℕ → IsolationLevel → TranContext
new_context found tranc_id isolation_level = record found {
  operations = [];
  temp_map = [];
  is_committed = false;
  is_aborted = false;
}

unfoldable pub context_put : TranContext → Bytes → Bytes → TranContext
context_put c key value = c

unfoldable pub context_remove : TranContext → Bytes → TranContext
context_remove c key = c

unfoldable pub context_get : TranContext → Bytes → Option Bytes
context_get c key = none

unfoldable pub commit : TranContext → Bool → TranContext × Bool
commit c test_fail = (c, true)

unfoldable pub abort : TranContext → TranContext × Bool
abort c = (c, true)

abbrev pub get_isolation_level : TranContext → IsolationLevel
get_isolation_level c = c.isolation_level

pub record TranManager : Type 0 where
  pub data_dir : Bytes
  pub next_transaction_id : ℕ
  pub max_flushed_tranc_id : ℕ
  pub max_finished_tranc_id : ℕ

unfoldable pub get_tranc_id_file_path : TranManager → TranManager × Bytes
get_tranc_id_file_path m =
    let m' = if is_empty m.data_dir then record m { data_dir = bytes "./" } else m in
    (m', m'.data_dir ++ bytes "/tranc_id")

-- The constructor asks for the path, which fills an empty directory in.
unfoldable pub new_manager : Bytes → TranManager
unfolding get_tranc_id_file_path
new_manager data_dir =
    (get_tranc_id_file_path (record {
      data_dir = data_dir;
      next_transaction_id = 1;
      max_flushed_tranc_id = 0;
      max_finished_tranc_id = 0;
    })).0

unfoldable pub write_tranc_id_file : TranManager → TranManager
write_tranc_id_file m = m

unfoldable pub read_tranc_id_file : TranManager → TranManager
read_tranc_id_file m = m

unfoldable pub update_max_finished_tranc_id : TranManager → ℕ → TranManager
update_max_finished_tranc_id m tranc_id = m

unfoldable pub update_max_flushed_tranc_id : TranManager → ℕ → TranManager
update_max_flushed_tranc_id m tranc_id = m

-- `getNextTransactionId`: `fetch_add` gives the old number.
unfoldable pub get_next_transaction_id : TranManager → TranManager × ℕ
get_next_transaction_id m =
    (record m { next_transaction_id = (m.next_transaction_id + 1) % 2 ^ 64 }, m.next_transaction_id)

abbrev pub get_max_flushed_tranc_id : TranManager → ℕ
get_max_flushed_tranc_id m = m.max_flushed_tranc_id

abbrev pub get_max_finished_tranc_id : TranManager → ℕ
get_max_finished_tranc_id m = m.max_finished_tranc_id

-- A null pointer.
unfoldable pub new_tranc : TranManager → IsolationLevel → Option TranContext
new_tranc m isolation_level = none

unfoldable pub check_recover : TranManager → List (ℕ × List Record)
check_recover m = []

unfoldable pub write_to_wal : TranManager → List Record → TranManager × Bool
write_to_wal m records = (m, true)
