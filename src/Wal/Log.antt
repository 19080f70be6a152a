-- ===== src/Wal/Log.antt =====
-- WAL (src/wal/wal.cpp, include/wal/wal.h), whose methods are to be written.
use tiny_lsm_tree.Common.{ℕ, Bool, List, [], Bytes}
use tiny_lsm_tree.Files.Object.{FileObj, new_object}
use tiny_lsm_tree.Wal.Record.{Record}

pub record Log : Type 0 where
  pub active_log_path : Bytes
  pub log_file : FileObj
  pub file_size_limit : ℕ
  pub log_buffer : List Record
  pub buffer_size : ℕ
  pub max_finished_tranc_id : ℕ
  pub clean_interval : ℕ

-- The constructor sets none of the numbers; they stay as they are found in memory.
unfoldable pub new_log : Log → Bytes → ℕ → ℕ → ℕ → ℕ → Log
new_log found log_dir buffer_size max_finished_tranc_id clean_interval file_size_limit =
    record found {
      active_log_path = [];
      log_file = new_object found.log_file.m_size;
      log_buffer = [];
    }

-- The map of transactions to their records, which is empty.
unfoldable pub recover : Bytes → ℕ → List (ℕ × List Record)
recover log_dir max_flushed_tranc_id = []

unfoldable pub log : Log → List Record → Bool → Log
log w records force_flush = w

unfoldable pub flush : Log → Log
flush w = w

unfoldable pub cleaner : Log → Log
cleaner w = w
