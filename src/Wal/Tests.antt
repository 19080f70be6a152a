-- ===== src/Wal/Tests.antt =====
-- The theorem on records at concrete records.
use tiny_lsm_tree.Common.{true, bytes, ◌≡◌, ◌↔◌}
use tiny_lsm_tree.Wal.Record.{Record, put_op, delete_op, record_eq}
use tiny_lsm_tree.Wal.Equality.{meaning, record_eq-meaning}

abbrev put_k : Record
put_k = record {
  tranc_id = 4;
  operation_type = put_op;
  key = bytes "k";
  value = bytes "v";
  record_len = 20;
}

abbrev delete_k : Record
delete_k = record {
  tranc_id = 4;
  operation_type = delete_op;
  key = bytes "k";
  value = bytes "v";
  record_len = 0;
}

record_eq-meaning_example : (record_eq put_k delete_k ≡ true) ↔ (meaning put_k ≡ meaning delete_k)
record_eq-meaning_example = record_eq-meaning put_k delete_k
