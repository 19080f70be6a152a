-- ===== src/Wal/Record.antt =====
-- Record (src/wal/record.cpp, include/wal/record.h). The makers and the codec are to be written:
-- they give a value-initialised record, and nothing.
use tiny_lsm_tree.Common.{ℕ, Bool, true, false, not, ◌&&◌, ◌||◌, List, [], Bytes, ◌==◌, bytes_eq}
use tiny_lsm_tree.Common.{if◌then◌else◌}

pub data OperationType : Type 0 where
  create commit rollback put_op delete_op : OperationType

pub record Record : Type 0 where
  pub tranc_id : ℕ
  pub operation_type : OperationType
  pub key : Bytes
  pub value : Bytes
  pub record_len : ℕ

abbrev pub empty_record : Record
empty_record = record {
  tranc_id = 0;
  operation_type = OperationType.create;
  key = [];
  value = [];
  record_len = 0;
}

unfoldable pub create_record : ℕ → Record
create_record tranc_id = empty_record

unfoldable pub commit_record : ℕ → Record
commit_record tranc_id = empty_record

unfoldable pub rollback_record : ℕ → Record
rollback_record tranc_id = empty_record

unfoldable pub put_record : ℕ → Bytes → Bytes → Record
put_record tranc_id key value = empty_record

unfoldable pub delete_record : ℕ → Bytes → Record
delete_record tranc_id key = empty_record

unfoldable pub encode : Record → Bytes
encode r = []

unfoldable pub decode : Bytes → List Record
decode encoded = []

-- `==` of the enum
unfoldable pub type_eq : OperationType → OperationType → Bool
type_eq OperationType.create OperationType.create = true
type_eq OperationType.commit OperationType.commit = true
type_eq OperationType.rollback OperationType.rollback = true
type_eq OperationType.put_op OperationType.put_op = true
type_eq OperationType.delete_op OperationType.delete_op = true
type_eq a b = false

-- `operator==`
unfoldable pub record_eq : Record → Record → Bool
unfolding type_eq
record_eq r other =
    if not (r.tranc_id == other.tranc_id) || not (type_eq r.operation_type other.operation_type)
    then false
    else if type_eq r.operation_type OperationType.create
        || type_eq r.operation_type OperationType.commit
        || type_eq r.operation_type OperationType.rollback
    then true
    else if type_eq r.operation_type OperationType.delete_op
    then bytes_eq r.key other.key
    else bytes_eq r.key other.key && bytes_eq r.value other.value

-- `operator!=`
unfoldable pub record_ne : Record → Record → Bool
unfolding record_eq
record_ne r other = not (record_eq r other)

abbrev pub get_tranc_id : Record → ℕ
get_tranc_id r = r.tranc_id

abbrev pub get_operation_type : Record → OperationType
get_operation_type r = r.operation_type

abbrev pub get_key : Record → Bytes
get_key r = r.key

abbrev pub get_value : Record → Bytes
get_value r = r.value
