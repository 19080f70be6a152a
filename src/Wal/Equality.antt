-- ===== src/Wal/Equality.antt =====
-- The equality of records (src/wal/record.cpp): it compares what the kind of a record uses.
use tiny_lsm_tree.Common.{ℕ, true, Bytes, ◌≡◌, ◌↔◌, arith}
use tiny_lsm_tree.Common.{bytes_eq→eq, bytes_eq_refl}
use tiny_lsm_tree.Wal.Record.{
  Record, OperationType, create, commit, rollback, put_op, delete_op, type_eq, record_eq,
}

-- What a record says, without the fields that its kind does not use.
pub data Meaning : Type 0 where
  about_transaction : ℕ → OperationType → Meaning
  deletes : ℕ → Bytes → Meaning
  puts : ℕ → Bytes → Bytes → Meaning

unfoldable pub meaning_of : ℕ → OperationType → Bytes → Bytes → Meaning
meaning_of t put_op k v = puts t k v
meaning_of t delete_op k v = deletes t k
meaning_of t create k v = about_transaction t create
meaning_of t commit k v = about_transaction t commit
meaning_of t rollback k v = about_transaction t rollback

unfoldable pub meaning : Record → Meaning
unfolding meaning_of
meaning r = meaning_of r.tranc_id r.operation_type r.key r.value

abbrev record_of : ℕ → OperationType → Bytes → Bytes → ℕ → Record
record_of t a k v n = record {
  tranc_id = t;
  operation_type = a;
  key = k;
  value = v;
  record_len = n;
}

sound :
    (t u n m : ℕ) (a b : OperationType) (k l v w : Bytes)
    → record_eq (record_of t a k v n) (record_of u b l w m) ≡ true
    → meaning_of t a k v ≡ meaning_of u b l w
unfolding record_eq meaning_of type_eq
sound t u n m create create k l v w h = ground arith
sound t u n m commit commit k l v w h = ground arith
sound t u n m rollback rollback k l v w h = ground arith
sound t u n m put_op put_op k l v w h = ground (arith, bytes_eq→eq k l, bytes_eq→eq v w)
sound t u n m delete_op delete_op k l v w h = ground (arith, bytes_eq→eq k l)
sound t u n m a b k l v w h = ground arith

complete :
    (t u n m : ℕ) (a b : OperationType) (k l v w : Bytes)
    → meaning_of t a k v ≡ meaning_of u b l w
    → record_eq (record_of t a k v n) (record_of u b l w m) ≡ true
unfolding record_eq meaning_of type_eq
complete t u n m create create k l v w h = ground arith
complete t u n m commit commit k l v w h = ground arith
complete t u n m rollback rollback k l v w h = ground arith
complete t u n m put_op put_op k l v w h = ground (arith, bytes_eq_refl k, bytes_eq_refl v)
complete t u n m delete_op delete_op k l v w h = ground (arith, bytes_eq_refl k)
complete t u n m a b k l v w h = ground arith

-- operator== holds of two records exactly when they mean the same: the same transaction, the same
-- kind, and the key and the value where the kind uses them.
pub record_eq-meaning : (r s : Record) → (record_eq r s ≡ true) ↔ (meaning r ≡ meaning s)
unfolding meaning
record_eq-meaning r s = (
  sound r.tranc_id s.tranc_id r.record_len s.record_len r.operation_type s.operation_type r.key
      s.key r.value s.value,
  complete r.tranc_id s.tranc_id r.record_len s.record_len r.operation_type s.operation_type r.key
      s.key r.value s.value,
)
