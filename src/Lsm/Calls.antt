-- ===== src/Lsm/Calls.antt =====
-- Sequences of calls of LSM (src/lsm/engine.cpp): the numbers that they draw, and the fuel of
-- flush_all and the destructor.
use tiny_lsm_tree.Common.{ℕ, suc, ◌+◌, ◌%◌, ◌^◌, ◌<◌, some, Bool, true, false, List, [], ◌∷◌}
use tiny_lsm_tree.Common.{◌≡◌, refl, ap, ◌∙◌, arith, inl, inr, Bytes, Bool-cases, is_empty}
use tiny_lsm_tree.SkipList.Write.{size_mod, get_size}
use tiny_lsm_tree.SkipList.Write
use tiny_lsm_tree.MemTable.Table.{MemTable, get_total_size}
use tiny_lsm_tree.MemTable.Table
use tiny_lsm_tree.Lsm.Transaction.{
  get_next_transaction_id, write_tranc_id_file, new_manager, get_tranc_id_file_path,
}
use tiny_lsm_tree.Lsm.Engine.{LsmEngine, DirEntry, new_engine}
use tiny_lsm_tree.Lsm.Engine
use tiny_lsm_tree.Lsm.Front.{
  Lsm, new_lsm, number, get, get_batch, put, put_batch, remove, remove_batch, clear, flush,
  flush_all, destroy,
}

-- The calls of a client.
pub data Call : Type 0 where
  get_call : Bytes → Bool → Call
  get_batch_call : List Bytes → Call
  put_call : Bytes → Bytes → Bool → Call
  put_batch_call : List (Bytes × Bytes) → Call
  remove_call : Bytes → Call
  remove_batch_call : List Bytes → Call
  clear_call : (Bytes → Bool) → Call
  flush_call : Call

-- How many numbers the calls draw.
unfoldable pub draws : List Call → ℕ
draws [] = 0
draws (get_call k false ∷ cs) = suc (draws cs)
draws (get_batch_call ks ∷ cs) = suc (draws cs)
draws (put_call k v false ∷ cs) = suc (draws cs)
draws (put_batch_call kvs ∷ cs) = suc (draws cs)
draws (remove_call k ∷ cs) = suc (draws cs)
draws (remove_batch_call ks ∷ cs) = suc (draws cs)
draws (c ∷ cs) = draws cs

module _ {Rate : Type 0} where
  unfoldable pub call : Lsm Rate → Call → Lsm Rate
  unfolding get get_batch put put_batch remove remove_batch clear flush
  call l (get_call k off) = (get l k off).0
  call l (get_batch_call ks) = (get_batch l ks).0
  call l (put_call k v off) = put l k v off
  call l (put_batch_call kvs) = put_batch l kvs
  call l (remove_call k) = remove l k
  call l (remove_batch_call ks) = remove_batch l ks
  call l (clear_call removes) = clear removes l
  call l flush_call = flush l

  unfoldable pub run : Lsm Rate → List Call → Lsm Rate
  unfolding call
  run l [] = l
  run l (c ∷ cs) = run (call l c) cs

  flush_all_stops :
      (fuel : ℕ) (l : Lsm Rate)
      → get_total_size l.engine.memtable ≡ 0
      → flush_all (suc fuel) l ≡ some l
  unfolding flush_all
  flush_all_stops fuel l z = rw (flush_all, z) refl

  -- Nothing is counted in the memory table.
  abbrev Quiet : Lsm Rate → Type 0
  Quiet l = (l.engine.memtable.frozen_bytes ≡ 0) × (get_size l.engine.memtable.current_table ≡ 0)

  call-Quiet : (l : Lsm Rate) (c : Call) → Quiet l → Quiet (call l c)
  unfolding call get get_batch put put_batch remove remove_batch clear flush number Engine.put
      Engine.put_batch Engine.remove Engine.remove_batch Engine.clear Engine.flush Table.clear
      Write.clear
  call-Quiet l (get_call k true) q = q
  call-Quiet l (get_call k false) q = q
  call-Quiet l (get_batch_call ks) q = q
  call-Quiet l (put_call k v true) q = q
  call-Quiet l (put_call k v false) q = q
  call-Quiet l (put_batch_call kvs) q = q
  call-Quiet l (remove_call k) q = q
  call-Quiet l (remove_batch_call ks) q = q
  call-Quiet l (clear_call removes) q = (q.0, refl)
  call-Quiet l flush_call q = q

  run-Quiet : (cs : List Call) (l : Lsm Rate) → Quiet l → Quiet (run l cs)
  unfolding run
  run-Quiet [] l q = q
  run-Quiet (c ∷ cs) l q = run-Quiet cs (call l c) (call-Quiet l c q)

  -- One round of fuel is enough for flush_all and the destructor after any calls on a new LSM: while
  -- LSMEngine::put and its like are still to be written, nothing is counted.
  run-destroy :
      (seeds : ℕ → ℕ → ℕ) (directory : List DirEntry) (path : Bytes) (cs : List Call)
      → let l : Lsm Rate = run (new_lsm seeds directory path) cs in
        (flush_all 1 l ≡ some l) × (destroy 1 l ≡ some l)
  unfolding destroy write_tranc_id_file
  run-destroy seeds directory path cs =
      let l : Lsm Rate = run (new_lsm seeds directory path) cs in
      let q : Quiet l =
        run-Quiet cs (new_lsm seeds directory path) (unfold new_lsm new_engine in (refl, refl)) in
      let none_counted : get_total_size l.engine.memtable ≡ 0 =
        unfold get_total_size in rw (q.0, q.1) refl in
      let e = flush_all_stops 0 l none_counted in (e, rw (destroy, e) refl)

  call-next :
      (l : Lsm Rate) (c : Call) (cs : List Call)
      → l.tran_manager.next_transaction_id < 2 ^ 64
      → ((call l c).tran_manager.next_transaction_id + draws cs) % 2 ^ 64
        ≡ (l.tran_manager.next_transaction_id + draws (c ∷ cs)) % 2 ^ 64
  unfolding call get get_batch put put_batch remove remove_batch clear flush number
      get_next_transaction_id draws
  call-next l (get_call k true) cs h = refl
  call-next l (get_call k false) cs h = omega arith
  call-next l (get_batch_call ks) cs h = omega arith
  call-next l (put_call k v true) cs h = refl
  call-next l (put_call k v false) cs h = omega arith
  call-next l (put_batch_call kvs) cs h = omega arith
  call-next l (remove_call k) cs h = omega arith
  call-next l (remove_batch_call ks) cs h = omega arith
  call-next l (clear_call removes) cs h = refl
  call-next l flush_call cs h = refl

  call_fits :
      (l : Lsm Rate) (c : Call)
      → l.tran_manager.next_transaction_id < 2 ^ 64
      → (call l c).tran_manager.next_transaction_id < 2 ^ 64
  unfolding call get get_batch put put_batch remove remove_batch clear flush number
      get_next_transaction_id
  call_fits l (get_call k true) h = h
  call_fits l (get_call k false) h = omega arith
  call_fits l (get_batch_call ks) h = omega arith
  call_fits l (put_call k v true) h = h
  call_fits l (put_call k v false) h = omega arith
  call_fits l (put_batch_call kvs) h = omega arith
  call_fits l (remove_call k) h = omega arith
  call_fits l (remove_batch_call ks) h = omega arith
  call_fits l (clear_call removes) h = h
  call_fits l flush_call h = h

  run-next :
      (cs : List Call) (l : Lsm Rate)
      → l.tran_manager.next_transaction_id < 2 ^ 64
      → (run l cs).tran_manager.next_transaction_id
        ≡ (l.tran_manager.next_transaction_id + draws cs) % 2 ^ 64
  unfolding run draws
  run-next [] l h = omega (arith, h)
  run-next (c ∷ cs) l h = run-next cs (call l c) (call_fits l c h) ∙ call-next l c cs h

-- The next number of a new LSM is one more than the calls that drew one, modulo 2^64: each call
-- draws one, but for those with `tranc_off`, clear and flush.
pub run-numbers :
    (Rate : Type 0) (seeds : ℕ → ℕ → ℕ) (directory : List DirEntry) (path : Bytes) (cs : List Call)
    → (run {Rate = Rate} (new_lsm seeds directory path) cs).tran_manager.next_transaction_id
      ≡ (1 + draws cs) % 2 ^ 64
unfolding new_lsm new_manager get_tranc_id_file_path
run-numbers Rate seeds directory path cs =
    let l : Lsm Rate = new_lsm seeds directory path in
    let first : (new_lsm {Rate = Rate} seeds directory path).tran_manager.next_transaction_id ≡ 1 =
      elim (Bool-cases (is_empty path)) [ inl e ↦ rw e refl | inr e ↦ rw e refl ] in
    run-next cs l (omega (arith, first)) ∙ ap (λ (n : ℕ). (n + draws cs) % 2 ^ 64) first
