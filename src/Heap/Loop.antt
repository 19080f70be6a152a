-- ===== src/Heap/Loop.antt =====
-- The loop over a HeapIterator (src/iterator/iterator.cpp) against the items that it merges.
use tiny_lsm_tree.Common.{ℕ, zero, suc, ◌≤◌, true, false, List, [], ◌∷◌}
use tiny_lsm_tree.Common.{◌≡◌, refl, ap, ◌∙◌, arith, bytes_eq}
use tiny_lsm_tree.Common.{Bool-cases, inl, inr, Bytes, length}
use tiny_lsm_tree.Heap.Item.{SearchItem}
use tiny_lsm_tree.Heap.Merge.{push, push_all, drop_key, drop_deleted, top_value_legal, skip_illegal}
use tiny_lsm_tree.Heap.Merge.{advance_items, drain, drain_all, new_heap}
use tiny_lsm_tree.Heap.Order.{find_item, KeysRise, push-KeysRise}
use tiny_lsm_tree.Heap.Drain.{
  find_pair, live, Clean, Cleans, drop_deleted-Cleans, KeysRise-drop_key,
}
use tiny_lsm_tree.Heap.Drain.{find_item-drop_key, length-drop_key}

skip_illegal_legal :
    (fuel : ℕ) (q : List SearchItem) → top_value_legal 0 q ≡ true → skip_illegal fuel 0 q ≡ q
unfolding skip_illegal
skip_illegal_legal zero q e = refl
skip_illegal_legal (suc fuel) q e = rw (e, skip_illegal)

Clean→legal : (q : List SearchItem) → Clean q → top_value_legal 0 q ≡ true
unfolding top_value_legal
Clean→legal [] c = refl
Clean→legal (x ∷ xs) c = rw c

legal→Clean : (q : List SearchItem) → top_value_legal 0 q ≡ true → Clean q
unfolding top_value_legal
legal→Clean [] e = tt
legal→Clean (x ∷ xs) e = ground arith

skip_illegal_round :
    (fuel : ℕ) (q : List SearchItem)
    → top_value_legal 0 q ≡ false
    → skip_illegal (suc fuel) 0 q ≡ skip_illegal fuel 0 (drop_deleted (length q) q)
unfolding skip_illegal
skip_illegal_round fuel q e = rw (e, skip_illegal)

-- With no transaction the loop of `operator++` ends at a top that is no deletion.
skip_illegal-Cleans :
    (fuel : ℕ) (q : List SearchItem) → KeysRise q → Cleans q (skip_illegal (suc fuel) 0 q)
skip_illegal-Cleans fuel q h = elim (Bool-cases (top_value_legal 0 q)) [
  | inl e ↦
      let c = legal→Clean q e in
      rw (skip_illegal_legal (suc fuel) q e)
        (record { clean = c; rise = h; shorter = omega arith; same = λ k. refl })
  | inr e ↦
      let c = drop_deleted-Cleans (length q) q (omega arith) h in
      rw
        (skip_illegal_round fuel q e
          ∙ skip_illegal_legal fuel (drop_deleted (length q) q)
              (Clean→legal (drop_deleted (length q) q) c.clean))
        c
]

pub advance_items-Cleans :
    (x : SearchItem) (xs : List SearchItem)
    → KeysRise (x ∷ xs)
    → Cleans (drop_key x.key xs) (advance_items 0 (x ∷ xs))
unfolding advance_items
advance_items-Cleans x xs h =
    skip_illegal-Cleans (length (drop_key x.key xs)) (drop_key x.key xs)
      (KeysRise-drop_key x.key xs h.1)

-- A loop reads for each key the value of its first item, and nothing where that is a deletion.
drain-live :
    (fuel : ℕ) (q : List SearchItem) (k : Bytes)
    → length q ≤ fuel
    → KeysRise q
    → Clean q
    → find_pair k (drain 0 fuel q) ≡ live (find_item k q)
unfolding find_pair drain find_item
drain-live zero [] k f h c = refl
drain-live zero (x ∷ xs) k f h c = absurd (omega arith)
drain-live (suc fuel) [] k f h c = refl
drain-live (suc fuel) (x ∷ xs) k f h c = elim (Bool-cases (bytes_eq x.key k)) [
  | inl e ↦ rw (e, c)
  | inr e ↦
      let r = advance_items-Cleans x xs h in
      rw e (
        drain-live fuel (advance_items 0 (x ∷ xs)) k
          (omega (arith, r.shorter, length-drop_key x.key xs)) r.rise r.clean
        ∙ r.same k
        ∙ ap live (find_item-drop_key k x.key xs e))
]

pub push_all-KeysRise : (xs q : List SearchItem) → KeysRise q → KeysRise (push_all xs q)
unfolding push_all
push_all-KeysRise [] q h = h
push_all-KeysRise (x ∷ xs) q h = push_all-KeysRise xs (push x q) (push-KeysRise x q h)

pub new_heap-live :
    (item_vec : List SearchItem) (k : Bytes)
    → find_pair k (drain_all (new_heap item_vec 0)) ≡ live (find_item k (push_all item_vec []))
unfolding drain_all new_heap
new_heap-live item_vec k =
    let q = push_all item_vec [] in
    let h : KeysRise q = push_all-KeysRise item_vec [] tt in
    let c = drop_deleted-Cleans (length q) q (omega arith) h in
    drain-live (length (drop_deleted (length q) q)) (drop_deleted (length q) q) k (omega arith)
      c.rise c.clean
    ∙ c.same k
