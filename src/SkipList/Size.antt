-- ===== src/SkipList/Size.antt =====
-- The size that `put` of src/skiplist/skipList.cpp accounts for: keys, values and transactions.
use tiny_lsm_tree.Common.{ℕ, ◌+◌, ◌≤◌, true, List, [], ◌∷◌, ◌++◌, ◌≡◌, arith, map, Bytes}
use tiny_lsm_tree.Common.{bytes_lt, length, All}
use tiny_lsm_tree.SkipList.Node.{SkipList, key_of}
use tiny_lsm_tree.SkipList.Find.{Entry, entry_of}
use tiny_lsm_tree.SkipList.Write.{node_size}
use tiny_lsm_tree.SkipList.View.{put_entry, put_entry-skip, put_entry_above, map-append_entries}
use tiny_lsm_tree.SkipList.Overwrite.{put_entry_here}

-- What the entries take, as `put` counts it.
unfoldable pub total_size : List Entry → ℕ
total_size [] = 0
total_size (e ∷ es) = node_size e.key e.value + total_size es

pub total_size-append : (xs ys : List Entry) → total_size (xs ++ ys) ≡ total_size xs + total_size ys
unfolding total_size
total_size-append [] ys = omega arith
total_size-append (x ∷ xs) ys = omega (arith, total_size-append xs ys)

module _ (s : SkipList) (k v : Bytes) (t : ℕ) (ws zs : List ℕ)
    (below : All (λ b. bytes_lt (key_of s b) k ≡ true) ws) where
  pub total_size_insert :
      All (λ b. bytes_lt k (key_of s b) ≡ true) zs
      → total_size (put_entry k v t (map (entry_of s) (ws ++ zs)))
        ≡ total_size (map (entry_of s) (ws ++ zs)) + node_size k v
  unfolding total_size
  total_size_insert above =
      rw
        (
          map-append_entries s ws zs,
          put_entry-skip s k v t ws (map (entry_of s) zs) below,
          put_entry_above s k v t zs above,
        )
        (omega (arith, total_size-append))

  pub total_size_overwrite :
      (a : ℕ)
      → key_of s a ≡ k
      → total_size (put_entry k v t (map (entry_of s) (ws ++ a ∷ zs))) + length (s.store a).value
        ≡ total_size (map (entry_of s) (ws ++ a ∷ zs)) + length v
  unfolding total_size
  total_size_overwrite a e =
      rw
        (
          map-append_entries s ws (a ∷ zs),
          put_entry-skip s k v t ws (map (entry_of s) (a ∷ zs)) below,
          put_entry_here s k v t a zs e,
        )
        (omega (arith, total_size-append))

-- One value takes no more than all the entries.
pub length-le-total :
    (s : SkipList) (ws zs : List ℕ) (a : ℕ)
    → length (s.store a).value ≤ total_size (map (entry_of s) (ws ++ a ∷ zs))
unfolding total_size
length-le-total s ws zs a = rw (map-append_entries s ws (a ∷ zs)) (omega (arith, total_size-append))
