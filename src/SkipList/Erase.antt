-- ===== src/SkipList/Erase.antt =====
-- The specification of `remove` of src/skiplist/skipList.cpp on sorted entries, and the size it
-- takes off.
use tiny_lsm_tree.Common.{◌≤◌, ℕ, ◌+◌, true}
use tiny_lsm_tree.Common.{List, [], ◌∷◌, ◌++◌}
use tiny_lsm_tree.Common.{◌≡◌, refl, ap, arith, map, Bytes}
use tiny_lsm_tree.Common.{bytes_lt, bytes_eq, bytes_eq_refl}
use tiny_lsm_tree.Common.{if◌then◌else◌, All}
use tiny_lsm_tree.SkipList.Node.{SkipList, key_of}
use tiny_lsm_tree.SkipList.Find.{Entry, entry_of}
use tiny_lsm_tree.SkipList.Write.{node_size}
use tiny_lsm_tree.SkipList.View.{lt→ne, gt→ne, map-append_entries}
use tiny_lsm_tree.SkipList.Size.{total_size, total_size-append}

-- The entries without the first one of the key.
unfoldable pub remove_entry : Bytes → List Entry → List Entry
remove_entry k [] = []
remove_entry k (e ∷ es) = let rest = remove_entry k es in if bytes_eq e.key k then es else e ∷ rest

module _ (s : SkipList) (k : Bytes) where
  pub remove_entry-skip :
      (ws : List ℕ) (es : List Entry)
      → All (λ b. bytes_lt (key_of s b) k ≡ true) ws
      → remove_entry k (map (entry_of s) ws ++ es) ≡ map (entry_of s) ws ++ remove_entry k es
  unfolding remove_entry
  remove_entry-skip [] es h = refl
  remove_entry-skip (w ∷ ws) es h =
      rw (lt→ne (key_of s w) k h.0)
        (ap (λ (l : List Entry). entry_of s w ∷ l) (remove_entry-skip ws es h.1))

  pub remove_entry_above :
      (zs : List ℕ)
      → All (λ b. bytes_lt k (key_of s b) ≡ true) zs
      → remove_entry k (map (entry_of s) zs) ≡ map (entry_of s) zs
  unfolding remove_entry
  remove_entry_above [] h = refl
  remove_entry_above (z ∷ zs) h =
      rw (gt→ne (key_of s z) k h.0)
        (ap (λ (l : List Entry). entry_of s z ∷ l) (remove_entry_above zs h.1))

  pub remove_entry_found :
      (a : ℕ) (ws zs : List ℕ)
      → All (λ b. bytes_lt (key_of s b) k ≡ true) ws
      → key_of s a ≡ k
      → remove_entry k (map (entry_of s) (ws ++ a ∷ zs)) ≡ map (entry_of s) (ws ++ zs)
  unfolding remove_entry
  remove_entry_found a ws zs h e =
      let same : bytes_eq (key_of s a) k ≡ true = rw e (bytes_eq_refl k) in
      rw
        (
          map-append_entries s ws (a ∷ zs),
          map-append_entries s ws zs,
          remove_entry-skip ws (map (entry_of s) (a ∷ zs)) h,
          same,
        )
        refl

pub total_size_removed :
    (s : SkipList) (a : ℕ) (ws zs : List ℕ)
    → total_size (map (entry_of s) (ws ++ a ∷ zs))
      ≡ node_size (key_of s a) (s.store a).value + total_size (map (entry_of s) (ws ++ zs))
unfolding total_size
total_size_removed s a ws zs =
    rw (map-append_entries s ws (a ∷ zs), map-append_entries s ws zs)
      (omega (arith, total_size-append))

pub total_size-remove_entry :
    (k : Bytes) (es : List Entry) → total_size (remove_entry k es) ≤ total_size es
unfolding total_size remove_entry
total_size-remove_entry k [] = omega arith
total_size-remove_entry k (e ∷ es) = ground (arith, total_size-remove_entry k es)
