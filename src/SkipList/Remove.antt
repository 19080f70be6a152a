-- ===== src/SkipList/Remove.antt =====
-- `remove` of src/skiplist/skipList.cpp on the entries that `flush` reports, and the size.
use tiny_lsm_tree.Common.{ℕ, ◌+◌, ◌-◌, ◌%◌, ◌≤◌, ◌<◌, Option, some, true, false}
use tiny_lsm_tree.Common.{List, [], ◌∷◌, ◌++◌}
use tiny_lsm_tree.Common.{◌≡◌, ◌≢◌, inl, inr, refl, sym, ap, ◌∙◌, subst, arith, map, Bytes}
use tiny_lsm_tree.Common.{bytes_lt, bytes_lt_trans, bytes_lt_irrefl, bytes_eq, bytes_eq_refl}
use tiny_lsm_tree.Common.{length, length-append, All, All-In, All-imp, In}
use tiny_lsm_tree.Common.{In-append_right}
use tiny_lsm_tree.SkipList.Node.{SkipList, key_of, forward_of}
use tiny_lsm_tree.SkipList.Find.{Entry, entry_of, flush, search_from_head}
use tiny_lsm_tree.SkipList.Write.{remove, unlink, lower, node_size, size_mod}
use tiny_lsm_tree.SkipList.Chain.{Linked, Rising, Holds, IsValid, Stops}
use tiny_lsm_tree.SkipList.Search.{At-Rising}
use tiny_lsm_tree.SkipList.View.{flush-entries, gt→ne, map-append_entries, above_trans}
use tiny_lsm_tree.SkipList.Get.{Searched, search-Searched, Searched-Stops}
use tiny_lsm_tree.SkipList.Get.{Next, found, larger, nothing, Next-cases}
use tiny_lsm_tree.SkipList.Levels.{passed_node}
use tiny_lsm_tree.SkipList.Splice.{Frame}
use tiny_lsm_tree.SkipList.Size.{total_size}
use tiny_lsm_tree.SkipList.Laws.{CountsSize}
use tiny_lsm_tree.SkipList.Unlink.{Frame-unlink, bottom-unlink, lower_lem}
use tiny_lsm_tree.SkipList.Erase.{
  remove_entry, remove_entry-skip, remove_entry_above, remove_entry_found, total_size_removed,
  total_size-remove_entry,
}
use tiny_lsm_tree.SkipList.Bottom.{Bottom, flush_loop-Bottom, Bottom-removed}

-- What `remove` does with a node that the search has found, with the level `m` in the end.
abbrev unlinked : SkipList → ℕ → (ℕ → Option ℕ) → ℕ → SkipList
unlinked s a upd m =
    let s' = unlink s.current_level s a 0 upd in
    let n = s'.store a in
    record s' {
      current_level = m;
      size_bytes = (s'.size_bytes + size_mod - node_size n.key n.value) % size_mod;
    }

-- What `flush` reports after `remove`, and the size then.
record Removed (s : SkipList) (k : Bytes) (t : SkipList) : Type 0 where
  pub entries : flush t ≡ remove_entry k (flush s)
  pub size :
      s.size_bytes ≡ total_size (flush s)
      → total_size (flush s) < size_mod
      → t.size_bytes ≡ total_size (remove_entry k (flush s))

module _ (s : SkipList) (k : Bytes) (xs : List ℕ) (h : Holds s xs) (cur : ℕ) (upd : ℕ → Option ℕ)
    (r : Searched s k xs cur upd) where
  -- The search has not gone to a node behind the key.
  far :
      (zs : List ℕ)
      → ((b : ℕ) → In b zs → In b xs)
      → All (λ b. bytes_lt k (key_of s b) ≡ true) zs
      → All (λ b. b ≢ cur) zs
  far zs sub above =
      All-imp (λ b. bytes_lt k (key_of s b) ≡ true) (λ b. b ≢ cur) zs
        (λ b m gt q. elim (passed_node s k s.head xs cur r.at) [
          | inl e ↦ All-In (λ (x : ℕ). x ≢ s.head) b xs h.no_head (sub b m) (q ∙ sym e)
          | inr (_, lt) ↦
              let gt' = subst (λ (x : ℕ). bytes_lt k (key_of s x) ≡ true) q gt in
              cc (bytes_lt_trans k (key_of s cur) k gt' lt, bytes_lt_irrefl k)
        ])
        above

  module _ (a : ℕ) (zs : List ℕ) (e : r.at.zs ≡ a ∷ zs) (f : forward_of s cur 0 ≡ some a)
      (same : key_of s a ≡ k) (m : ℕ) where
    split : xs ≡ r.at.ws ++ a ∷ zs
    split = r.at.split ∙ ap (λ (l : List ℕ). r.at.ws ++ l) e

    erased : remove_entry k (flush s) ≡ map (entry_of s) (r.at.ws ++ zs)
    erased =
        ap (remove_entry k) (flush-entries s xs h ∙ ap (map (entry_of s)) split)
        ∙ remove_entry_found s k a r.at.ws zs r.at.below same

    Frame-found : Frame s (unlink s.current_level s a 0 upd)
    Frame-found = Frame-unlink s.current_level s a 0 upd

    behind : All (λ b. b ≢ cur) zs
    behind =
        far zs (λ b m. subst (In b) (sym split) (In-append_right b r.at.ws (a ∷ zs) (inr m)))
          (subst (λ (x : Bytes). All (λ b. bytes_lt x (key_of s b) ≡ true) zs) same
            (subst (Rising s) e (At-Rising s k s.head cur xs r.at h.rising)).0)

    Bottom-unlinked : Bottom (unlinked s a upd m) s.head (r.at.ws ++ zs)
    Bottom-unlinked =
        Bottom-removed s (unlinked s a upd m) k a cur
          (bottom-unlink s.current_level s a cur upd h.has_level r.last f) f same s.head r.at.ws zs
          r.at.below behind r.at.ends (subst (Linked s s.head) split h.linked)

    entries-unlinked : flush (unlinked s a upd m) ≡ map (entry_of s) (r.at.ws ++ zs)
    unfolding flush
    entries-unlinked =
        let fits : length (r.at.ws ++ zs) ≤ s.next = omega (
          arith,
          h.room,
          ap length split,
          length-append r.at.ws zs,
          length-append r.at.ws (a ∷ zs),
        ) in
        rw (Frame-found.next, Frame-found.head)
          (flush_loop-Bottom s (unlinked s a upd m) s.next s.head (r.at.ws ++ zs) Frame-found.entry
            Bottom-unlinked fits)

    size-unlinked :
        s.size_bytes ≡ total_size (flush s)
        → total_size (flush s) < size_mod
        → (unlinked s a upd m).size_bytes ≡ total_size (map (entry_of s) (r.at.ws ++ zs))
    size-unlinked c small =
        let total =
          ap total_size (flush-entries s xs h ∙ ap (map (entry_of s)) split)
          ∙ total_size_removed s a r.at.ws zs in
        let key_kept = ap (λ (n : Entry). n.key) (Frame-found.entry a) in
        let value_kept = ap (λ (n : Entry). n.value) (Frame-found.entry a) in
        rw (key_kept, value_kept) (omega (arith, Frame-found.size_bytes, total))

  unlinked-Removed :
      (a : ℕ) (zs : List ℕ)
      → r.at.zs ≡ a ∷ zs
      → forward_of s cur 0 ≡ some a
      → key_of s a ≡ k
      → (n : ℕ)
      → Removed s k (lower n (unlinked s a upd (unlink s.current_level s a 0 upd).current_level))
  unlinked-Removed a zs e f same n =
      let (m, low) =
        lower_lem n (unlinked s a upd (unlink s.current_level s a 0 upd).current_level) in
      record {
        entries =
            ap flush low.result ∙ entries-unlinked a zs e f same m ∙ sym (erased a zs e f same m);
        size = λ c small.
            ap (λ (x : SkipList). x.size_bytes) low.result
            ∙ size-unlinked a zs e f same m c small
            ∙ ap total_size (sym (erased a zs e f same m));
      }

  unchanged : All (λ b. bytes_lt k (key_of s b) ≡ true) r.at.zs → remove_entry k (flush s) ≡ flush s
  unchanged above =
      let split = flush-entries s xs h ∙ ap (map (entry_of s)) r.at.split in
      let parts = split ∙ map-append_entries s r.at.ws r.at.zs in
      ap (remove_entry k) parts
      ∙ remove_entry-skip s k r.at.ws (map (entry_of s) r.at.zs) r.at.below
      ∙ ap (λ (l : List Entry). map (entry_of s) r.at.ws ++ l)
          (remove_entry_above s k r.at.zs above)
      ∙ sym parts

  unchanged-Removed : All (λ b. bytes_lt k (key_of s b) ≡ true) r.at.zs → Removed s k s
  unchanged-Removed above = record {
    entries = sym (unchanged above);
    size = λ c small. c ∙ ap total_size (sym (unchanged above));
  }

remove-Removed : (s : SkipList) (k : Bytes) → IsValid s → Removed s k (remove s k)
unfolding remove
remove-Removed s k h = go r.at.zs refl (Next-cases s k cur r.at.zs r.at.rest stops)
  where
    cur : ℕ
    cur = (search_from_head s k).0

    upd : ℕ → Option ℕ
    upd = (search_from_head s k).1

    r : Searched s k h.chain cur upd
    r = search-Searched s k h.chain h.holds

    stops : Stops s k 0 cur
    stops = Searched-Stops s k h.chain cur upd h.holds.has_level r

    rising : Rising s r.at.zs
    rising = At-Rising s k s.head cur h.chain r.at h.holds.rising

    Above : List ℕ → Type 0
    Above = All (λ b. bytes_lt k (key_of s b) ≡ true)

    go : (zs : List ℕ) → r.at.zs ≡ zs → Next s k cur zs → Removed s k (remove s k)
    go [] e (nothing f) =
        rw (f, remove) (unchanged-Removed s k h.chain h.holds cur upd r (subst Above (sym e) tt))
    go (a ∷ zs) e (found _ _ f ek) =
        let same : bytes_eq (key_of s a) k ≡ true = rw ek (bytes_eq_refl k) in
        rw (f, remove, same) (unlinked-Removed s k h.chain h.holds cur upd r a zs e f ek _)
    go (a ∷ zs) e (larger _ _ f gt) =
        let other : bytes_eq (key_of s a) k ≡ false = gt→ne (key_of s a) k gt in
        rw (f, remove, other)
          (unchanged-Removed s k h.chain h.holds cur upd r
            (subst Above (sym e) (gt, above_trans s k a zs gt (subst (Rising s) e rising).0)))

-- After `remove` from a well-formed list, `flush` reports the entries that it reported before
-- without that of the key, or the same if there was none.
pub flush-remove :
    (s : SkipList) (k : Bytes) → IsValid s → flush (remove s k) ≡ remove_entry k (flush s)
flush-remove s k h = (remove-Removed s k h).entries

-- If the size is the sum of what the entries take, it is that sum also after `remove`.
pub remove-CountsSize :
    (s : SkipList) (k : Bytes) → IsValid s → CountsSize s → CountsSize (remove s k)
remove-CountsSize s k h c =
    let r = remove-Removed s k h in
    record {
      counted = r.size c.counted c.fits ∙ ap total_size (sym r.entries);
      fits = rw r.entries (omega (arith, c.fits, total_size-remove_entry k (flush s)));
    }
