-- ===== src/SkipList/Put.antt =====
-- `put` of src/skiplist/skipList.cpp: it keeps the list well formed, and changes the entries as
-- the specification says.
use tiny_lsm_tree.Common.{ℕ, ◌+◌, ◌%◌, ◌≤◌, ◌<◌, Option, some, true, false, List, [], ◌∷◌}
use tiny_lsm_tree.Common.{◌++◌, ◌≡◌, ◌≢◌, refl, sym, ap, ◌∙◌, subst, arith, map, Bytes}
use tiny_lsm_tree.Common.{bytes_lt, bytes_eq, bytes_eq_refl}
use tiny_lsm_tree.Common.{All, All-imp}
use tiny_lsm_tree.SkipList.Node.{SkipList, key_of, random_level}
use tiny_lsm_tree.SkipList.Find.{Entry, entry_of, flush, search_from_head}
use tiny_lsm_tree.SkipList.Write.{put, insert_at, insert_new, raise, overwrite, node_size, size_mod}
use tiny_lsm_tree.SkipList.Chain.{Rising, Holds, IsValid, Stops}
use tiny_lsm_tree.SkipList.Search.{At-Rising}
use tiny_lsm_tree.SkipList.View.{put_entry, flush-entries, above_trans, gt→ne}
use tiny_lsm_tree.SkipList.Get.{
  Searched, search-Searched, Searched-Stops, Next, found, larger, nothing, Next-cases,
}
use tiny_lsm_tree.SkipList.Levels.{
  random_level_pos, random_level_bounds, raise-Passed, upd_edges, upd_not_after, upd_allocated,
}
use tiny_lsm_tree.SkipList.Overwrite.{overwrite-Holds, entries-overwrite}
use tiny_lsm_tree.SkipList.Joined.{
  joined, Linked_in-joined, entry-new, head-joined, next-joined, level-joined, size-joined,
}
use tiny_lsm_tree.SkipList.Size.{
  total_size, total_size_insert, total_size_overwrite, length-le-total,
}
use tiny_lsm_tree.SkipList.Tower.{level_of}
use tiny_lsm_tree.SkipList.Towered.{Stands, IsTowered, search-tall}
use tiny_lsm_tree.SkipList.Search.{Passed}
use tiny_lsm_tree.SkipList.View.{lt→not_gt}
use tiny_lsm_tree.SkipList.PutStands.{Stands-joined, Stands-overwrite}
use tiny_lsm_tree.SkipList.Insert.{insert-Holds, entries-insert}

-- The chain after `put`, and what `flush` reports then.
pub record Puts (s : SkipList) (k v : Bytes) (tid : ℕ) (xs : List ℕ) (t : SkipList) : Type 0 where
  pub chain : List ℕ
  pub holds : Holds t chain
  pub entries : map (entry_of t) chain ≡ put_entry k v tid (map (entry_of s) xs)
  pub stands : Stands s xs → Stands t chain
  pub size :
      (s.size_bytes ≡ total_size (map (entry_of s) xs))
        × (total_size (map (entry_of s) xs) < size_mod)
      → total_size (put_entry k v tid (map (entry_of s) xs)) < size_mod
      → t.size_bytes ≡ total_size (put_entry k v tid (map (entry_of s) xs))

module _ (s : SkipList) (k v : Bytes) (tid : ℕ) (xs : List ℕ) (h : Holds s xs) where
  raise_bottom : (n cur : ℕ) (upd : ℕ → Option ℕ) → upd 0 ≡ some cur → raise s n upd 0 ≡ some cur
  unfolding raise
  raise_bottom n cur upd e = ground (arith, h.has_level)

  insert_size :
      (ws zs : List ℕ)
      → xs ≡ ws ++ zs
      → All (λ b. bytes_lt (key_of s b) k ≡ true) ws
      → All (λ b. bytes_lt k (key_of s b) ≡ true) zs
      → s.size_bytes ≡ total_size (map (entry_of s) xs)
      → total_size (put_entry k v tid (map (entry_of s) xs)) < size_mod
      → (s.size_bytes + node_size k v) % size_mod
        ≡ total_size (put_entry k v tid (map (entry_of s) xs))
  insert_size ws zs split below above c small =
      let e = total_size_insert s k v tid ws zs below above in
      let e' = rw (← split) at e in omega arith

  overwrite_size :
      (a : ℕ) (ws zs : List ℕ)
      → xs ≡ ws ++ a ∷ zs
      → All (λ b. bytes_lt (key_of s b) k ≡ true) ws
      → key_of s a ≡ k
      → s.size_bytes ≡ total_size (map (entry_of s) xs)
      → total_size (map (entry_of s) xs) < size_mod
      → total_size (put_entry k v tid (map (entry_of s) xs)) < size_mod
      → (overwrite s a v).size_bytes ≡ total_size (put_entry k v tid (map (entry_of s) xs))
  unfolding overwrite
  overwrite_size a ws zs split below ek c fits small =
      let e = rw (← split) at (total_size_overwrite s k v tid ws zs below a ek) in
      let l = rw (← split) at (length-le-total s ws zs a) in omega arith

  insert-Puts :
      (n drawn cur : ℕ) (upd : ℕ → Option ℕ) (r : Searched s k xs cur upd)
      → 1 ≤ n
      → (1 ≤ s.max_level → n ≤ s.max_level)
      → (Stands s xs → (i u : ℕ) → upd i ≡ some u → i < level_of s u)
      → All (λ b. bytes_lt k (key_of s b) ≡ true) r.at.zs
      → Puts s k v tid xs (insert_at s k v tid (n, drawn) upd)
  unfolding insert_at
  insert-Puts n drawn cur upd r pos high tall above =
      let up = raise s n upd in
      let t = joined s k v tid n drawn up in
      let ws = r.at.ws in
      let zs = r.at.zs in
      let split = r.at.split in
      let passed = raise-Passed s k xs h n upd r.passed in
      let low = upd_allocated s k xs h n up passed in
      let l =
        Linked_in-joined s k v tid n drawn up low pos
          (λ i lt. ((passed i lt).0, (passed i lt).1)) in
      let fresh : All (λ b. b ≢ s.next) (ws ++ zs) =
        subst (All (λ b. b ≢ s.next)) split
          (All-imp (λ b. b < s.next) (λ b. b ≢ s.next) xs (λ b m lt q. omega arith) h.allocated) in
      let head_ne : s.head ≢ s.next = λ q. omega (arith, h.head_allocated) in
      let bottom : up 0 ≡ some cur = raise_bottom n cur upd r.last in
      let stops = Searched-Stops s k xs cur upd h.has_level r in
      let not_after = upd_not_after s k xs h n up passed ws zs split above in
      let edges = upd_edges s k xs h n up passed ws zs split r.at.below in
      let new = entry-new s k v tid n drawn up in
      let hold : Holds t (ws ++ s.next ∷ zs) =
        insert-Holds s t k s.next n cur up ws zs l fresh head_ne bottom stops r.at.below above
          not_after edges (subst (Holds s) split h) r.at.rest r.at.ends
          (ap (λ (e : Entry). e.key) new) (head-joined s k v tid n drawn up) refl
          (next-joined s k v tid n drawn up)
          (omega (arith, h.has_level, level-joined s k v tid n drawn up))
          (λ i le. omega (arith, level-joined s k v tid n drawn up)) in
      record {
        chain = ws ++ s.next ∷ zs;
        holds = hold;
        stands = λ st.
            Stands-joined s k v tid n drawn upd ws zs (subst (Stands s) split st) r.at.below
              (All-imp (λ b. bytes_lt k (key_of s b) ≡ true) (λ b. bytes_lt (key_of s b) k ≡ false)
                zs (λ b m gt. lt→not_gt k (key_of s b) gt) above)
              (λ i lt. subst (λ (l : List ℕ). Passed s k s.head l upd i) split (r.passed i lt))
              (tall st) (pos, high (omega (arith, h.has_level, st.top))) hold;
        entries = rw split (
            entries-insert s t k s.next n cur up ws zs l fresh head_ne bottom stops r.at.below above
              not_after edges v tid new);
        size = λ c small.
            size-joined s k v tid n drawn up ∙ insert_size ws zs split r.at.below above c.0 small;
      }

  overwrite-Puts :
      (cur a : ℕ) (upd : ℕ → Option ℕ) (zs : List ℕ) (r : Searched s k xs cur upd)
      → r.at.zs ≡ a ∷ zs
      → key_of s a ≡ k
      → Puts s k v tid xs (overwrite s a v)
  overwrite-Puts cur a upd zs r e ek =
      let split : xs ≡ r.at.ws ++ a ∷ zs = r.at.split ∙ ap (λ (l : List ℕ). r.at.ws ++ l) e in
      record {
        chain = xs;
        holds = overwrite-Holds s a v xs h;
        stands = Stands-overwrite s a v xs;
        entries =
            subst
              (λ (l : List ℕ).
                map (entry_of (overwrite s a v)) l ≡ put_entry k v tid (map (entry_of s) l))
              (sym split)
              (entries-overwrite s k v tid a r.at.ws zs r.at.below ek
                (subst (Rising s) e (At-Rising s k s.head cur xs r.at h.rising)));
        size = λ c small. overwrite_size a r.at.ws zs split r.at.below ek c.0 c.1 small;
      }

  insert_new-Puts :
      (cur : ℕ) (upd : ℕ → Option ℕ) (r : Searched s k xs cur upd)
      → (Stands s xs → (i u : ℕ) → upd i ≡ some u → i < level_of s u)
      → All (λ b. bytes_lt k (key_of s b) ≡ true) r.at.zs
      → Puts s k v tid xs (insert_new s k v tid upd)
  unfolding insert_new
  insert_new-Puts cur upd r tall above =
      insert-Puts (random_level s).0 (random_level s).1 cur upd r (random_level_pos s)
        (λ h1. (random_level_bounds s h1).1) tall above

  pub put-Puts : Puts s k v tid xs (put s k v tid)
  unfolding put
  put-Puts = go r.at.zs refl (Next-cases s k cur r.at.zs r.at.rest stops)
    where
      cur : ℕ
      cur = (search_from_head s k).0

      upd : ℕ → Option ℕ
      upd = (search_from_head s k).1

      r : Searched s k xs cur upd
      r = search-Searched s k xs h

      stops : Stops s k 0 cur
      stops = Searched-Stops s k xs cur upd h.has_level r

      tall : Stands s xs → (i u : ℕ) → upd i ≡ some u → i < level_of s u
      tall st = search-tall s k st.edges (omega (arith, st.head_level, st.top))

      rising : Rising s r.at.zs
      rising = At-Rising s k s.head cur xs r.at h.rising

      go : (zs : List ℕ) → r.at.zs ≡ zs → Next s k cur zs → Puts s k v tid xs (put s k v tid)
      go [] e (nothing f) =
          rw (f, put)
            (insert_new-Puts cur upd r tall
              (subst (All (λ b. bytes_lt k (key_of s b) ≡ true)) (sym e) tt))
      go (a ∷ zs) e (found _ _ f ek) =
          let same : bytes_eq (key_of s a) k ≡ true = rw ek (bytes_eq_refl k) in
          rw (f, put, same) (overwrite-Puts cur a upd zs r e ek)
      go (a ∷ zs) e (larger _ _ f gt) =
          let other : bytes_eq (key_of s a) k ≡ false = gt→ne (key_of s a) k gt in
          let rest = subst (Rising s) e rising in
          rw (f, put, other)
            (insert_new-Puts cur upd r tall (
              subst (All (λ b. bytes_lt k (key_of s b) ≡ true)) (sym e)
                (gt, above_trans s k a zs gt rest.0)))

-- `put` to a well-formed list leaves it well formed, whatever levels are drawn.
pub put-IsValid : (s : SkipList) (k v : Bytes) (tid : ℕ) → IsValid s → IsValid (put s k v tid)
put-IsValid s k v tid h =
    let p = put-Puts s k v tid h.chain h.holds in record { chain = p.chain; holds = p.holds }

-- After `put` to a well-formed list, `flush` reports the entries that it reported before, in key
-- order, with the value of the key replaced and its transaction kept, or with the new entry in its
-- place.
pub flush-put :
    (s : SkipList) (k v : Bytes) (tid : ℕ)
    → IsValid s
    → flush (put s k v tid) ≡ put_entry k v tid (flush s)
flush-put s k v tid h =
    let p = put-Puts s k v tid h.chain h.holds in
    flush-entries (put s k v tid) p.chain p.holds
    ∙ p.entries
    ∙ ap (put_entry k v tid) (sym (flush-entries s h.chain h.holds))

pub put-IsTowered : (s : SkipList) (k v : Bytes) (tid : ℕ) → IsTowered s → IsTowered (put s k v tid)
put-IsTowered s k v tid h =
    let p = put-Puts s k v tid h.chain h.stands.holds in
    record { chain = p.chain; stands = p.stands h.stands }
