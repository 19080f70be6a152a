-- ===== src/SkipList/Overwrite.antt =====
-- `put` of src/skiplist/skipList.cpp on a key that is there: the value is replaced in place.
use tiny_lsm_tree.Common.{ℕ, true, false, List, [], ◌∷◌}
use tiny_lsm_tree.Common.{◌++◌, ◌≡◌, ◌≢◌, refl, sym, ap, ◌∙◌, arith, map, Bytes}
use tiny_lsm_tree.Common.{bytes_lt, bytes_eq, bytes_eq_refl, bytes_lt_irrefl}
use tiny_lsm_tree.Common.{All, All-imp, ◌==◌}
use tiny_lsm_tree.SkipList.Node.{SkipList, key_of, forward_of}
use tiny_lsm_tree.SkipList.Find.{Entry, entry_of}
use tiny_lsm_tree.SkipList.Write.{overwrite}
use tiny_lsm_tree.SkipList.Chain.{Linked, Rising, Holds}
use tiny_lsm_tree.SkipList.View.{put_entry, put_entry-skip, map-append_entries}

pub forward-overwrite :
    (s : SkipList) (a : ℕ) (v : Bytes) (p i : ℕ)
    → forward_of (overwrite s a v) p i ≡ forward_of s p i
unfolding overwrite
forward-overwrite s a v p i = ground arith

pub key-overwrite :
    (s : SkipList) (a : ℕ) (v : Bytes) (p : ℕ) → key_of (overwrite s a v) p ≡ key_of s p
unfolding overwrite
key-overwrite s a v p = ground arith

module _ (s t : SkipList) (same : (p i : ℕ) → forward_of t p i ≡ forward_of s p i) where
  Linked-same : (p : ℕ) (ys : List ℕ) → Linked s p ys → Linked t p ys
  Linked-same p [] h = λ i. same p i ∙ h i
  Linked-same p (a ∷ ys) h =
      (same p 0 ∙ h.0, λ i b e. h.1 i b (sym (same p i) ∙ e), Linked-same a ys h.2)

pub Rising-same :
    (s t : SkipList)
    → ((p : ℕ) → key_of t p ≡ key_of s p)
    → (ys : List ℕ) → Rising s ys
    → Rising t ys
Rising-same s t keys [] h = tt
Rising-same s t keys (a ∷ ys) h = (
  All-imp (λ b. bytes_lt (key_of s a) (key_of s b) ≡ true)
      (λ b. bytes_lt (key_of t a) (key_of t b) ≡ true) ys (λ b m g. rw (keys a, keys b) g) h.0,
  Rising-same s t keys ys h.1,
)

pub overwrite-Holds :
    (s : SkipList) (a : ℕ) (v : Bytes) (xs : List ℕ) → Holds s xs → Holds (overwrite s a v) xs
overwrite-Holds s a v xs h = record {
  linked =
      unfold overwrite in
      Linked-same s (overwrite s a v) (forward-overwrite s a v) s.head xs h.linked;
  rising = Rising-same s (overwrite s a v) (key-overwrite s a v) xs h.rising;
  no_head = unfold overwrite in h.no_head;
  allocated = unfold overwrite in h.allocated;
  head_allocated = unfold overwrite in h.head_allocated;
  room = unfold overwrite in h.room;
  has_level = unfold overwrite in h.has_level;
  head_levels = λ i le.
      forward-overwrite s a v (overwrite s a v).head i ∙ (unfold overwrite in h.head_levels i le);
}

-- Nodes with other keys keep their entries.
entries_other :
    (s : SkipList) (a : ℕ) (v : Bytes) (ys : List ℕ)
    → All (λ b. b ≢ a) ys
    → map (entry_of (overwrite s a v)) ys ≡ map (entry_of s) ys
unfolding overwrite
entries_other s a v [] h = refl
entries_other s a v (y ∷ ys) h =
    let other : (y == a) ≡ false = ground (arith, h.0) in
    rw other (ap (λ (l : List Entry). entry_of s y ∷ l) (entries_other s a v ys h.1))

entry_self :
    (s : SkipList) (a : ℕ) (v : Bytes)
    → entry_of (overwrite s a v) a
      ≡ record { key = key_of s a; value = v; tranc_id = (s.store a).tranc_id }
unfolding overwrite
entry_self s a v = let self : (a == a) ≡ true = ground arith in rw self

lt→ne_addr :
    (s : SkipList) (k : Bytes) (a b : ℕ) → key_of s a ≡ k → bytes_lt (key_of s b) k ≡ true → b ≢ a
lt→ne_addr s k a b e lt q =
    cc (lt, bytes_lt_irrefl k, ap (λ (x : Bytes). bytes_lt x k) (ap (key_of s) q ∙ e))

gt→ne_addr : (s : SkipList) (a b : ℕ) → bytes_lt (key_of s a) (key_of s b) ≡ true → b ≢ a
gt→ne_addr s a b lt q =
    cc (lt, bytes_lt_irrefl (key_of s a), ap (λ (x : ℕ). bytes_lt (key_of s a) (key_of s x)) q)

pub put_entry_here :
    (s : SkipList) (k v : Bytes) (t a : ℕ) (zs : List ℕ)
    → key_of s a ≡ k
    → put_entry k v t (map (entry_of s) (a ∷ zs))
      ≡ record { key = key_of s a; value = v; tranc_id = (s.store a).tranc_id }
        ∷ map (entry_of s) zs
unfolding put_entry
put_entry_here s k v t a zs e =
    let lt : bytes_lt (key_of s a) k ≡ false = rw e (bytes_lt_irrefl k) in
    let eq : bytes_eq (key_of s a) k ≡ true = rw e (bytes_eq_refl k) in rw (lt, eq)

pub entries-overwrite :
    (s : SkipList) (k v : Bytes) (t a : ℕ) (ws zs : List ℕ)
    → All (λ b. bytes_lt (key_of s b) k ≡ true) ws
    → key_of s a ≡ k
    → Rising s (a ∷ zs)
    → map (entry_of (overwrite s a v)) (ws ++ a ∷ zs)
      ≡ put_entry k v t (map (entry_of s) (ws ++ a ∷ zs))
entries-overwrite s k v t a ws zs below e r = rw (
  map-append_entries s ws (a ∷ zs),
  put_entry-skip s k v t ws (map (entry_of s) (a ∷ zs)) below,
  put_entry_here s k v t a zs e,
  map-append_entries (overwrite s a v) ws (a ∷ zs),
  entry_self s a v,
  entries_other s a v ws (All-imp _ _ ws (λ b m lt. lt→ne_addr s k a b e lt) below),
  entries_other s a v zs (All-imp _ _ zs (λ b m lt. gt→ne_addr s a b lt) r.0),
)
