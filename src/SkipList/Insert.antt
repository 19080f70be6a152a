-- ===== src/SkipList/Insert.antt =====
-- `put` of src/skiplist/skipList.cpp on a key that is not there: the new node stands in its place
-- in the order of level 0, and every pointer of a higher level still leads further on.
use tiny_lsm_tree.Common.{ℕ, ◌+◌, ◌≤◌, ◌<◌, Option, some, true, List, [], ◌∷◌}
use tiny_lsm_tree.Common.{
  ◌++◌, ◌≡◌, ◌≢◌, ◌⊎◌, inl, inr, refl, sym, ap, ◌∙◌, subst, arith, map, Bytes,
}
use tiny_lsm_tree.Common.{bytes_lt, length-append, Option-cases}
use tiny_lsm_tree.Common.{All, All-imp, All-append, All-append_left, All-append_right}
use tiny_lsm_tree.Common.{In, In-append_right}
use tiny_lsm_tree.SkipList.Node.{SkipList, key_of, forward_of}
use tiny_lsm_tree.SkipList.Find.{Entry, entry_of}
use tiny_lsm_tree.SkipList.Chain.{Linked, Linked-In, Rising, Holds, Ends, Stops}
use tiny_lsm_tree.SkipList.View.{put_entry, put_entry-skip, put_entry_above, map-append_entries}

-- `t` is `s` with the node `a` linked behind the nodes `upd i` on the levels below `n`.
pub record LinkedIn (s t : SkipList) (a n : ℕ) (upd : ℕ → Option ℕ) : Type 0 where
  pub new_edge :
      (i b : ℕ)
      → forward_of t a i ≡ some b
      → (u : ℕ) × (i < n) × (upd i ≡ some u) × (forward_of s u i ≡ some b)
  pub new_bottom : (u : ℕ) → upd 0 ≡ some u → forward_of t a 0 ≡ forward_of s u 0
  pub old_edge :
      (p i b : ℕ) → p ≢ a → forward_of t p i ≡ some b → (b ≡ a) ⊎ (forward_of s p i ≡ some b)
  pub passed_bottom : (u : ℕ) → u ≢ a → upd 0 ≡ some u → forward_of t u 0 ≡ some a
  pub kept : (p i : ℕ) → p ≢ a → (i < n → upd i ≢ some p) → forward_of t p i ≡ forward_of s p i
  pub same_entry : (p : ℕ) → p ≢ a → entry_of t p ≡ entry_of s p

In-insert : (a b : ℕ) (ws zs : List ℕ) → In b (ws ++ zs) → In b (ws ++ a ∷ zs)
In-insert a b [] zs m = inr m
In-insert a b (w ∷ ws) zs (inl e) = inl e
In-insert a b (w ∷ ws) zs (inr m) = inr (In-insert a b ws zs m)

In-middle : (a : ℕ) (ws zs : List ℕ) → In a (ws ++ a ∷ zs)
In-middle a ws zs = In-append_right a ws (a ∷ zs) (inl refl)

pub All-insert {κ} :
    (P : ℕ → Type κ) (a : ℕ) (ws zs : List ℕ) → P a → All P (ws ++ zs) → All P (ws ++ a ∷ zs)
All-insert P a ws zs pa h =
    All-append P ws (a ∷ zs) (All-append_left P ws zs h) (pa, All-append_right P ws zs h)

-- Nodes that no `upd i` names keep their pointers.
Linked-after :
    (s t : SkipList) (a n : ℕ) (upd : ℕ → Option ℕ) (p : ℕ) (ys : List ℕ)
    → LinkedIn s t a n upd
    → All (λ b. (b ≢ a) × ((i : ℕ) → i < n → upd i ≢ some b)) (p ∷ ys)
    → Linked s p ys
    → Linked t p ys
Linked-after s t a n upd p [] l g h = λ i. l.kept p i g.0.0 (g.0.1 i) ∙ h i
Linked-after s t a n upd p (b ∷ ys) l g h = (
  l.kept p 0 g.0.0 (g.0.1 0) ∙ h.0,
  λ i c e. h.1 i c (sym (l.kept p i g.0.0 (g.0.1 i)) ∙ e),
  Linked-after s t a n upd b ys l g.1 h.2,
)

-- The search has passed `ws`, `zs` is to come; `k` is the new key, which no node has.
module _ (s t : SkipList) (k : Bytes) (a n cur : ℕ) (upd : ℕ → Option ℕ) (ws zs : List ℕ)
    (l : LinkedIn s t a n upd) (fresh : All (λ b. b ≢ a) (ws ++ zs)) (head_ne : s.head ≢ a)
    (bottom : upd 0 ≡ some cur) (stops : Stops s k 0 cur)
    (below : All (λ b. bytes_lt (key_of s b) k ≡ true) ws)
    (above : All (λ b. bytes_lt k (key_of s b) ≡ true) zs)
    (not_after : All (λ b. (b ≢ a) × ((i : ℕ) → i < n → upd i ≢ some b)) zs)
    (edges : (i u b : ℕ) → i < n → upd i ≡ some u → forward_of s u i ≡ some b → In b zs) where
  new_edges : (i b : ℕ) → forward_of t a i ≡ some b → In b zs
  new_edges i b e = let (u, lt, eu, eb) = l.new_edge i b e in edges i u b lt eu eb

  Linked-new : (vs : List ℕ) → vs ≡ zs → Linked s cur vs → Linked t a vs
  Linked-new [] q h = λ i. elim (Option-cases (forward_of t a i)) [
    | inl e ↦ e
    | inr (b, e) ↦ absurd (subst (In b) (sym q) (new_edges i b e))
  ]
  Linked-new (v ∷ vs) q h = (
    l.new_bottom cur bottom ∙ h.0,
    λ i b e. subst (In b) (sym q) (new_edges i b e),
    Linked-after s t a n upd v vs l
        (subst (All (λ b. (b ≢ a) × ((i : ℕ) → i < n → upd i ≢ some b))) (sym q) not_after) h.2,
  )

  Linked-before :
      (p : ℕ) (vs : List ℕ)
      → p ≢ a
      → All (λ b. b ≢ a) vs
      → All (λ b. bytes_lt (key_of s b) k ≡ true) vs
      → Ends p vs cur
      → Linked s cur zs
      → Linked s p (vs ++ zs)
      → Linked t p (vs ++ a ∷ zs)
  Linked-before p [] ne f bl e lz h = (
    l.passed_bottom p ne (bottom ∙ ap some (sym e)),
    λ i b eb. elim (l.old_edge p i b ne eb) [
      | inl q ↦ inl q
      | inr old ↦ inr (Linked-In s p i b zs h old)
    ],
    Linked-new zs refl lz,
  )
  Linked-before p (v ∷ vs) ne f bl e lz h = (
    l.kept p 0 ne (λ lt q. not_cur (cc (q, bottom))) ∙ h.0,
    λ i b eb. elim (l.old_edge p i b ne eb) [
      | inl q ↦ subst (λ (x : ℕ). In x (v ∷ (vs ++ a ∷ zs))) (sym q) (In-middle a (v ∷ vs) zs)
      | inr old ↦ In-insert a b (v ∷ vs) zs (h.1 i b old)
    ],
    Linked-before v vs f.0 f.1 bl.1 e lz h.2,
  )
    where
      -- the search has not stopped before `v`
      not_cur : cur ≡ p → ⊥
      not_cur q = cc (stops v (ap (λ (x : ℕ). forward_of s x 0) q ∙ h.0), bl.0)

  same_key : (p : ℕ) → p ≢ a → key_of t p ≡ key_of s p
  same_key p ne = ap (λ (e : Entry). e.key) (l.same_entry p ne)

  keys_kept :
      (x : Bytes) (vs : List ℕ)
      → All (λ b. b ≢ a) vs
      → All (λ b. bytes_lt x (key_of s b) ≡ true) vs
      → All (λ b. bytes_lt x (key_of t b) ≡ true) vs
  keys_kept x [] f h = tt
  keys_kept x (v ∷ vs) f h = (rw (same_key v f.0) h.0, keys_kept x vs f.1 h.1)

  Rising-kept : (vs : List ℕ) → All (λ b. b ≢ a) vs → Rising s vs → Rising t vs
  Rising-kept [] f h = tt
  Rising-kept (v ∷ vs) f h =
      (rw (same_key v f.0) (keys_kept (key_of s v) vs f.1 h.0), Rising-kept vs f.1 h.1)

  Rising-insert :
      key_of t a ≡ k
      → (vs : List ℕ) → All (λ b. b ≢ a) (vs ++ zs)
      → All (λ b. bytes_lt (key_of s b) k ≡ true) vs
      → Rising s (vs ++ zs)
      → Rising t (vs ++ a ∷ zs)
  Rising-insert e [] f bl h = (rw e (keys_kept k zs f above), Rising-kept zs f h)
  Rising-insert e (v ∷ vs) f bl h = (
    rw (same_key v f.0) (
        All-insert (λ b. bytes_lt (key_of s v) (key_of t b) ≡ true) a vs zs (rw e bl.0)
          (keys_kept (key_of s v) (vs ++ zs) f.1 h.0)),
    Rising-insert e vs f.1 bl.1 h.1,
  )

  entries_kept : (vs : List ℕ) → All (λ b. b ≢ a) vs → map (entry_of t) vs ≡ map (entry_of s) vs
  entries_kept [] f = refl
  entries_kept (v ∷ vs) f = rw (l.same_entry v f.0, entries_kept vs f.1)

  pub entries-insert :
      (v : Bytes) (tid : ℕ)
      → entry_of t a ≡ record { key = k; value = v; tranc_id = tid }
      → map (entry_of t) (ws ++ a ∷ zs) ≡ put_entry k v tid (map (entry_of s) (ws ++ zs))
  entries-insert v tid e = rw (
    map-append_entries t ws (a ∷ zs),
    map-append_entries s ws zs,
    put_entry-skip s k v tid ws (map (entry_of s) zs) below,
    put_entry_above s k v tid zs above,
    e,
    entries_kept ws (All-append_left (λ b. b ≢ a) ws zs fresh),
    entries_kept zs (All-append_right (λ b. b ≢ a) ws zs fresh),
  )

  pub insert-Holds :
      Holds s (ws ++ zs)
      → Linked s cur zs
      → Ends s.head ws cur
      → key_of t a ≡ k
      → t.head ≡ s.head
      → a ≡ s.next
      → t.next ≡ s.next + 1
      → 1 ≤ t.current_level
      → ((i : ℕ) → t.current_level ≤ i → (n ≤ i) × (s.current_level ≤ i))
      → Holds t (ws ++ a ∷ zs)
  insert-Holds h lz en e th an tn tl hi = record {
    linked = rw th (
        Linked-before s.head ws head_ne (All-append_left (λ b. b ≢ a) ws zs fresh) below en lz
          h.linked);
    rising = Rising-insert e ws fresh below h.rising;
    no_head = rw th (All-insert (λ b. b ≢ s.head) a ws zs (λ q. head_ne (sym q)) h.no_head);
    allocated =
        All-insert (λ b. b < t.next) a ws zs (omega arith)
          (All-imp (λ b. b < s.next) (λ b. b < t.next) (ws ++ zs) (λ b m lt. omega arith)
            h.allocated);
    head_allocated = omega (arith, h.head_allocated);
    room = omega (arith, h.room, length-append ws zs, length-append ws (a ∷ zs));
    has_level = tl;
    head_levels = λ i le. rw th (
        l.kept s.head i head_ne (λ lt. absurd (omega (arith, hi i le)))
        ∙ h.head_levels i (hi i le).1);
  }
