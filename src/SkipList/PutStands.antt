-- ===== src/SkipList/PutStands.antt =====
-- After `put` of src/skiplist/skipList.cpp the list is in order on every level.
use tiny_lsm_tree.Common.{ℕ, ◌+◌, ◌≤◌, ◌<◌, Option, some, true, false}
use tiny_lsm_tree.Common.{List, ◌∷◌, ◌++◌, ltb, ◌==◌, Bool-cases}
use tiny_lsm_tree.Common.{◌≡◌, ◌≢◌, inl, inr, refl, sym, ap, ◌∙◌, subst, arith, Bytes}
use tiny_lsm_tree.Common.{bytes_lt, All-append_left, All, All-imp, All-In, if◌then◌else◌}
use tiny_lsm_tree.SkipList.Node.{SkipList, key_of, forward_of}
use tiny_lsm_tree.SkipList.Chain.{Holds}
use tiny_lsm_tree.SkipList.Insert.{All-insert}
use tiny_lsm_tree.SkipList.Write.{raise, overwrite}
use tiny_lsm_tree.SkipList.Overwrite.{overwrite-Holds, forward-overwrite}
use tiny_lsm_tree.SkipList.Search.{Passed}
use tiny_lsm_tree.SkipList.Levels.{raise-Passed, upd_allocated}
use tiny_lsm_tree.SkipList.Joined.{top-joined, next-joined, head-joined, joined}
use tiny_lsm_tree.SkipList.Tower.{level_of, Towers, Towers-same}
use tiny_lsm_tree.SkipList.Towered.{Edges, Stands, Peak, raise-Peak}
use tiny_lsm_tree.SkipList.PutTowers.{Inserted, joined-Inserted, Towers-before}

module _ (s t : SkipList) (k : Bytes) (a n : ℕ) (upd : ℕ → Option ℕ) (ws zs : List ℕ)
    (d : Inserted s t a n upd) (h : Stands s (ws ++ zs))
    (below : All (λ b. bytes_lt (key_of s b) k ≡ true) ws)
    (behind : All (λ b. bytes_lt (key_of s b) k ≡ false) zs) (head_ne : s.head ≢ a)
    (fresh : All (λ b. b ≢ a) (ws ++ zs))
    (peak : (i : ℕ) → i < n → (u : ℕ) × (upd i ≡ some u) × Peak s k ws zs h behind i u) where
  Edges-insert : t.next ≡ s.next + 1 → a ≡ s.next → Edges t
  Edges-insert tn an p i b e = elim (Bool-cases (p == a)) [
    | inl q ↦
        let pa : p ≡ a = ground arith in new i b (ap (λ (x : ℕ). forward_of t x i) (sym pa) ∙ e)
    | inr q ↦ old p i b (ground arith) e
  ]
    where
      kept : (p i b : ℕ) → forward_of s p i ≡ some b → (i < level_of t b) × (b < t.next)
      kept p i b f =
          let (lt, al) = h.edges p i b f in let l = d.old_level b (λ q. omega arith) in omega arith

      new : (i b : ℕ) → forward_of t a i ≡ some b → (i < level_of t b) × (b < t.next)
      new i b f = elim (Bool-cases (ltb i n)) [
        | inr high ↦ cc (d.new_above i (ground arith), f)
        | inl low ↦
            let (u, eu, pk) = peak i (ground arith) in
            kept u i b (sym (d.new_below i u (ground arith) eu) ∙ f)
      ]

      old : (p i b : ℕ) → p ≢ a → forward_of t p i ≡ some b → (i < level_of t b) × (b < t.next)
      old p i b ne f = elim (Bool-cases (ltb i n)) [
        | inr high ↦ kept p i b (sym (d.old_above p i ne (ground arith)) ∙ f)
        | inl low ↦
            let (u, eu, pk) = peak i (ground arith) in
            let to = d.old_below p i u ne (ground arith) eu in
            elim (Bool-cases (p == u)) [
              | inr q ↦ kept p i b (sym (rw q at to) ∙ f)
              | inl q ↦
                  let ab : some a ≡ some b = sym (rw q at to) ∙ f in
                  let ab' : a ≡ b = cc ab in (rw (← ab', d.new_level) (ground arith), omega arith)
            ]
      ]

  pub Stands-insert :
      t.next ≡ s.next + 1
      → a ≡ s.next
      → t.head ≡ s.head
      → (t.max_level ≡ s.max_level)
        × (t.current_level ≡ (if ltb s.current_level n then n else s.current_level))
      → (1 ≤ n) × (n ≤ s.max_level)
      → Holds t (ws ++ a ∷ zs)
      → Stands t (ws ++ a ∷ zs)
  Stands-insert tn an th tl nb hold = record {
    holds = hold;
    towers =
        subst (λ (x : ℕ). Towers t x (ws ++ a ∷ zs)) (sym th)
          (Towers-before s t k a n upd ws zs d h below behind head_ne fresh peak s.head ws
            (head_ne, All-append_left (λ b. b ≢ a) ws zs fresh) (λ b m. m) below h.towers);
    edges = Edges-insert tn an;
    head_level = ap (level_of t) th ∙ d.old_level s.head head_ne ∙ h.head_level ∙ sym tl.0;
    top = ground (arith, h.top);
    low =
        All-insert (λ b. (1 ≤ level_of t b) × (level_of t b ≤ t.current_level)) a ws zs
          (rw d.new_level (ground arith))
          (All-imp (λ b. (1 ≤ level_of s b) × (level_of s b ≤ s.current_level))
            (λ b. (1 ≤ level_of t b) × (level_of t b ≤ t.current_level)) (ws ++ zs)
            (λ b m g.
              let l = d.old_level b (All-In (λ (x : ℕ). x ≢ a) b (ws ++ zs) fresh m) in
              ground arith)
            h.low);
  }

-- The new node of `put` in a list whose search for `k` has passed `ws`.
pub Stands-joined :
    (s : SkipList) (k v : Bytes) (tid n drawn : ℕ) (upd : ℕ → Option ℕ) (ws zs : List ℕ)
    → Stands s (ws ++ zs)
    → All (λ b. bytes_lt (key_of s b) k ≡ true) ws
    → All (λ b. bytes_lt (key_of s b) k ≡ false) zs
    → ((i : ℕ) → i < s.current_level → Passed s k s.head (ws ++ zs) upd i)
    → ((i u : ℕ) → upd i ≡ some u → i < level_of s u)
    → (1 ≤ n) × (n ≤ s.max_level)
    → Holds (joined s k v tid n drawn (raise s n upd)) (ws ++ s.next ∷ zs)
    → Stands (joined s k v tid n drawn (raise s n upd)) (ws ++ s.next ∷ zs)
Stands-joined s k v tid n drawn upd ws zs h below behind passed tall nb hold =
    let up = raise s n upd in
    let raised = raise-Passed s k (ws ++ zs) h.holds n upd passed in
    let low = upd_allocated s k (ws ++ zs) h.holds n up raised in
    let fresh =
      All-imp (λ b. b < s.next) (λ b. b ≢ s.next) (ws ++ zs) (λ b m lt q. omega arith)
        h.holds.allocated in
    let peak : (i : ℕ) → i < n → (u : ℕ) × (up i ≡ some u) × Peak s k ws zs h behind i u = λ i lt.
      let (u, eu, _, _) = raised i lt in
      (u, eu, raise-Peak s k ws zs h behind upd passed tall n i u nb.1 lt eu) in
    let top = top-joined s k v tid n drawn up in
    Stands-insert s (joined s k v tid n drawn up) k s.next n up ws zs
      (joined-Inserted s k v tid n drawn up low) h below behind
      (λ q. omega (arith, h.holds.head_allocated)) fresh peak (next-joined s k v tid n drawn up)
      refl (head-joined s k v tid n drawn up) (top.1, top.0) nb hold

level-overwrite :
    (s : SkipList) (a : ℕ) (v : Bytes) (p : ℕ) → level_of (overwrite s a v) p ≡ level_of s p
unfolding overwrite
level-overwrite s a v p = ground arith

frame-overwrite :
    (s : SkipList) (a : ℕ) (v : Bytes)
    → ((overwrite s a v).head ≡ s.head)
      × ((overwrite s a v).next ≡ s.next)
      × ((overwrite s a v).max_level ≡ s.max_level)
      × ((overwrite s a v).current_level ≡ s.current_level)
unfolding overwrite
frame-overwrite s a v = (refl, refl, refl, refl)

-- Replacing a value moves no node.
pub Stands-overwrite :
    (s : SkipList) (a : ℕ) (v : Bytes) (xs : List ℕ) → Stands s xs → Stands (overwrite s a v) xs
Stands-overwrite s a v xs h =
    let (head, next, max, level) = frame-overwrite s a v in
    record {
      holds = overwrite-Holds s a v xs h.holds;
      towers =
          subst (λ (x : ℕ). Towers (overwrite s a v) x xs) (sym head)
            (Towers-same s (overwrite s a v) (level-overwrite s a v) (forward-overwrite s a v)
              s.head xs h.towers);
      edges = λ p i b e.
          let f = h.edges p i b (sym (forward-overwrite s a v p i) ∙ e) in
          omega (arith, f, level-overwrite s a v b);
      head_level =
          ap (level_of (overwrite s a v)) head
          ∙ level-overwrite s a v s.head
          ∙ h.head_level
          ∙ sym max;
      top = omega (arith, h.top);
      low =
          All-imp (λ b. (1 ≤ level_of s b) × (level_of s b ≤ s.current_level))
            (λ b.
              (1 ≤ level_of (overwrite s a v) b)
              × (level_of (overwrite s a v) b ≤ (overwrite s a v).current_level))
            xs (λ b m g. omega (arith, level-overwrite s a v b)) h.low;
    }
