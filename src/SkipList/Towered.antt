-- ===== src/SkipList/Towered.antt =====
-- Lists of src/skiplist/skipList.cpp whose higher levels are in order too, and the nodes that a
-- search passes there.
use tiny_lsm_tree.Common.{ℕ, zero, suc, ◌≤◌, ◌<◌, Option, none, some, true, false}
use tiny_lsm_tree.Common.{List, ◌∷◌, ◌++◌, ltb, leb, ◌==◌, Bool-cases, Option-cases}
use tiny_lsm_tree.Common.{◌≡◌, ◌≢◌, ◌⊎◌, inl, inr, refl, sym, ap, ◌∙◌, subst, arith, Bytes}
use tiny_lsm_tree.Common.{In-append_right, bytes_lt, All, All-In, In, In-append, All-append_right}
use tiny_lsm_tree.SkipList.Node.{SkipList, key_of, forward_of, update}
use tiny_lsm_tree.SkipList.Find.{walk, descend, search_from_head}
use tiny_lsm_tree.SkipList.Write.{raise}
use tiny_lsm_tree.SkipList.Chain.{Holds, Stops, At}
use tiny_lsm_tree.SkipList.Search.{Passed}
use tiny_lsm_tree.SkipList.Levels.{passed_node}
use tiny_lsm_tree.SkipList.Tower.{
  Towers-from, Towers-first, level_of, Towers, Top, Top-unique, target, next_tall, next_tall-none,
  next_tall-some, next_tall-In,
}

-- A pointer of a level leads to an allocated node that has the level.
abbrev pub Edges : SkipList → Type 0
Edges s = (p i b : ℕ) → forward_of s p i ≡ some b → (i < level_of s b) × (b < s.next)

-- `xs` are the nodes of the list, in order on every level.
pub record Stands (s : SkipList) (xs : List ℕ) : Type 0 where
  pub holds : Holds s xs
  pub towers : Towers s s.head xs
  pub edges : Edges s
  pub head_level : level_of s s.head ≡ s.max_level
  pub top : s.current_level ≤ s.max_level
  pub low : All (λ a. (1 ≤ level_of s a) × (level_of s a ≤ s.current_level)) xs

pub Stands-level :
    (s : SkipList) (a : ℕ) (ws zs : List ℕ)
    → Stands s (ws ++ a ∷ zs)
    → level_of s a ≤ s.current_level
Stands-level s a ws zs h =
    (All-In (λ (b : ℕ). (1 ≤ level_of s b) × (level_of s b ≤ s.current_level)) a (ws ++ a ∷ zs)
      h.low (In-append_right a ws (a ∷ zs) (inl refl))).1

-- A skip list whose nodes are in order on every level.
pub record IsTowered (s : SkipList) : Type 0 where
  pub chain : List ℕ
  pub stands : Stands s chain

module _ (s : SkipList) (k : Bytes) (edges : Edges s) where
  walk-tall : (i fuel p : ℕ) → i < level_of s p → i < level_of s (walk s i k fuel p)
  unfolding walk
  walk-tall i zero p lt = lt
  walk-tall i (suc fuel) p lt = elim (Option-cases (forward_of s p i)) [
    | inl e ↦ rw (e, walk) lt
    | inr (b, e) ↦ elim (Bool-cases (bytes_lt (key_of s b) k)) [
      | inr q ↦ rw (e, walk, q) lt
      | inl q ↦ rw (e, walk, q) (walk-tall i fuel b (edges p i b e).0)
    ]
  ]

  descend-tall :
      (n cur : ℕ) (upd : ℕ → Option ℕ)
      → n ≤ level_of s cur
      → ((i u : ℕ) → n ≤ i → upd i ≡ some u → i < level_of s u)
      → (i u : ℕ) → (descend s k n cur upd).1 i ≡ some u
      → i < level_of s u
  unfolding descend
  descend-tall zero cur upd le h i u e = h i u (omega arith) e
  descend-tall (suc n) cur upd le h i u e =
      let lt = walk-tall n s.next cur (omega arith) in
      descend-tall n (walk s n k s.next cur) (update upd n (some (walk s n k s.next cur)))
        (omega arith)
        (λ j v lj f. elim (Bool-cases (j == n)) [
          | inr q ↦ h j v (ground arith) (rw q at f)
          | inl q ↦
              let jn : j ≡ n = ground arith in
              let w : some (walk s n k s.next cur) ≡ some v = rw q at f in
              let w' : walk s n k s.next cur ≡ v = cc w in rw (jn, ← w') lt
        ])
        i u e

  pub search-tall :
      s.current_level ≤ level_of s s.head
      → (i u : ℕ) → (search_from_head s k).1 i ≡ some u
      → i < level_of s u
  unfolding search_from_head
  search-tall le i u e = descend-tall s.current_level s.head (λ _. none) le (λ j v lj f. cc f) i u e

-- On every level the search passes the last node before `zs` that has the level.
module _ (s : SkipList) (k : Bytes) (ws zs : List ℕ) (h : Stands s (ws ++ zs))
    (behind : All (λ b. bytes_lt (key_of s b) k ≡ false) zs) where
  abbrev pub Peak : ℕ → ℕ → Type 0
  Peak i u = Top s k i zs u × In u (s.head ∷ ws)

  Passed-Peak :
      (upd : ℕ → Option ℕ) (i : ℕ)
      → Passed s k s.head (ws ++ zs) upd i
      → ((u : ℕ) → upd i ≡ some u → i < level_of s u)
      → (u : ℕ) → upd i ≡ some u
      → Peak i u
  Passed-Peak upd i (w, ew, t, st) tall u e =
      let q : w ≡ u = cc (ew, e) in
      ((tall u e, subst (Stops s k i) q st), subst (λ (x : ℕ). In x (s.head ∷ ws)) q (near w t))
    where
      near : (w : ℕ) → At s k s.head (ws ++ zs) w → In w (s.head ∷ ws)
      near w t = elim (passed_node s k s.head (ws ++ zs) w t) [
        | inl p ↦ inl (sym p)
        | inr (m, lt) ↦ elim (In-append w ws zs m) [
          | inl mw ↦ inr mw
          | inr mz ↦
              absurd (cc (lt, All-In (λ (x : ℕ). bytes_lt (key_of s x) k ≡ false) w zs behind mz))
        ]
      ]

  module _ (upd : ℕ → Option ℕ)
      (passed : (i : ℕ) → i < s.current_level → Passed s k s.head (ws ++ zs) upd i)
      (tall : (i u : ℕ) → upd i ≡ some u → i < level_of s u) where
    pub upd-Peak : (i u : ℕ) → i < s.current_level → upd i ≡ some u → Peak i u
    upd-Peak i u lt e = Passed-Peak upd i (passed i lt) (λ v f. tall i v f) u e

    -- Above the levels in use a new node is linked in behind the head.
    pub raise-Peak : (n i u : ℕ) → n ≤ s.max_level → i < n → raise s n upd i ≡ some u → Peak i u
    unfolding raise
    raise-Peak n i u le lt e = elim (Bool-cases (leb s.current_level i)) [
      | inr q ↦ upd-Peak i u (ground arith) (rw q at e)
      | inl q ↦
          let here : ltb i n ≡ true = ground arith in
          let hu : some s.head ≡ some u = rw (q, here) at e in
          let hu' : s.head ≡ u = cc hu in
          let top : forward_of s s.head i ≡ none = h.holds.head_levels i (ground arith) in
          subst (Peak i) hu' ((omega (arith, h.head_level), λ b f. absurd (cc (top, f))), inl refl)
    ]

  -- A node with the level before `zs` is the one that the search passes there, unless another
  -- comes before `zs`.
  pub Peak-cases :
      All (λ b. bytes_lt (key_of s b) k ≡ true) ws
      → (i u p : ℕ) (vs : List ℕ) → Peak i u
      → In p (s.head ∷ ws)
      → All (λ b. bytes_lt (key_of s b) k ≡ true) vs
      → forward_of s p i ≡ target s p i (vs ++ zs)
      → i < level_of s p
      → ((next_tall s i vs ≡ none) × (p ≡ u)) ⊎ (b : ℕ) × (next_tall s i vs ≡ some b) × (p ≢ u)
  unfolding target
  Peak-cases bw i u p vs pk m bv f lt =
      let here : ltb i (level_of s p) ≡ true = ground arith in
      let to : forward_of s p i ≡ next_tall s i (vs ++ zs) = f ∙ rw here refl in
      elim (Option-cases (next_tall s i vs)) [
        | inl e ↦
            let stops : Stops s k i p = λ b g.
              let gz : next_tall s i zs ≡ some b = sym (next_tall-none s i vs zs e) ∙ sym to ∙ g in
              All-In (λ (x : ℕ). bytes_lt (key_of s x) k ≡ false) b zs behind
                (next_tall-In s i b zs gz).0 in
            inl (e, Top-unique s k i zs s.head p u ws bw h.towers m pk.1 (lt, stops) pk.0)
        | inr (b, e) ↦
            let g : forward_of s p i ≡ some b = to ∙ next_tall-some s i b vs zs e in
            let small =
              All-In (λ (x : ℕ). bytes_lt (key_of s x) k ≡ true) b vs bv
                (next_tall-In s i b vs e).0 in
            inr (b, e, λ q. cc (pk.0.1 b (ap (λ (x : ℕ). forward_of s x i) (sym q) ∙ g), small))
      ]

  -- The node passed points to the first node of `zs` that has the level.
  pub Peak-next :
      All (λ b. bytes_lt (key_of s b) k ≡ true) ws
      → (i u : ℕ) → Peak i u
      → forward_of s u i ≡ next_tall s i zs
  unfolding target
  Peak-next bw i u pk =
      let (vs, bv, tu) =
        Towers-from s (λ b. bytes_lt (key_of s b) k ≡ true) s.head u ws zs h.towers bw pk.1 in
      let f = Towers-first s u (vs ++ zs) tu i in
      let on : ltb i (level_of s u) ≡ true = ground (arith, pk.0.0) in
      elim (Peak-cases bw i u u vs pk pk.1 bv f pk.0.0) [
        | inl (e, _) ↦ f ∙ rw on (next_tall-none s i vs zs e)
        | inr (b, e, q) ↦ absurd (q refl)
      ]

  -- No node of `zs` is passed.
  pub Peak-apart :
      All (λ b. bytes_lt (key_of s b) k ≡ true) ws → (i u b : ℕ) → Peak i u → In b zs → b ≢ u
  Peak-apart bw i u b pk m q =
      let not_small = All-In (λ (x : ℕ). bytes_lt (key_of s x) k ≡ false) b zs behind m in
      elim pk.1 [
        | inl e ↦
            All-In (λ (x : ℕ). x ≢ s.head) b zs
              (All-append_right (λ (x : ℕ). x ≢ s.head) ws zs h.holds.no_head) m (q ∙ e)
        | inr mu ↦
            let small = All-In (λ (x : ℕ). bytes_lt (key_of s x) k ≡ true) u ws bw mu in
            cc (small, not_small, ap (key_of s) q)
      ]
