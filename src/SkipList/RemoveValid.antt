-- ===== src/SkipList/RemoveValid.antt =====
-- `remove` of src/skiplist/skipList.cpp keeps the list well formed, on every level.
use tiny_lsm_tree.Common.{ℕ, ◌≤◌, ◌<◌, Option, none, some, true, false}
use tiny_lsm_tree.Common.{List, [], ◌∷◌, ◌++◌, ltb, Bool-cases}
use tiny_lsm_tree.Common.{◌≡◌, ◌≢◌, inl, inr, refl, sym, ap, ◌∙◌, subst, arith, Bytes}
use tiny_lsm_tree.Common.{bytes_lt, All, All-imp}
use tiny_lsm_tree.Common.{In, length-append}
use tiny_lsm_tree.SkipList.Node.{SkipList, key_of, forward_of}
use tiny_lsm_tree.SkipList.Chain.{Linked, Rising}
use tiny_lsm_tree.SkipList.Overwrite.{Rising-same}
use tiny_lsm_tree.SkipList.Tower.{level_of, Towers, Towers-first, target, next_tall}
use tiny_lsm_tree.SkipList.Tower.{next_tall-In}
use tiny_lsm_tree.SkipList.Towered.{Stands, Stands-level, Peak}
use tiny_lsm_tree.SkipList.RemoveTowers.{Unlinked}
use tiny_lsm_tree.SkipList.RemoveStands.{All-removed, Towers-remove, Edges-remove}

-- Pointers in order on every level link the nodes.
Towers-Linked :
    (t : SkipList) (p : ℕ) (ys : List ℕ)
    → All (λ b. 1 ≤ level_of t b) (p ∷ ys)
    → Towers t p ys
    → Linked t p ys
unfolding target next_tall
Towers-Linked t p [] g h = λ i. h i ∙ ground arith
Towers-Linked t p (y ∷ ys) g h =
    let on : ltb 0 (level_of t p) ≡ true = ground (arith, g.0) in
    let on' : ltb 0 (level_of t y) ≡ true = ground (arith, g.1.0) in
    (
      h.0 0 ∙ rw (on, on') refl,
      λ i b e. (elim (Bool-cases (ltb i (level_of t p))) [
        | inr off ↦ (let f : forward_of t p i ≡ none = h.0 i ∙ rw off refl in cc (f, e))
        | inl here ↦
            (let f : forward_of t p i ≡ next_tall t i (y ∷ ys) = h.0 i ∙ rw here refl in
              (next_tall-In t i b (y ∷ ys) (sym f ∙ e)).0)
      ]),
      Towers-Linked t y ys g.1 h.1,
    )

Rising-removed :
    (s : SkipList) (a : ℕ) (ws zs : List ℕ) → Rising s (ws ++ a ∷ zs) → Rising s (ws ++ zs)
Rising-removed s a [] zs h = h.1
Rising-removed s a (w ∷ ws) zs h = (All-removed _ a ws zs h.0, Rising-removed s a ws zs h.1)

next_tall-found :
    (s : SkipList) (i b : ℕ) (ys : List ℕ) → next_tall s i ys ≡ none → In b ys → level_of s b ≤ i
unfolding next_tall
next_tall-found s i b [] e m = elim m [ ]
next_tall-found s i b (y ∷ ys) e m = elim (Bool-cases (ltb i (level_of s y))) [
  | inl on ↦ cc (rw on at e)
  | inr off ↦ elim m [
    | inl q ↦ ground (arith, ap (level_of s) q)
    | inr m' ↦ next_tall-found s i b ys (rw off at e) m'
  ]
]

-- The head has no pointer from `m` up, so that no node has more than `m` levels.
low_levels :
    (t : SkipList) (m : ℕ) (ys : List ℕ)
    → Towers t t.head ys
    → m < level_of t t.head
    → forward_of t t.head m ≡ none
    → (b : ℕ) → In b ys
    → level_of t b ≤ m
unfolding target
low_levels t m ys tw lt e b mb =
    let on : ltb m (level_of t t.head) ≡ true = ground arith in
    let f : forward_of t t.head m ≡ next_tall t m ys = Towers-first t t.head ys tw m ∙ rw on refl in
    next_tall-found t m b ys (sym f ∙ e) mb

module _ (s t : SkipList) (k : Bytes) (a : ℕ) (upd : ℕ → Option ℕ) (ws zs : List ℕ)
    (d : Unlinked s t a 0 upd) (levels : (p : ℕ) → level_of t p ≡ level_of s p)
    (h : Stands s (ws ++ a ∷ zs)) (below : All (λ b. bytes_lt (key_of s b) k ≡ true) ws)
    (behind : All (λ b. bytes_lt (key_of s b) k ≡ false) (a ∷ zs))
    (peak : (i : ℕ)
      → i < level_of s a
      → (u : ℕ) × (upd i ≡ some u) × Peak s k ws (a ∷ zs) h behind i u)
    (th : t.head ≡ s.head) (tn : t.next ≡ s.next) (tm : t.max_level ≡ s.max_level)
    (keys : (p : ℕ) → key_of t p ≡ key_of s p)
    (lv : (1 ≤ t.current_level) × (t.current_level ≤ s.current_level))
    (passed : (i : ℕ)
      → t.current_level ≤ i
      → i < s.current_level
      → forward_of t t.head i ≡ none) where
  towers : Towers t t.head (ws ++ zs)
  towers =
      subst (λ (x : ℕ). Towers t x (ws ++ zs)) (sym th)
        (Towers-remove s t k a upd ws zs d levels h below behind peak)

  head_level : level_of t t.head ≡ t.max_level
  head_level = ap (level_of t) th ∙ levels s.head ∙ h.head_level ∙ sym tm

  head_levels : (i : ℕ) → t.current_level ≤ i → forward_of t t.head i ≡ none
  head_levels i le = elim (Bool-cases (ltb i s.current_level)) [
    | inl on ↦ passed i le (ground arith)
    | inr off ↦
        ap (λ (x : ℕ). forward_of t x i) th
        ∙ d.miss s.head i (λ _ lt. absurd (ground (arith, Stands-level s a ws zs h)))
        ∙ h.holds.head_levels i (ground arith)
  ]

  low : All (λ b. (1 ≤ level_of t b) × (level_of t b ≤ t.current_level)) (ws ++ zs)
  low =
      All-imp (λ b. (1 ≤ level_of s b) × (level_of s b ≤ s.current_level))
        (λ b. (1 ≤ level_of t b) × (level_of t b ≤ t.current_level)) (ws ++ zs)
        (λ b m g. (omega (arith, levels b), small b m g.1)) (All-removed _ a ws zs h.low)
    where
      small :
          (b : ℕ)
          → In b (ws ++ zs)
          → level_of s b ≤ s.current_level
          → level_of t b ≤ t.current_level
      small b m le = elim (Bool-cases (ltb t.current_level s.current_level)) [
        | inl on ↦
            low_levels t t.current_level (ws ++ zs) towers (ground (arith, head_level, h.top, tm))
              (head_levels t.current_level (omega arith)) b m
        | inr off ↦ ground (arith, levels b)
      ]

  pub Stands-remove : Stands t (ws ++ zs)
  Stands-remove = record {
    holds = record {
      linked =
          Towers-Linked t t.head (ws ++ zs)
            (
              omega (arith, head_level, tm, h.top, h.holds.has_level),
              All-imp _ (λ b. 1 ≤ level_of t b) (ws ++ zs) (λ b m g. g.0) low,
            )
            towers;
      rising = Rising-same s t keys (ws ++ zs) (Rising-removed s a ws zs h.holds.rising);
      no_head =
          subst (λ (x : ℕ). All (λ b. b ≢ x) (ws ++ zs)) (sym th)
            (All-removed _ a ws zs h.holds.no_head);
      allocated =
          subst (λ (x : ℕ). All (λ b. b < x) (ws ++ zs)) (sym tn)
            (All-removed _ a ws zs h.holds.allocated);
      head_allocated = omega (arith, h.holds.head_allocated);
      room = omega (arith, h.holds.room, length-append ws zs, length-append ws (a ∷ zs));
      has_level = lv.0;
      head_levels = head_levels;
    };
    towers = towers;
    edges = Edges-remove s t k a upd ws zs d levels h below behind peak tn;
    head_level = head_level;
    top = omega (arith, h.top);
    low = low;
  }
