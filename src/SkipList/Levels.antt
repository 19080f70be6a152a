-- ===== src/SkipList/Levels.antt =====
-- The levels that `random_level` draws and that the search of `put` in src/skiplist/skipList.cpp
-- passes: where the new node is linked in, and that no pointer leads back.
use tiny_lsm_tree.Common.{ℕ, zero, suc, ◌+◌, ◌-◌, ◌≤◌, ◌<◌, Option, none, some, true, List, [], ◌∷◌}
use tiny_lsm_tree.Common.{◌++◌, ◌≡◌, ◌≢◌, ◌⊎◌, inl, inr, refl, sym, subst, arith, Bytes}
use tiny_lsm_tree.Common.{bytes_lt, Bool-cases, ltb, leb}
use tiny_lsm_tree.Common.{All, All-imp, All-In, In, In-append, In-append_left, In-append_right}
use tiny_lsm_tree.Common.{bytes_lt_trans, bytes_lt_irrefl}
use tiny_lsm_tree.SkipList.Node.{SkipList, key_of, forward_of, random_level, random_level_loop}
use tiny_lsm_tree.SkipList.Write.{raise}
use tiny_lsm_tree.SkipList.Chain.{Linked-In, Holds, Ends, Stops, At, At-refl}
use tiny_lsm_tree.SkipList.Search.{Passed}

random_level_loop_bounds :
    (coin : ℕ → ℕ) (room level drawn : ℕ)
    → (level ≤ (random_level_loop coin room level drawn).0)
      × ((random_level_loop coin room level drawn).0 ≤ level + room)
unfolding random_level_loop
random_level_loop_bounds coin zero level drawn = omega arith
random_level_loop_bounds coin (suc room) level drawn =
    ground (arith, random_level_loop_bounds coin room (level + 1) (drawn + 1))

-- If the highest level is at least 1, the level drawn lies between 1 and the highest one, whatever
-- the coins show.
pub random_level_bounds :
    (s : SkipList) → 1 ≤ s.max_level → (1 ≤ (random_level s).0) × ((random_level s).0 ≤ s.max_level)
unfolding random_level
random_level_bounds s h = omega (arith, random_level_loop_bounds s.coin (s.max_level - 1) 1 s.drawn)

pub random_level_pos : (s : SkipList) → 1 ≤ (random_level s).0
unfolding random_level
random_level_pos s = omega (arith, random_level_loop_bounds s.coin (s.max_level - 1) 1 s.drawn)

Ends-cases : (p r : ℕ) (ws : List ℕ) → Ends p ws r → (p ≡ r) ⊎ In r ws
Ends-cases p r [] e = inl e
Ends-cases p r (w ∷ ws) e = elim (Ends-cases w r ws e) [
  | inl q ↦ inr (inl (sym q))
  | inr m ↦ inr (inr m)
]

-- What the search passes is the head or a node of the list whose key is below the wanted one.
pub passed_node :
    (s : SkipList) (k : Bytes) (p : ℕ) (xs : List ℕ) (u : ℕ)
    → At s k p xs u
    → (p ≡ u) ⊎ (In u xs × (bytes_lt (key_of s u) k ≡ true))
passed_node s k p xs u t = elim (Ends-cases p u t.ws t.ends) [
  | inl e ↦ inl e
  | inr m ↦ inr (
    subst (In u) (sym t.split) (In-append_left u t.ws t.zs m),
    All-In (λ (b : ℕ). bytes_lt (key_of s b) k ≡ true) u t.ws t.below m,
  )
]

module _ (s : SkipList) (k : Bytes) (xs : List ℕ) (h : Holds s xs) where
  pub raise-Passed :
      (n : ℕ) (upd : ℕ → Option ℕ)
      → ((i : ℕ) → i < s.current_level → Passed s k s.head xs upd i)
      → (i : ℕ) → i < n
      → Passed s k s.head xs (raise s n upd) i
  unfolding raise
  raise-Passed n upd passed i lt = elim (Bool-cases (leb s.current_level i)) [
    | inr e ↦ rw e (passed i (ground arith))
    | inl e ↦
        let here : ltb i n ≡ true = ground arith in
        let top : forward_of s s.head i ≡ none = h.head_levels i (ground arith) in
        rw (e, here) (s.head, refl, At-refl s k s.head xs h.linked, λ b q. cc (top, q))
  ]

  module _ (n : ℕ) (upd : ℕ → Option ℕ)
      (passed : (i : ℕ) → i < n → Passed s k s.head xs upd i) where
    upd_passed : (i u : ℕ) → i < n → upd i ≡ some u → At s k s.head xs u × Stops s k i u
    upd_passed i u lt e =
        let (w, ew, t, st) = passed i lt in
        let q : w ≡ u = cc (ew, e) in (subst (At s k s.head xs) q t, subst (Stops s k i) q st)

    pub upd_allocated : (i u : ℕ) → i < n → upd i ≡ some u → u < s.next
    upd_allocated i u lt e = elim (passed_node s k s.head xs u (upd_passed i u lt e).0) [
      | inl q ↦ subst (λ (x : ℕ). x < s.next) q h.head_allocated
      | inr (m, _) ↦ All-In (λ (x : ℕ). x < s.next) u xs h.allocated m
    ]

    -- A pointer of a passed node does not go back behind the search.
    pub upd_edges :
        (ws zs : List ℕ)
        → xs ≡ ws ++ zs
        → All (λ b. bytes_lt (key_of s b) k ≡ true) ws
        → (i u b : ℕ) → i < n
        → upd i ≡ some u
        → forward_of s u i ≡ some b
        → In b zs
    upd_edges ws zs split below i u b lt e eb =
        let (t, st) = upd_passed i u lt e in
        let in_xs =
          subst (In b) (sym t.split)
            (In-append_right b t.ws t.zs (Linked-In s u i b t.zs t.rest eb)) in
        elim (In-append b ws zs (subst (In b) split in_xs)) [
          | inr m ↦ m
          | inl m ↦
              absurd (cc (st b eb, All-In (λ (x : ℕ). bytes_lt (key_of s x) k ≡ true) b ws below m))
        ]

    pub upd_not_after :
        (ws zs : List ℕ)
        → xs ≡ ws ++ zs
        → All (λ b. bytes_lt k (key_of s b) ≡ true) zs
        → All (λ b. (b ≢ s.next) × ((i : ℕ) → i < n → upd i ≢ some b)) zs
    upd_not_after ws zs split above =
        All-imp (λ b. bytes_lt k (key_of s b) ≡ true)
          (λ b. (b ≢ s.next) × ((i : ℕ) → i < n → upd i ≢ some b)) zs
          (λ b m gt.
            let in_xs = subst (In b) (sym split) (In-append_right b ws zs m) in
            let low = All-In (λ (x : ℕ). x < s.next) b xs h.allocated in_xs in
            (λ q. absurd (omega arith), λ i lt e. apart b in_xs gt (upd_passed i b lt e).0))
          above
      where
        apart : (b : ℕ) → In b xs → bytes_lt k (key_of s b) ≡ true → At s k s.head xs b → ⊥
        apart b m gt t = elim (passed_node s k s.head xs b t) [
          | inl q ↦ All-In (λ (x : ℕ). x ≢ s.head) b xs h.no_head m (sym q)
          | inr (_, lt) ↦ cc (bytes_lt_trans k (key_of s b) k gt lt, bytes_lt_irrefl k)
        ]
