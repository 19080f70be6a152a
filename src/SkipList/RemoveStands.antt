-- ===== src/SkipList/RemoveStands.antt =====
-- After `remove` of src/skiplist/skipList.cpp the other nodes are in order on every level.
use tiny_lsm_tree.Common.{ℕ, ◌≤◌, ◌<◌, Option, some, true, false}
use tiny_lsm_tree.Common.{List, [], ◌∷◌, ◌++◌, ltb, ◌==◌, ◌&&◌, Bool-cases, Option-cases}
use tiny_lsm_tree.Common.{◌≡◌, ◌≢◌, inl, inr, refl, sym, ap, ◌∙◌, subst, arith, Bytes}
use tiny_lsm_tree.Common.{bytes_lt, All-append, All-append_left, All-append_right, All}
use tiny_lsm_tree.Common.{In}
use tiny_lsm_tree.SkipList.Node.{SkipList, key_of, forward_of}
use tiny_lsm_tree.SkipList.Tower.{level_of, Towers, Towers-first, target, next_tall}
use tiny_lsm_tree.SkipList.Tower.{next_tall-none, next_tall-some, target_levels}
use tiny_lsm_tree.SkipList.Towered.{Edges, Stands, Peak, Peak-cases, Peak-apart}
use tiny_lsm_tree.SkipList.RemoveTowers.{Unlinked}

-- A node that does not have the level is passed over.
next_tall-skip :
    (s : SkipList) (i a : ℕ) (vs zs : List ℕ)
    → level_of s a ≤ i
    → next_tall s i (vs ++ a ∷ zs) ≡ next_tall s i (vs ++ zs)
unfolding next_tall
next_tall-skip s i a [] zs le = let off : ltb i (level_of s a) ≡ false = ground arith in rw off refl
next_tall-skip s i a (v ∷ vs) zs le = rw (next_tall-skip s i a vs zs le) refl

pub All-removed {κ} :
    (P : ℕ → Type κ) (a : ℕ) (ws zs : List ℕ) → All P (ws ++ a ∷ zs) → All P (ws ++ zs)
All-removed P a ws zs g =
    All-append P ws zs (All-append_left P ws (a ∷ zs) g) (All-append_right P ws (a ∷ zs) g).1

Towers-right : (s : SkipList) (p a : ℕ) (ws zs : List ℕ) → Towers s p (ws ++ a ∷ zs) → Towers s a zs
Towers-right s p a [] zs h = h.1
Towers-right s p a (w ∷ ws) zs h = Towers-right s w a ws zs h.1

module _ (s t : SkipList) (k : Bytes) (a : ℕ) (upd : ℕ → Option ℕ) (ws zs : List ℕ)
    (d : Unlinked s t a 0 upd) (levels : (p : ℕ) → level_of t p ≡ level_of s p)
    (h : Stands s (ws ++ a ∷ zs)) (below : All (λ b. bytes_lt (key_of s b) k ≡ true) ws)
    (behind : All (λ b. bytes_lt (key_of s b) k ≡ false) (a ∷ zs))
    (peak : (i : ℕ)
      → i < level_of s a
      → (u : ℕ) × (upd i ≡ some u) × Peak s k ws (a ∷ zs) h behind i u) where
  target-remove :
      (p i : ℕ) (vs : List ℕ)
      → In p (s.head ∷ ws)
      → All (λ b. bytes_lt (key_of s b) k ≡ true) vs
      → forward_of s p i ≡ target s p i (vs ++ a ∷ zs)
      → forward_of t p i ≡ target s p i (vs ++ zs)
  unfolding target next_tall
  target-remove p i vs m bv f = elim (Bool-cases (ltb i (level_of s p))) [
    | inr off ↦
        d.miss p i (λ _ lt e.
          let (u, eu, pk) = peak i lt in
          let up : some u ≡ some p = sym eu ∙ e in
          let up' : u ≡ p = cc up in ground (arith, pk.0.0, ap (level_of s) up'))
        ∙ f
        ∙ rw off refl
    | inl on ↦ elim (Bool-cases (ltb i (level_of s a))) [
      | inr short ↦
          d.miss p i (λ _ lt. absurd (ground arith))
          ∙ f
          ∙ rw (on, next_tall-skip s i a vs zs (ground arith)) refl
      | inl long ↦
          let (u, eu, pk) = peak i (ground arith) in
          elim (Peak-cases s k ws (a ∷ zs) h behind below i u p vs pk m bv f (ground arith)) [
            | inl (e, q) ↦
                let ta = Towers-first s a zs (Towers-right s s.head a ws zs h.towers) i in
                d.hit p i (omega arith) (ground arith) (eu ∙ ap some (sym q))
                ∙ ta
                ∙ rw (on, long, next_tall-none s i vs zs e) refl
            | inr (b, e, q) ↦
                let apart : upd i ≢ some p = λ g.
                  (let up : some u ≡ some p = sym eu ∙ g in
                    let up' : u ≡ p = cc up in q (sym up')) in
                d.miss p i (λ _ _. apart)
                ∙ f
                ∙ rw (on, next_tall-some s i b vs (a ∷ zs) e, next_tall-some s i b vs zs e) refl
          ]
    ]
  ]

  -- Nodes behind the one removed.
  forward-behind : (p i : ℕ) → In p (a ∷ zs) → forward_of t p i ≡ forward_of s p i
  forward-behind p i m = d.miss p i (λ _ lt e.
      let (u, eu, pk) = peak i lt in
      let up : some u ≡ some p = sym eu ∙ e in
      let up' : u ≡ p = cc up in Peak-apart s k ws (a ∷ zs) h behind below i u p pk m (sym up'))

  Towers-behind :
      (p : ℕ) (ys : List ℕ)
      → ((b : ℕ) → In b (p ∷ ys) → In b (a ∷ zs))
      → Towers s p ys
      → Towers t p ys
  Towers-behind p [] sub tw =
      λ i. forward-behind p i (sub p (inl refl)) ∙ tw i ∙ sym (target_levels s t levels p i [])
  Towers-behind p (y ∷ ys) sub tw = (
    λ i.
        forward-behind p i (sub p (inl refl))
        ∙ tw.0 i
        ∙ sym (target_levels s t levels p i (y ∷ ys)),
    Towers-behind y ys (λ b m. sub b (inr m)) tw.1,
  )

  target-left :
      (p i : ℕ) (vs : List ℕ)
      → In p (s.head ∷ ws)
      → All (λ b. bytes_lt (key_of s b) k ≡ true) vs
      → Towers s p (vs ++ a ∷ zs)
      → forward_of t p i ≡ target t p i (vs ++ zs)
  target-left p i vs m bv tw =
      target-remove p i vs m bv (Towers-first s p (vs ++ a ∷ zs) tw i)
      ∙ sym (target_levels s t levels p i (vs ++ zs))

  Towers-last :
      (p : ℕ) (ys : List ℕ)
      → ys ≡ zs
      → In p (s.head ∷ ws)
      → Towers s p (a ∷ zs)
      → Towers s a ys
      → Towers t p ys
  Towers-last p [] q m tw ta = λ i. target-left p i [] m tt tw ∙ ap (target t p i) (sym q)
  Towers-last p (y ∷ ys) q m tw ta = (
    λ i. target-left p i [] m tt tw ∙ ap (target t p i) (sym q),
    Towers-behind y ys (λ b mb. inr (subst (In b) q mb)) ta.1,
  )

  Towers-left :
      (p : ℕ) (vs : List ℕ)
      → ((b : ℕ) → In b (p ∷ vs) → In b (s.head ∷ ws))
      → All (λ b. bytes_lt (key_of s b) k ≡ true) vs
      → Towers s p (vs ++ a ∷ zs)
      → Towers t p (vs ++ zs)
  Towers-left p [] sub bv tw = Towers-last p zs refl (sub p (inl refl)) tw tw.1
  Towers-left p (v ∷ vs) sub bv tw = (
    λ i. target-left p i (v ∷ vs) (sub p (inl refl)) bv tw,
    Towers-left v vs (λ b m. sub b (inr m)) bv.1 tw.1,
  )

  pub Towers-remove : Towers t s.head (ws ++ zs)
  Towers-remove = Towers-left s.head ws (λ b m. m) below h.towers

  pub Edges-remove : t.next ≡ s.next → Edges t
  Edges-remove tn p i b e = elim (Option-cases (upd i)) [
    | inl none_ ↦ same p (λ _ _ g. absurd (cc (none_, g))) e
    | inr (u, eu) ↦ elim (Bool-cases ((u == p) && ltb i (level_of s a))) [
      | inr q ↦
          same p
            (λ _ lt g.
              (let up : some u ≡ some p = sym eu ∙ g in let up' : u ≡ p = cc up in ground arith))
            e
      | inl q ↦
          let up : u ≡ p = ground arith in
          kept a (sym (d.hit p i (omega arith) (ground arith) (eu ∙ ap some up)) ∙ e)
    ]
  ]
    where
      kept : (x : ℕ) → forward_of s x i ≡ some b → (i < level_of t b) × (b < t.next)
      kept x f = omega (arith, h.edges x i b f, levels b)

      same :
          (x : ℕ)
          → (0 ≤ i → i < level_of s a → upd i ≢ some x)
          → forward_of t x i ≡ some b
          → (i < level_of t b) × (b < t.next)
      same x ne f = kept x (sym (d.miss x i ne) ∙ f)
