-- ===== src/SkipList/PutTowers.antt =====
-- `put` of src/skiplist/skipList.cpp keeps the nodes in order on every level.
use tiny_lsm_tree.Common.{ℕ, ◌≤◌, ◌<◌, Option, none, some, true, false}
use tiny_lsm_tree.Common.{List, [], ◌∷◌, ◌++◌, ltb, ◌==◌, Bool-cases, Option-cases}
use tiny_lsm_tree.Common.{◌≡◌, ◌≢◌, inl, inr, refl, sym, ap, ◌∙◌, subst, arith, Bytes}
use tiny_lsm_tree.Common.{bytes_lt, All-append_right, All, In, if◌then◌else◌}
use tiny_lsm_tree.SkipList.Node.{SkipList, key_of, forward_of}
use tiny_lsm_tree.SkipList.Joined.{joined, forward-base, forward-joined, levels-joined}
use tiny_lsm_tree.SkipList.Tower.{level_of, Towers, Towers-first, target, next_tall}
use tiny_lsm_tree.SkipList.Tower.{next_tall-none, next_tall-some, next_tall_same}
use tiny_lsm_tree.SkipList.Towered.{Stands, Peak, Peak-cases, Peak-next, Peak-apart}

-- `t` is `s` with the new node `a` of level `n` behind the nodes `upd i`.
pub record Inserted (s t : SkipList) (a n : ℕ) (upd : ℕ → Option ℕ) : Type 0 where
  pub new_below : (i u : ℕ) → i < n → upd i ≡ some u → forward_of t a i ≡ forward_of s u i
  pub new_above : (i : ℕ) → n ≤ i → forward_of t a i ≡ none
  pub old_below :
      (p i u : ℕ)
      → p ≢ a
      → i < n
      → upd i ≡ some u
      → forward_of t p i ≡ (if p == u then some a else forward_of s p i)
  pub old_above : (p i : ℕ) → p ≢ a → n ≤ i → forward_of t p i ≡ forward_of s p i
  pub new_level : level_of t a ≡ n
  pub old_level : (p : ℕ) → p ≢ a → level_of t p ≡ level_of s p

pub joined-Inserted :
    (s : SkipList) (k v : Bytes) (tid n drawn : ℕ) (upd : ℕ → Option ℕ)
    → ((i u : ℕ) → i < n → upd i ≡ some u → u < s.next)
    → Inserted s (joined s k v tid n drawn upd) s.next n upd
joined-Inserted s k v tid n drawn upd low = record {
  new_below = λ i u lt e.
      forward-joined s k v tid n drawn upd low s.next i
      ∙ ground (arith, e, low i u lt e, forward-base s k v tid n drawn upd u i);
  new_above = λ i le.
      forward-joined s k v tid n drawn upd low s.next i
      ∙ ground (arith, forward-base s k v tid n drawn upd s.next i);
  old_below = λ p i u ne lt e.
      forward-joined s k v tid n drawn upd low p i
      ∙ ground (arith, e, forward-base s k v tid n drawn upd p i);
  old_above = λ p i ne le.
      forward-joined s k v tid n drawn upd low p i
      ∙ ground (arith, forward-base s k v tid n drawn upd p i);
  new_level = ground (arith, levels-joined s k v tid n drawn upd s.next);
  old_level = λ p ne. ground (arith, levels-joined s k v tid n drawn upd p);
}

module _ (s t : SkipList) (k : Bytes) (a n : ℕ) (upd : ℕ → Option ℕ) (ws zs : List ℕ)
    (d : Inserted s t a n upd) (h : Stands s (ws ++ zs))
    (below : All (λ b. bytes_lt (key_of s b) k ≡ true) ws)
    (behind : All (λ b. bytes_lt (key_of s b) k ≡ false) zs) (head_ne : s.head ≢ a)
    (fresh : All (λ b. b ≢ a) (ws ++ zs))
    (peak : (i : ℕ) → i < n → (u : ℕ) × (upd i ≡ some u) × Peak s k ws zs h behind i u) where
  next_tall-new :
      (i : ℕ)
      → All (λ b. b ≢ a) zs
      → next_tall t i (a ∷ zs) ≡ (if ltb i n then some a else next_tall s i zs)
  unfolding next_tall
  next_tall-new i fz = rw (d.new_level, next_tall_same s t i a zs d.old_level fz) refl

  -- On a level that the new node does not have.
  next_tall-high :
      (i : ℕ) (vs : List ℕ)
      → All (λ b. b ≢ a) vs
      → All (λ b. b ≢ a) zs
      → n ≤ i
      → next_tall t i (vs ++ a ∷ zs) ≡ next_tall s i (vs ++ zs)
  next_tall-high i vs fv fz le =
      let same = next_tall_same s t i a vs d.old_level fv in
      elim (Option-cases (next_tall s i vs)) [
        | inl e ↦
            next_tall-none t i vs (a ∷ zs) (same ∙ e)
            ∙ next_tall-new i fz
            ∙ ground arith
            ∙ sym (next_tall-none s i vs zs e)
        | inr (b, e) ↦
            next_tall-some t i b vs (a ∷ zs) (same ∙ e) ∙ sym (next_tall-some s i b vs zs e)
      ]

  fresh_zs : All (λ b. b ≢ a) zs
  fresh_zs = All-append_right (λ b. b ≢ a) ws zs fresh

  target-insert :
      (p i : ℕ) (vs : List ℕ)
      → p ≢ a
      → All (λ b. b ≢ a) vs
      → In p (s.head ∷ ws)
      → All (λ b. bytes_lt (key_of s b) k ≡ true) vs
      → forward_of s p i ≡ target s p i (vs ++ zs)
      → forward_of t p i ≡ target t p i (vs ++ a ∷ zs)
  unfolding target
  target-insert p i vs ne fv m bv f =
      let same = next_tall_same s t i a vs d.old_level fv in
      let l = d.old_level p ne in
      elim (Bool-cases (ltb i n)) [
        | inr high ↦
            let le : n ≤ i = ground arith in
            d.old_above p i ne le ∙ f ∙ rw (l, next_tall-high i vs fv fresh_zs le) refl
        | inl low ↦
            let (u, eu, pk) = peak i (ground arith) in
            let to = d.old_below p i u ne (ground arith) eu in
            elim (Bool-cases (ltb i (level_of s p))) [
              | inr off ↦
                  let other : (p == u) ≡ false = ground (arith, pk.0.0, ap (level_of s)) in
                  to ∙ rw (other, l, off) (f ∙ rw off refl)
              | inl on ↦
                  elim (Peak-cases s k ws zs h behind below i u p vs pk m bv f (ground arith)) [
                    | inl (e, q) ↦
                        let here : (p == u) ≡ true = ground arith in
                        to
                        ∙ rw (here, l, on)
                            (sym (
                              next_tall-none t i vs (a ∷ zs) (same ∙ e)
                              ∙ next_tall-new i fresh_zs
                              ∙ rw low refl))
                    | inr (b, e, q) ↦
                        let other : (p == u) ≡ false = ground arith in
                        to
                        ∙ rw (other, l, on)
                            (f
                              ∙ rw on (
                                  next_tall-some s i b vs zs e
                                  ∙ sym (next_tall-some t i b vs (a ∷ zs) (same ∙ e))))
                  ]
            ]
      ]

  -- Nodes behind the new one.
  forward-after : (p i : ℕ) → p ≢ a → In p zs → forward_of t p i ≡ forward_of s p i
  forward-after p i ne m = elim (Bool-cases (ltb i n)) [
    | inr high ↦ d.old_above p i ne (ground arith)
    | inl low ↦
        let (u, eu, pk) = peak i (ground arith) in
        let apart = Peak-apart s k ws zs h behind below i u p pk m in
        let other : (p == u) ≡ false = ground arith in
        d.old_below p i u ne (ground arith) eu ∙ rw other refl
  ]

  target-same :
      (p i : ℕ) (ys : List ℕ) → All (λ b. b ≢ a) (p ∷ ys) → target t p i ys ≡ target s p i ys
  unfolding target
  target-same p i ys g = rw (d.old_level p g.0, next_tall_same s t i a ys d.old_level g.1) refl

  Towers-after :
      (p : ℕ) (ys : List ℕ)
      → All (λ b. b ≢ a) (p ∷ ys)
      → ((b : ℕ) → In b (p ∷ ys) → In b zs)
      → Towers s p ys
      → Towers t p ys
  Towers-after p [] g sub tw =
      λ i. forward-after p i g.0 (sub p (inl refl)) ∙ tw i ∙ sym (target-same p i [] g)
  Towers-after p (y ∷ ys) g sub tw = (
    λ i. forward-after p i g.0 (sub p (inl refl)) ∙ tw.0 i ∙ sym (target-same p i (y ∷ ys) g),
    Towers-after y ys g.1 (λ b m. sub b (inr m)) tw.1,
  )

  target-new : (i : ℕ) → forward_of t a i ≡ target t a i zs
  unfolding target
  target-new i = elim (Bool-cases (ltb i n)) [
    | inr high ↦ d.new_above i (ground arith) ∙ rw (d.new_level, high) refl
    | inl low ↦
        let (u, eu, pk) = peak i (ground arith) in
        d.new_below i u (ground arith) eu
        ∙ Peak-next s k ws zs h behind below i u pk
        ∙ rw (d.new_level, low) (sym (next_tall_same s t i a zs d.old_level fresh_zs))
  ]

  Towers-new : (cur : ℕ) (ys : List ℕ) → ys ≡ zs → Towers s cur ys → Towers t a ys
  Towers-new cur [] q tw = λ i. target-new i ∙ ap (target t a i) (sym q)
  Towers-new cur (y ∷ ys) q tw = (
    λ i. target-new i ∙ ap (target t a i) (sym q),
    Towers-after y ys (subst (All (λ b. b ≢ a)) (sym q) fresh_zs) (λ b m. subst (In b) q m) tw.1,
  )

  pub Towers-before :
      (p : ℕ) (vs : List ℕ)
      → All (λ b. b ≢ a) (p ∷ vs)
      → ((b : ℕ) → In b (p ∷ vs) → In b (s.head ∷ ws))
      → All (λ b. bytes_lt (key_of s b) k ≡ true) vs
      → Towers s p (vs ++ zs)
      → Towers t p (vs ++ a ∷ zs)
  Towers-before p [] g sub bv tw = (
    λ i. target-insert p i [] g.0 tt (sub p (inl refl)) tt (Towers-first s p zs tw i),
    Towers-new p zs refl tw,
  )
  Towers-before p (v ∷ vs) g sub bv tw = (
    λ i. target-insert p i (v ∷ vs) g.0 g.1 (sub p (inl refl)) bv (tw.0 i),
    Towers-before v vs g.1 (λ b m. sub b (inr m)) bv.1 tw.1,
  )
