-- ===== src/SkipList/Seek.antt =====
-- The searches of `iters_monotony_predicate` in src/skiplist/skipList.cpp, for a monotone predicate.
use tiny_lsm_tree.Common.{ℕ, zero, suc, ◌≤◌, ◌<◌, some, true, List, [], ◌∷◌, ◌++◌}
use tiny_lsm_tree.Common.{
  ◌≡◌, ◌⊎◌, inl, inr, refl, sym, ap, ◌∙◌, subst, arith, Bytes, length, length-append, append_assoc,
  All, All-append, All-In, In,
}
use tiny_lsm_tree.Common.{bytes_lt, Option-cases}
use tiny_lsm_tree.SkipList.Node.{SkipList, key_of, forward_of}
use tiny_lsm_tree.SkipList.Iterator.{Answer, seek, seek_down}
use tiny_lsm_tree.SkipList.Chain.{Linked, Linked-In, Rising, Rising-append_right}

-- The answers in the order in which a monotone predicate gives them along the keys.
abbrev pub rank : Answer → ℕ
rank Answer.go_right = 0
rank Answer.holds = 1
rank Answer.go_left = 2

abbrev pub IsMonotone : (Bytes → Answer) → Type 0
IsMonotone predicate = (j k : Bytes) → bytes_lt j k ≡ true → rank (predicate j) ≤ rank (predicate k)

pub Answer-cases :
    (x : Answer) → (x ≡ Answer.go_right) ⊎ ((x ≡ Answer.holds) ⊎ (x ≡ Answer.go_left))
Answer-cases Answer.go_right = inl refl
Answer-cases Answer.holds = inr (inl refl)
Answer-cases Answer.go_left = inr (inr refl)

abbrev pub at_node : SkipList → (Bytes → Answer) → ℕ → Answer
at_node s predicate a = predicate (key_of s a)

module _ (s : SkipList) (predicate : Bytes → Answer) (monotone : IsMonotone predicate) where
  -- The search has passed `ws`, which the predicate sends to the right, and `zs` is to come.
  pub record Sought (ys : List ℕ) (r : ℕ) : Type 0 where
    pub ws : List ℕ
    pub zs : List ℕ
    pub split : ys ≡ ws ++ zs
    pub right : All (λ b. at_node s predicate b ≡ Answer.go_right) ws
    pub rest : Linked s r zs

  before_right :
      (a b : ℕ)
      → bytes_lt (key_of s a) (key_of s b) ≡ true
      → at_node s predicate b ≡ Answer.go_right
      → at_node s predicate a ≡ Answer.go_right
  before_right a b lt e =
      go (at_node s predicate a)
        (subst (λ (x : Answer). rank (at_node s predicate a) ≤ rank x) e (monotone _ _ lt))
    where
      go : (x : Answer) → rank x ≤ 0 → x ≡ Answer.go_right
      go Answer.go_right h = refl
      go Answer.holds h = absurd (omega arith)
      go Answer.go_left h = absurd (omega arith)

  jump_to :
      (p b : ℕ) (ys : List ℕ)
      → Linked s p ys
      → Rising s ys
      → In b ys
      → at_node s predicate b ≡ Answer.go_right
      → (t : Sought ys b) × (length t.zs < length ys)
  jump_to p b [] h r m e = elim m [ ]
  jump_to p b (a ∷ ys) h r (inl q) e = (
    record { ws = a ∷ []; zs = ys; split = refl; right = (rw (← q) e, tt); rest = rw q h.2 },
    omega arith,
  )
  jump_to p b (a ∷ ys) h r (inr m) e =
      let (t, l) = jump_to a b ys h.2 r.1 m e in
      let lt = All-In (λ (x : ℕ). bytes_lt (key_of s a) (key_of s x) ≡ true) b ys r.0 m in
      (
        record {
          ws = a ∷ t.ws;
          zs = t.zs;
          split = ap (λ (l : List ℕ). a ∷ l) t.split;
          right = (before_right a b lt e, t.right);
          rest = t.rest;
        },
        omega arith,
      )

  Sought-trans : (q r : ℕ) (ys : List ℕ) (t : Sought ys q) → Sought t.zs r → Sought ys r
  Sought-trans q r ys t u = record {
    ws = t.ws ++ u.ws;
    zs = u.zs;
    split = t.split ∙ ap (λ (l : List ℕ). t.ws ++ l) u.split ∙ sym (append_assoc t.ws u.ws u.zs);
    right = All-append _ t.ws u.ws t.right u.right;
    rest = u.rest;
  }

  pub Sought-start : (p : ℕ) (ys : List ℕ) → Linked s p ys → Sought ys p
  Sought-start p ys h = record { ws = []; zs = ys; split = refl; right = tt; rest = h }

  pub Sought-Rising : (q : ℕ) (ys : List ℕ) (t : Sought ys q) → Rising s ys → Rising s t.zs
  Sought-Rising q ys t h = Rising-append_right s t.ws t.zs (subst (Rising s) t.split h)

  -- What follows on level `i` is not sent to the right.
  abbrev pub Halts : ℕ → ℕ → Type 0
  Halts i r = (b : ℕ) → forward_of s r i ≡ some b → (at_node s predicate b ≡ Answer.go_right → ⊥)

  seek-Sought :
      (i fuel p : ℕ) (ys : List ℕ)
      → Linked s p ys
      → Rising s ys
      → length ys ≤ fuel
      → Sought ys (seek s predicate i fuel p) × Halts i (seek s predicate i fuel p)
  unfolding seek
  seek-Sought i zero p [] h r f = (Sought-start p [] h, λ b e. absurd (cc (h i, e)))
  seek-Sought i zero p (a ∷ ys) h r f = absurd (omega arith)
  seek-Sought i (suc fuel) p ys h r f = elim (Option-cases (forward_of s p i)) [
    | inl e ↦ rw (e, seek) (Sought-start p ys h, λ b e'. absurd (cc e'))
    | inr (b, e) ↦ elim (Answer-cases (at_node s predicate b)) [
      | inl q ↦
          let (t, l) = jump_to p b ys h r (Linked-In s p i b ys h e) q in
          let ih = seek-Sought i fuel b t.zs t.rest (Sought-Rising b ys t r) (omega arith) in
          rw (e, seek, q) (Sought-trans b _ ys t ih.0, ih.1)
      | inr (inl q) ↦ rw (e, seek, q) (Sought-start p ys h, λ b' e' g. absurd (cc (e', q, g, e)))
      | inr (inr q) ↦ rw (e, seek, q) (Sought-start p ys h, λ b' e' g. absurd (cc (e', q, g, e)))
    ]
  ]

  pub seek_further :
      (i cur : ℕ) (ys : List ℕ) (t : Sought ys cur)
      → Rising s ys
      → length ys ≤ s.next
      → Sought ys (seek s predicate i s.next cur) × Halts i (seek s predicate i s.next cur)
  seek_further i cur ys t r f =
      let w =
        seek-Sought i s.next cur t.zs t.rest (Sought-Rising cur ys t r)
          (omega (arith, ap length t.split, length-append t.ws t.zs)) in
      (Sought-trans cur _ ys t w.0, w.1)

  pub seek_down-Sought :
      (n cur : ℕ) (ys : List ℕ)
      → Sought ys cur
      → Rising s ys
      → length ys ≤ s.next
      → Sought ys (seek_down s predicate n cur)
  unfolding seek_down
  seek_down-Sought zero cur ys t r f = t
  seek_down-Sought (suc i) cur ys t r f =
      seek_down-Sought i (seek s predicate i s.next cur) ys (seek_further i cur ys t r f).0 r f
