-- ===== src/SkipList/LastMatch.antt =====
-- The last loop of `iters_monotony_predicate` in src/skiplist/skipList.cpp, and the range that ends there.
use tiny_lsm_tree.SkipList.Seek.{Answer-cases, at_node}
use tiny_lsm_tree.Common.{ℕ, zero, suc, ◌≤◌, Option, none, some, false, List, [], ◌∷◌}
use tiny_lsm_tree.Common.{◌≡◌, ◌⊎◌, inl, inr, refl, sym, ap, ◌∙◌, arith, map, Bytes, length, In}
use tiny_lsm_tree.SkipList.Node.{SkipList, forward_of}
use tiny_lsm_tree.SkipList.Find.{Entry, entry_of}
use tiny_lsm_tree.SkipList.Iterator.{Answer, last_match, collect, pointer_eq}
use tiny_lsm_tree.SkipList.Chain.{Linked, Rising}
use tiny_lsm_tree.SkipList.Prefix.{pointer_apart, self_eq}

collect_end : (s : SkipList) (fuel : ℕ) (last : Option ℕ) → collect s fuel none last ≡ []
unfolding collect
collect_end s zero last = refl
collect_end s (suc fuel) last = refl

collect_here : (s : SkipList) (fuel a : ℕ) → collect s (suc fuel) (some a) (some a) ≡ []
unfolding collect
collect_here s fuel a = rw (collect, self_eq a) refl

collect_step :
    (s : SkipList) (fuel a : ℕ) (last : Option ℕ)
    → pointer_eq (some a) last ≡ false
    → collect s (suc fuel) (some a) last ≡ entry_of s a ∷ collect s fuel (forward_of s a 0) last
unfolding collect
collect_step s fuel a last e = rw (collect, e) refl

module _ (s : SkipList) (predicate : Bytes → Answer) where
  -- The entries at the front that the predicate holds of.
  unfoldable pub front_matching : List Entry → List Entry
  front_matching [] = []
  front_matching (e ∷ es) =
      let rest = front_matching es in
      elim (predicate e.key) [
        | Answer.holds ↦ e ∷ rest
        | Answer.go_right ↦ []
        | Answer.go_left ↦ []
      ]

  last_match-In :
      (fuel a : ℕ) (ys : List ℕ)
      → Linked s a ys
      → length ys ≤ fuel
      → (forward_of s (last_match s predicate fuel a) 0 ≡ none)
        ⊎ ((b : ℕ) × In b ys × (forward_of s (last_match s predicate fuel a) 0 ≡ some b))
  unfolding last_match
  last_match-In zero a [] h f = inl (h 0)
  last_match-In zero a (b ∷ ys) h f = absurd (omega arith)
  last_match-In (suc fuel) a [] h f = inl (rw (h 0, last_match) (h 0))
  last_match-In (suc fuel) a (b ∷ ys) h f = elim (Answer-cases (at_node s predicate b)) [
    | inl q ↦ inr (b, inl refl, rw (h.0, last_match, q) h.0)
    | inr (inr q) ↦ inr (b, inl refl, rw (h.0, last_match, q) h.0)
    | inr (inl q) ↦ elim (last_match-In fuel b ys h.2 (omega arith)) [
      | inl n ↦ inl (rw (h.0, last_match, q) n)
      | inr (c, m, g) ↦ inr (c, inr m, rw (h.0, last_match, q) g)
    ]
  ]

  last_holds :
      (g a b : ℕ)
      → forward_of s a 0 ≡ some b
      → at_node s predicate b ≡ Answer.holds
      → last_match s predicate (suc g) a ≡ last_match s predicate g b
  unfolding last_match
  last_holds g a b e q = rw (e, last_match, q) refl

  last_stops :
      (g a b : ℕ)
      → forward_of s a 0 ≡ some b
      → (at_node s predicate b ≡ Answer.go_right) ⊎ (at_node s predicate b ≡ Answer.go_left)
      → last_match s predicate (suc g) a ≡ a
  unfolding last_match
  last_stops g a b e (inl q) = rw (e, last_match, q) refl
  last_stops g a b e (inr q) = rw (e, last_match, q) refl

  collect_stops :
      (c g a b : ℕ)
      → forward_of s a 0 ≡ some b
      → (at_node s predicate b ≡ Answer.go_right) ⊎ (at_node s predicate b ≡ Answer.go_left)
      → collect s (suc c) (some b) (forward_of s (last_match s predicate (suc g) a) 0) ≡ []
  collect_stops c g a b e q =
      ap (λ (l : ℕ). collect s (suc c) (some b) (forward_of s l 0)) (last_stops g a b e q)
      ∙ ap (collect s (suc c) (some b)) e
      ∙ collect_here s c b

  pub collect-front :
      (c g a : ℕ) (ys : List ℕ)
      → Linked s a ys
      → Rising s (a ∷ ys)
      → length ys ≤ c
      → length ys ≤ g
      → collect s (suc c) (some a) (forward_of s (last_match s predicate g a) 0)
        ≡ entry_of s a ∷ front_matching (map (entry_of s) ys)
  unfolding front_matching
  collect-front c g a [] h r f f' =
      collect_step s c a _ (pointer_apart s [] a [] _ r (last_match-In g a [] h f'))
      ∙ ap
          (λ (o : Option ℕ).
            entry_of s a ∷ collect s c o (forward_of s (last_match s predicate g a) 0))
          (h 0)
      ∙ ap (λ (l : List Entry). entry_of s a ∷ l) (collect_end s c _)
  collect-front zero g a (b ∷ ys) h r f f' = absurd (omega arith)
  collect-front (suc c) zero a (b ∷ ys) h r f f' = absurd (omega arith)
  collect-front (suc c) (suc g) a (b ∷ ys) h r f f' =
      collect_step s (suc c) a _
        (pointer_apart s [] a (b ∷ ys) _ r (last_match-In (suc g) a (b ∷ ys) h f'))
      ∙ ap
          (λ (o : Option ℕ).
            entry_of s a ∷ collect s (suc c) o (forward_of s (last_match s predicate (suc g) a) 0))
          h.0
      ∙ ap (λ (l : List Entry). entry_of s a ∷ l)
          (elim (Answer-cases (at_node s predicate b)) [
            | inl q ↦ collect_stops c g a b h.0 (inl q) ∙ sym (rw q refl)
            | inr (inr q) ↦ collect_stops c g a b h.0 (inr q) ∙ sym (rw q refl)
            | inr (inl q) ↦
                ap (λ (l : ℕ). collect s (suc c) (some b) (forward_of s l 0))
                  (last_holds g a b h.0 q)
                ∙ collect-front c g b ys h.2 r.1 (omega arith) (omega arith)
                ∙ sym (rw q refl)
          ])
