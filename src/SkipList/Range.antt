-- ===== src/SkipList/Range.antt =====
-- `iters_monotony_predicate` of src/skiplist/skipList.cpp against the entries that match.
use tiny_lsm_tree.SkipList.Seek.{
  rank, IsMonotone, Answer-cases, at_node, Sought, Sought-start, Sought-Rising, Halts, seek_further,
  seek_down-Sought,
}
use tiny_lsm_tree.SkipList.LastMatch.{front_matching, collect-front}
use tiny_lsm_tree.Common.{ℕ, suc, ◌+◌, ◌-◌, ◌≤◌, Option, none, some, true, List, [], ◌∷◌, ◌++◌}
use tiny_lsm_tree.Common.{
  ◌≡◌, inl, inr, refl, sym, ap, ◌∙◌, subst, arith, map, Bytes, length, length-append, All,
}
use tiny_lsm_tree.Common.{bytes_lt}
use tiny_lsm_tree.SkipList.Node.{SkipList, key_of, forward_of}
use tiny_lsm_tree.SkipList.Find.{Entry, entry_of, flush}
use tiny_lsm_tree.SkipList.Iterator.{
  Answer, seek, seek_down, last_match, iters_monotony_predicate, collect,
}
use tiny_lsm_tree.SkipList.Chain.{Linked, Rising, Holds, IsValid}
use tiny_lsm_tree.SkipList.View.{flush-entries, map-append_entries}

-- The entries whose keys satisfy the predicate.
unfoldable pub matching : (Bytes → Answer) → List Entry → List Entry
matching predicate [] = []
matching predicate (e ∷ es) =
    let rest = matching predicate es in
    elim (predicate e.key) [
      | Answer.holds ↦ e ∷ rest
      | Answer.go_right ↦ rest
      | Answer.go_left ↦ rest
    ]

-- What `iters_monotony_predicate` returns, against the entries that match: nothing if none does, or a
-- range from the first of them to behind the last.
pub data Range (s : SkipList) (predicate : Bytes → Answer) : Type 0 where
  nowhere :
      iters_monotony_predicate s predicate ≡ none
      → matching predicate (flush s) ≡ []
      → Range s predicate
  somewhere :
      (a : ℕ) (last : Option ℕ)
      → iters_monotony_predicate s predicate ≡ some (a, last)
      → collect s s.next (some a) last ≡ matching predicate (flush s)
      → Range s predicate

module _ (s : SkipList) (predicate : Bytes → Answer) (monotone : IsMonotone predicate) where
  matching_right :
      (ws : List ℕ) (es : List Entry)
      → All (λ b. at_node s predicate b ≡ Answer.go_right) ws
      → matching predicate (map (entry_of s) ws ++ es) ≡ matching predicate es
  unfolding matching
  matching_right [] es h = refl
  matching_right (w ∷ ws) es h = rw h.0 (matching_right ws es h.1)

  matching_left :
      (a : ℕ) (zs : List ℕ)
      → at_node s predicate a ≡ Answer.go_left
      → All (λ b. bytes_lt (key_of s a) (key_of s b) ≡ true) zs
      → matching predicate (map (entry_of s) zs) ≡ []
  unfolding matching
  matching_left a [] e h = refl
  matching_left a (z ∷ zs) e h =
      rw
        (left (at_node s predicate z)
          (subst (λ (x : Answer). rank x ≤ rank (at_node s predicate z)) e (monotone _ _ h.0)))
        (matching_left a zs e h.1)
    where
      left : (x : Answer) → 2 ≤ rank x → x ≡ Answer.go_left
      left Answer.go_right h = absurd (omega arith)
      left Answer.holds h = absurd (omega arith)
      left Answer.go_left h = refl

  front-matching :
      (a : ℕ) (zs : List ℕ)
      → at_node s predicate a ≡ Answer.holds
      → Rising s (a ∷ zs)
      → front_matching s predicate (map (entry_of s) zs) ≡ matching predicate (map (entry_of s) zs)
  unfolding matching front_matching
  front-matching a [] e r = refl
  front-matching a (z ∷ zs) e r = elim (Answer-cases (at_node s predicate z)) [
    | inl q ↦
        absurd (no_return (at_node s predicate a) (at_node s predicate z) e q (monotone _ _ r.0.0))
    | inr (inl q) ↦ rw q (ap (λ (l : List Entry). entry_of s z ∷ l) (front-matching z zs q r.1))
    | inr (inr q) ↦ rw q (sym (matching_left z zs q r.1.0))
  ]
    where
      no_return : (x y : Answer) → x ≡ Answer.holds → y ≡ Answer.go_right → rank x ≤ rank y → ⊥
      no_return x y e q h = omega (arith, ap rank e, ap rank q)

  module _ (xs : List ℕ) (h : Holds s xs) where
    abbrev first : ℕ
    first = seek s predicate 0 s.next (seek_down s predicate s.current_level s.head)

    first-Sought : Sought s predicate monotone xs first × Halts s predicate monotone 0 first
    first-Sought =
        let fits : length xs ≤ s.next = omega (arith, h.room) in
        seek_further s predicate monotone 0 _ xs
          (seek_down-Sought s predicate monotone s.current_level s.head xs
            (Sought-start s predicate monotone s.head xs h.linked) h.rising fits)
          h.rising fits

    entries :
        (zs : List ℕ)
        → first-Sought.0.zs ≡ zs
        → matching predicate (flush s) ≡ matching predicate (map (entry_of s) zs)
    entries zs e =
        let t = first-Sought.0 in
        rw (flush-entries s xs h, t.split, map-append_entries s t.ws t.zs)
          (matching_right t.ws (map (entry_of s) t.zs) t.right
            ∙ ap (λ (l : List ℕ). matching predicate (map (entry_of s) l)) e)

    next-Linked : (zs : List ℕ) → first-Sought.0.zs ≡ zs → Linked s first zs
    next-Linked zs e = subst (Linked s first) e first-Sought.0.rest

    next-Rising : (zs : List ℕ) → first-Sought.0.zs ≡ zs → Rising s zs
    next-Rising zs e =
        subst (Rising s) e (Sought-Rising s predicate monotone first xs first-Sought.0 h.rising)

    fits : {a : ℕ} (zs : List ℕ) → first-Sought.0.zs ≡ a ∷ zs → length zs + 2 ≤ s.next
    fits zs e =
        let t = first-Sought.0 in
        omega (arith, h.room, ap length t.split, length-append t.ws t.zs, ap length e)

    one_more : suc (s.next - 1) ≡ s.next
    one_more = omega (arith, h.room)

    Range-Holds : (zs : List ℕ) → first-Sought.0.zs ≡ zs → Range s predicate
    unfolding iters_monotony_predicate
    Range-Holds [] e =
        nowhere (rw (next-Linked [] e 0, iters_monotony_predicate) refl)
          (entries [] e ∙ (unfold matching in refl))
    Range-Holds (a ∷ zs) e =
        let l = next-Linked (a ∷ zs) e in
        let r = next-Rising (a ∷ zs) e in
        elim (Answer-cases (at_node s predicate a)) [
          | inl q ↦ absurd (first-Sought.1 a l.0 q)
          | inr (inr q) ↦
              nowhere (rw (l.0, iters_monotony_predicate, q) refl)
                (entries (a ∷ zs) e ∙ (unfold matching in rw q (matching_left a zs q r.0)))
          | inr (inl q) ↦
              somewhere a (forward_of s (last_match s predicate s.next a) 0)
                (rw (l.0, iters_monotony_predicate, q) refl)
                (subst
                    (λ (n : ℕ).
                      collect s n (some a) (forward_of s (last_match s predicate s.next a) 0)
                      ≡ entry_of s a ∷ front_matching s predicate (map (entry_of s) zs))
                    one_more
                    (collect-front s predicate (s.next - 1) s.next a zs l.2 r
                      (omega (arith, fits zs e)) (omega (arith, fits zs e)))
                  ∙ ap (λ (l : List Entry). entry_of s a ∷ l) (front-matching a zs q r)
                  ∙ sym (entries (a ∷ zs) e ∙ (unfold matching in rw q refl)))
        ]

-- In a well-formed list, for a predicate that answers along rising keys first go right, then holds,
-- then go left: the call returns nothing if no entry matches, and otherwise a range whose loop reads
-- exactly the entries of `flush` that match.
pub iters_monotony_predicate_lem :
    (s : SkipList) (predicate : Bytes → Answer)
    → IsMonotone predicate
    → IsValid s
    → Range s predicate
iters_monotony_predicate_lem s predicate monotone h =
    Range-Holds s predicate monotone h.chain h.holds _ refl
