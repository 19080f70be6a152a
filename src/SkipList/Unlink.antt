-- ===== src/SkipList/Unlink.antt =====
-- The two loops of `remove` of src/skiplist/skipList.cpp: what they write on level 0, and what
-- they leave alone.
use tiny_lsm_tree.Common.{ℕ, zero, suc, ◌+◌, ◌-◌, ◌≤◌, ◌<◌, Option, none, some, true, Bool-cases}
use tiny_lsm_tree.Common.{◌≡◌, refl, ◌∙◌, arith, ◌==◌, ltb, if◌then◌else◌, Option-cases, inl, inr}
use tiny_lsm_tree.SkipList.Node.{SkipList, forward_of}
use tiny_lsm_tree.SkipList.Write.{detach, unlink, lower}
use tiny_lsm_tree.SkipList.Splice.{Frame, Frame-refl, Frame-trans}

pub Frame-detach : (s : SkipList) (a i u : ℕ) → Frame s (detach s a i u)
unfolding detach
Frame-detach s a i u = record {
  head = ground arith;
  next = ground arith;
  max_level = ground arith;
  current_level = ground arith;
  size_bytes = ground arith;
  entry = λ b. ground arith;
  level = λ b. ground arith;
}

pub forward-detach :
    (s : SkipList) (a i u p j : ℕ)
    → forward_of (detach s a i u) p j
      ≡ (if p == u then if j == i then forward_of s a i else forward_of s u j else forward_of s p j)
unfolding detach
forward-detach s a i u p j = ground arith

pub Frame-unlink :
    (rounds : ℕ) (s : SkipList) (a i : ℕ) (upd : ℕ → Option ℕ) → Frame s (unlink rounds s a i upd)
unfolding unlink
Frame-unlink zero s a i upd = Frame-refl s
Frame-unlink (suc rounds) s a i upd = elim (Option-cases (upd i)) [
  | inl e ↦ rw (e, unlink) (Frame-refl s)
  | inr (u, e) ↦ elim (Option-cases (forward_of s u i)) [
    | inl f ↦ rw (e, unlink, f) (Frame-refl s)
    | inr (b, f) ↦ elim (Bool-cases (b == a)) [
      | inr q ↦ rw (e, unlink, f, q) (Frame-refl s)
      | inl q ↦
          rw (e, unlink, f, q)
            (Frame-trans s _ _ (Frame-detach s a i u)
              (Frame-unlink rounds (detach s a i u) a (i + 1) upd))
    ]
  ]
]

-- The rounds above level 0 do not write to level 0.
bottom-unlink_above :
    (rounds : ℕ) (s : SkipList) (a i : ℕ) (upd : ℕ → Option ℕ)
    → 1 ≤ i
    → (p : ℕ) → forward_of (unlink rounds s a i upd) p 0 ≡ forward_of s p 0
unfolding unlink
bottom-unlink_above zero s a i upd pos p = refl
bottom-unlink_above (suc rounds) s a i upd pos p = elim (Option-cases (upd i)) [
  | inl e ↦ rw (e, unlink) refl
  | inr (u, e) ↦ elim (Option-cases (forward_of s u i)) [
    | inl f ↦ rw (e, unlink, f) refl
    | inr (b, f) ↦ elim (Bool-cases (b == a)) [
      | inr q ↦ rw (e, unlink, f, q) refl
      | inl q ↦
          rw (e, unlink, f, q)
            (bottom-unlink_above rounds (detach s a i u) a (i + 1) upd (omega arith) p
              ∙ ground (arith, forward-detach s a i u p 0))
    ]
  ]
]

-- On level 0 the node behind `u` is skipped.
pub bottom-unlink :
    (rounds : ℕ) (s : SkipList) (a u : ℕ) (upd : ℕ → Option ℕ)
    → 1 ≤ rounds
    → upd 0 ≡ some u
    → forward_of s u 0 ≡ some a
    → (p : ℕ)
    → forward_of (unlink rounds s a 0 upd) p 0
      ≡ (if p == u then forward_of s a 0 else forward_of s p 0)
unfolding unlink
bottom-unlink zero s a u upd pos e f p = absurd (omega arith)
bottom-unlink (suc rounds) s a u upd pos e f p =
    let same : (a == a) ≡ true = ground arith in
    rw (e, unlink, f, same)
      (bottom-unlink_above rounds (detach s a 0 u) a 1 upd (omega arith) p
        ∙ forward-detach s a 0 u p 0
        ∙ ground arith)

-- What the loop over the levels leaves: `m` levels, and no pointer of the head above them.
pub record Lowered (s t : SkipList) (m : ℕ) : Type 0 where
  pub result : t ≡ record s { current_level = m }
  pub positive : 1 ≤ s.current_level → 1 ≤ m
  pub below : m ≤ s.current_level
  pub passed : (i : ℕ) → m ≤ i → i < s.current_level → forward_of s s.head i ≡ none

Lowered-stays : (s : SkipList) → Lowered s s s.current_level
Lowered-stays s = record {
  result = refl;
  positive = λ h. h;
  below = omega arith;
  passed = λ i le lt. absurd (omega arith);
}

pub lower_lem : (rounds : ℕ) (s : SkipList) → (m : ℕ) × Lowered s (lower rounds s) m
unfolding lower
lower_lem zero s = (s.current_level, Lowered-stays s)
lower_lem (suc rounds) s = elim (Bool-cases (ltb 1 s.current_level)) [
  | inr e ↦ (s.current_level, rw (e, lower) (Lowered-stays s))
  | inl e ↦ elim (Option-cases (forward_of s s.head (s.current_level - 1))) [
    | inr (a, f) ↦ (s.current_level, rw (e, lower, f) (Lowered-stays s))
    | inl f ↦
        let (m, ih) = lower_lem rounds (record s { current_level = s.current_level - 1 }) in
        (
          m,
          rw (e, lower, f)
              (record {
                result = ih.result;
                positive = λ h. ih.positive (ground arith);
                below = omega (arith, ih.below);
                passed = λ i le lt. elim (Bool-cases (i == s.current_level - 1)) [
                  | inl q ↦ let q' : i ≡ s.current_level - 1 = ground arith in rw q' f
                  | inr q ↦ ih.passed i le (ground arith)
                ];
              }),
        )
  ]
]
