-- ===== src/SkipList/RemoveTowers.antt =====
-- `remove` of src/skiplist/skipList.cpp takes a node out of all its levels and keeps the other
-- nodes in order.
use tiny_lsm_tree.Common.{ℕ, zero, suc, ◌+◌, ◌≤◌, ◌<◌, Option, some, true, false}
use tiny_lsm_tree.Common.{ltb, ◌==◌, ◌&&◌, Bool-cases, Option-cases}
use tiny_lsm_tree.Common.{◌≡◌, ◌≢◌, inl, inr, refl, sym, ap, ◌∙◌, arith}
use tiny_lsm_tree.SkipList.Node.{SkipList, forward_of}
use tiny_lsm_tree.SkipList.Write.{detach, unlink}
use tiny_lsm_tree.SkipList.Tower.{level_of}
use tiny_lsm_tree.SkipList.Unlink.{forward-detach, Frame-detach}

-- `t` is `s` with the node `a` taken out of its levels from `i` up, where `upd` points to it.
pub record Unlinked (s t : SkipList) (a i : ℕ) (upd : ℕ → Option ℕ) : Type 0 where
  pub hit :
      (p j : ℕ) → i ≤ j → j < level_of s a → upd j ≡ some p → forward_of t p j ≡ forward_of s a j
  pub miss :
      (p j : ℕ) → (i ≤ j → j < level_of s a → upd j ≢ some p) → forward_of t p j ≡ forward_of s p j

-- `upd` has a node for each level, which points to `a` exactly if `a` has the level.
pub record Points (s : SkipList) (a i : ℕ) (upd : ℕ → Option ℕ) (rounds : ℕ) : Type 0 where
  pub named : (j : ℕ) → i ≤ j → j < i + rounds → (u : ℕ) × (upd j ≡ some u) × (u ≢ a)
  pub to : (j u : ℕ) → i ≤ j → j < level_of s a → upd j ≡ some u → forward_of s u j ≡ some a
  pub only : (j u : ℕ) → forward_of s u j ≡ some a → j < level_of s a
  pub enough : level_of s a ≤ i + rounds

Unlinked-stop :
    (s : SkipList) (a i : ℕ) (upd : ℕ → Option ℕ) → level_of s a ≤ i → Unlinked s s a i upd
Unlinked-stop s a i upd le = record {
  hit = λ p j ij jl e. absurd (omega arith);
  miss = λ p j ne. refl;
}

-- One round, where `u` points to `a`.
module _ (s : SkipList) (a i u : ℕ) (upd : ℕ → Option ℕ) (eu : upd i ≡ some u) (ne : u ≢ a) where
  level-detach : level_of (detach s a i u) a ≡ level_of s a
  level-detach = (Frame-detach s a i u).level a

  Points-detach :
      (rounds : ℕ) → Points s a i upd (suc rounds) → Points (detach s a i u) a (i + 1) upd rounds
  Points-detach rounds h = record {
    named = λ j ij lt. h.named j (omega arith) (omega arith);
    to = λ j v ij lt e.
        let g = h.to j v (omega arith) (omega (arith, level-detach)) e in
        ground (arith, forward-detach s a i u v j);
    only = λ j v e.
        (let g = h.only j v in
          let g' = h.only j a in ground (arith, forward-detach s a i u v j, level-detach));
    enough = omega (arith, level-detach, h.enough);
  }

  Unlinked-detach :
      (t : SkipList)
      → i < level_of s a
      → Unlinked (detach s a i u) t a (i + 1) upd
      → Unlinked s t a i upd
  Unlinked-detach t on d = record {
    hit = λ p j ij jl e. elim (Bool-cases (j == i)) [
      | inl q ↦
          let ji : j ≡ i = ground arith in
          let up : some u ≡ some p = sym eu ∙ ap upd (sym ji) ∙ e in
          let up' : u ≡ p = cc up in
          d.miss p j (λ le. absurd (omega arith)) ∙ forward-detach s a i u p j ∙ ground arith
      | inr q ↦
          d.hit p j (ground arith) (omega (arith, level-detach)) e
          ∙ forward-detach s a i u a j
          ∙ ground arith
    ];
    miss = λ p j ne'.
        d.miss p j (λ le lt. ne' (omega arith) (omega (arith, level-detach)))
        ∙ forward-detach s a i u p j
        ∙ elim (Bool-cases ((p == u) && (j == i))) [
          | inr q ↦ ground arith
          | inl q ↦
              let pu : p ≡ u = ground arith in
              let ji : j ≡ i = ground arith in
              absurd (ne' (omega arith) (omega arith) (ap upd ji ∙ eu ∙ ap some (sym pu)))
        ];
  }

pub unlink-Unlinked :
    (rounds : ℕ) (s : SkipList) (a i : ℕ) (upd : ℕ → Option ℕ)
    → Points s a i upd rounds
    → Unlinked s (unlink rounds s a i upd) a i upd
unfolding unlink
unlink-Unlinked zero s a i upd h = Unlinked-stop s a i upd (omega (arith, h.enough))
unlink-Unlinked (suc rounds) s a i upd h =
    let (u, eu, ne) = h.named i (omega arith) (omega arith) in
    elim (Bool-cases (ltb i (level_of s a))) [
      | inr off ↦ elim (Option-cases (forward_of s u i)) [
        | inl f ↦ rw (eu, unlink, f) (Unlinked-stop s a i upd (ground arith))
        | inr (b, f) ↦
            let other : (b == a) ≡ false = ground (arith, h.only i u, ap (λ (x : ℕ). some x)) in
            rw (eu, unlink, f, other) (Unlinked-stop s a i upd (ground arith))
      ]
      | inl on ↦
          let f = h.to i u (omega arith) (ground arith) eu in
          let same : (a == a) ≡ true = ground arith in
          rw (eu, unlink, f, same)
            (Unlinked-detach s a i u upd eu ne _ (ground arith) (
              unlink-Unlinked rounds (detach s a i u) a (i + 1) upd
                (Points-detach s a i u upd eu ne rounds h)))
    ]
