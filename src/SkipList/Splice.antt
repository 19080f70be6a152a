-- ===== src/SkipList/Splice.antt =====
-- The loops of `put` of src/skiplist/skipList.cpp that link a new node into its levels.
use tiny_lsm_tree.Common.{ℕ, zero, suc, ◌<◌, Option, none, some, Bool-cases}
use tiny_lsm_tree.Common.{
  ◌≡◌, ◌≢◌, refl, ◌∙◌, arith, ◌==◌, ltb, if◌then◌else◌, Option-cases, inl, inr,
}
use tiny_lsm_tree.SkipList.Node.{SkipList, forward_of}
use tiny_lsm_tree.SkipList.Find.{entry_of}
use tiny_lsm_tree.SkipList.Write.{link, splice, link_back, splice_back}

-- What the two loops leave alone.
pub record Frame (s t : SkipList) : Type 0 where
  pub head : t.head ≡ s.head
  pub next : t.next ≡ s.next
  pub max_level : t.max_level ≡ s.max_level
  pub current_level : t.current_level ≡ s.current_level
  pub size_bytes : t.size_bytes ≡ s.size_bytes
  pub entry : (a : ℕ) → entry_of t a ≡ entry_of s a
  pub level : (a : ℕ) → (t.store a).level ≡ (s.store a).level

pub Frame-refl : (s : SkipList) → Frame s s
Frame-refl s = record {
  head = refl;
  next = refl;
  max_level = refl;
  current_level = refl;
  size_bytes = refl;
  entry = λ a. refl;
  level = λ a. refl;
}

pub Frame-trans : (s t u : SkipList) → Frame s t → Frame t u → Frame s u
Frame-trans s t u f g = record {
  head = g.head ∙ f.head;
  next = g.next ∙ f.next;
  max_level = g.max_level ∙ f.max_level;
  current_level = g.current_level ∙ f.current_level;
  size_bytes = g.size_bytes ∙ f.size_bytes;
  entry = λ a. g.entry a ∙ f.entry a;
  level = λ a. g.level a ∙ f.level a;
}

Frame-link : (s : SkipList) (a i u : ℕ) → Frame s (link s a i u)
unfolding link
Frame-link s a i u = record {
  head = refl;
  next = refl;
  max_level = refl;
  current_level = refl;
  size_bytes = refl;
  entry = λ b. ground arith;
  level = λ b. ground arith;
}

pub Frame-splice : (s : SkipList) (a : ℕ) (upd : ℕ → Option ℕ) (n : ℕ) → Frame s (splice s a upd n)
unfolding splice
Frame-splice s a upd zero = Frame-refl s
Frame-splice s a upd (suc n) = elim (Option-cases (upd n)) [
  | inl e ↦ rw (e, splice) (Frame-splice s a upd n)
  | inr (u, e) ↦
      rw (e, splice)
        (Frame-trans s _ _ (Frame-splice s a upd n) (Frame-link (splice s a upd n) a n u))
]

Frame-link_back : (s : SkipList) (a i : ℕ) (u : Option ℕ) → Frame s (link_back s a i u)
unfolding link_back
Frame-link_back s a i u = record {
  head = ground arith;
  next = ground arith;
  max_level = ground arith;
  current_level = ground arith;
  size_bytes = ground arith;
  entry = λ b. ground arith;
  level = λ b. ground arith;
}

pub Frame-splice_back :
    (s : SkipList) (a : ℕ) (upd : ℕ → Option ℕ) (n : ℕ) → Frame s (splice_back s a upd n)
unfolding splice_back
Frame-splice_back s a upd zero = Frame-refl s
Frame-splice_back s a upd (suc n) =
    Frame-trans s _ _ (Frame-splice_back s a upd n)
      (Frame-link_back (splice_back s a upd n) a n (upd n))

forward-link_back :
    (s : SkipList) (a i : ℕ) (u : Option ℕ) (p j : ℕ)
    → forward_of (link_back s a i u) p j ≡ forward_of s p j
unfolding link_back
forward-link_back s a i u p j = ground arith

pub forward-splice_back :
    (s : SkipList) (a : ℕ) (upd : ℕ → Option ℕ) (n p j : ℕ)
    → forward_of (splice_back s a upd n) p j ≡ forward_of s p j
unfolding splice_back
forward-splice_back s a upd zero p j = refl
forward-splice_back s a upd (suc n) p j =
    forward-link_back (splice_back s a upd n) a n (upd n) p j ∙ forward-splice_back s a upd n p j

-- The pointer of `p` on level `i` after the new node `a` was linked in behind `u`.
abbrev pub spliced : SkipList → ℕ → Option ℕ → ℕ → ℕ → Option ℕ
spliced s a none p i = forward_of s p i
spliced s a (some u) p i =
    if p == a then forward_of s u i else if p == u then some a else forward_of s p i

forward-link :
    (s : SkipList) (a i u p j : ℕ)
    → u ≢ a
    → forward_of (link s a i u) p j
      ≡ (if j == i then spliced s a (some u) p i else forward_of s p j)
unfolding link
forward-link s a i u p j h = ground arith

-- One more level, where `update` is null or a node.
step_none :
    (s t : SkipList) (a : ℕ) (upd : ℕ → Option ℕ) (n p j : ℕ)
    → upd n ≡ none
    → forward_of t p j ≡ (if ltb j n then spliced s a (upd j) p j else forward_of s p j)
    → forward_of t p j ≡ (if ltb j (suc n) then spliced s a (upd j) p j else forward_of s p j)
step_none s t a upd n p j e ih = elim (Bool-cases (j == n)) [
  | inl q ↦ let q' : j ≡ n = ground arith in rw q' (rw q' at ih ∙ ground arith)
  | inr q ↦ ih ∙ ground arith
]

step_some :
    (s t : SkipList) (a : ℕ) (upd : ℕ → Option ℕ) (n u p j : ℕ)
    → upd n ≡ some u
    → u ≢ a
    → ((p j : ℕ)
        → forward_of t p j ≡ (if ltb j n then spliced s a (upd j) p j else forward_of s p j))
    → forward_of (link t a n u) p j
      ≡ (if ltb j (suc n) then spliced s a (upd j) p j else forward_of s p j)
step_some s t a upd n u p j e ne ih = rw (forward-link t a n u p j ne) (elim (Bool-cases (j == n)) [
  | inl q ↦ let q' : j ≡ n = ground arith in rw (q, q', e) (ground (arith, ih u n, ih p n))
  | inr q ↦ rw q (ih p j ∙ ground arith)
])

pub forward-splice :
    (s : SkipList) (a : ℕ) (upd : ℕ → Option ℕ) (n : ℕ)
    → ((i : ℕ) → i < n → upd i ≢ some a)
    → (p j : ℕ)
    → forward_of (splice s a upd n) p j
      ≡ (if ltb j n then spliced s a (upd j) p j else forward_of s p j)
unfolding splice
forward-splice s a upd zero h p j = ground arith
forward-splice s a upd (suc n) h p j =
    let rest = forward-splice s a upd n (λ i lt. h i (omega arith)) in
    elim (Option-cases (upd n)) [
      | inl e ↦ rw (e, splice) (step_none s (splice s a upd n) a upd n p j e (rest p j))
      | inr (u, e) ↦
          rw (e, splice)
            (step_some s (splice s a upd n) a upd n u p j e (λ q. h n (omega arith) (rw (← q) e))
              rest)
    ]
