-- ===== src/SkipList/Joined.antt =====
-- The list of `put` of src/skiplist/skipList.cpp after its two loops, pointer by pointer.
use tiny_lsm_tree.Common.{ℕ, ◌+◌, ◌%◌, ◌≤◌, ◌<◌, Option, none, some, true, false}
use tiny_lsm_tree.Common.{◌≡◌, ◌≢◌, ◌⊎◌, inl, inr, sym, ◌∙◌, arith, Bytes}
use tiny_lsm_tree.Common.{Bool-cases, ◌==◌, ltb}
use tiny_lsm_tree.Common.{if◌then◌else◌}
use tiny_lsm_tree.SkipList.Node.{SkipList, forward_of}
use tiny_lsm_tree.SkipList.Find.{entry_of}
use tiny_lsm_tree.SkipList.Write.{allocate, node_size, size_mod, splice, splice_back}
use tiny_lsm_tree.SkipList.Splice.{
  Frame, Frame-trans, Frame-splice, Frame-splice_back, spliced, forward-splice, forward-splice_back,
}
use tiny_lsm_tree.SkipList.Insert.{LinkedIn}
use tiny_lsm_tree.SkipList.Tower.{level_of}

-- The list with the new node linked in, for a level `n` and the nodes `upd` to link it behind.
module _ (s : SkipList) (k v : Bytes) (tid n drawn : ℕ) (upd : ℕ → Option ℕ) where
  abbrev base : SkipList
  base = allocate s k v tid n drawn

  abbrev pub joined : SkipList
  joined = splice_back (splice base s.next upd n) s.next upd n

  pub forward-base :
      (p i : ℕ) → forward_of base p i ≡ (if p == s.next then none else forward_of s p i)
  unfolding allocate
  forward-base p i = ground arith

  Frame-joined : Frame base joined
  Frame-joined =
      Frame-trans base _ _ (Frame-splice base s.next upd n)
        (Frame-splice_back (splice base s.next upd n) s.next upd n)

  entry-base : (p : ℕ) → p ≢ s.next → entry_of base p ≡ entry_of s p
  unfolding allocate
  entry-base p ne = let e : (p == s.next) ≡ false = ground arith in rw e

  pub entry-new : entry_of joined s.next ≡ record { key = k; value = v; tranc_id = tid }
  unfolding allocate
  entry-new = Frame-joined.entry s.next ∙ (let e : (s.next == s.next) ≡ true = ground arith in rw e)

  pub head-joined : joined.head ≡ s.head
  unfolding allocate
  head-joined = Frame-joined.head

  pub next-joined : joined.next ≡ s.next + 1
  unfolding allocate
  next-joined = Frame-joined.next

  pub size-joined : joined.size_bytes ≡ (s.size_bytes + node_size k v) % size_mod
  unfolding allocate
  size-joined = Frame-joined.size_bytes

  pub level-joined : (n ≤ joined.current_level) × (s.current_level ≤ joined.current_level)
  unfolding allocate
  level-joined =
      let e : joined.current_level ≡ (if ltb s.current_level n then n else s.current_level) =
        Frame-joined.current_level in
      ground arith

  pub top-joined :
      (joined.current_level ≡ (if ltb s.current_level n then n else s.current_level))
      × (joined.max_level ≡ s.max_level)
  unfolding allocate
  top-joined = (Frame-joined.current_level, Frame-joined.max_level)

  pub levels-joined : (p : ℕ) → level_of joined p ≡ (if p == s.next then n else level_of s p)
  unfolding allocate
  levels-joined p =
      let e : level_of base p ≡ (if p == s.next then n else level_of s p) = ground arith in
      Frame-joined.level p ∙ e

  module _ (low : (i u : ℕ) → i < n → upd i ≡ some u → u < s.next) where
    upd_ne : (i : ℕ) → i < n → upd i ≢ some s.next
    upd_ne i lt e = omega (arith, low i s.next lt e)

    pub forward-joined :
        (p i : ℕ)
        → forward_of joined p i
          ≡ (if ltb i n then spliced base s.next (upd i) p i else forward_of base p i)
    forward-joined p i =
        forward-splice_back (splice base s.next upd n) s.next upd n p i
        ∙ forward-splice base s.next upd n upd_ne p i

    pub Linked_in-joined :
        1 ≤ n → ((i : ℕ) → i < n → (u : ℕ) × (upd i ≡ some u)) → LinkedIn s joined s.next n upd
    Linked_in-joined pos named = record {
      new_edge = λ i b e. new_edge i b (sym (forward-joined s.next i) ∙ e);
      new_bottom = λ u e. forward-joined s.next 0 ∙ ground (arith, forward-base u 0, low 0 u, e);
      old_edge = λ p i b ne e. old_edge p i b ne (sym (forward-joined p i) ∙ e);
      passed_bottom = λ u ne e. forward-joined u 0 ∙ ground (arith, e, ne);
      kept = λ p i ne other. forward-joined p i ∙ kept p i ne other;
      same_entry = λ p ne. Frame-joined.entry p ∙ entry-base p ne;
    }
      where
        new_edge :
            (i b : ℕ)
            → (if ltb i n then spliced base s.next (upd i) s.next i else forward_of base s.next i)
              ≡ some b
            → (u : ℕ) × (i < n) × (upd i ≡ some u) × (forward_of s u i ≡ some b)
        new_edge i b e = elim (Bool-cases (ltb i n)) [
          | inr off ↦ absurd (ground (arith, forward-base s.next i))
          | inl on ↦
              let lt : i < n = ground arith in
              let (u, eu) = named i lt in
              (u, lt, eu, ground (arith, forward-base u i, low i u lt eu))
        ]

        old_edge :
            (p i b : ℕ)
            → p ≢ s.next
            → (if ltb i n then spliced base s.next (upd i) p i else forward_of base p i) ≡ some b
            → (b ≡ s.next) ⊎ (forward_of s p i ≡ some b)
        old_edge p i b ne e = ground (arith, forward-base p i)

        kept :
            (p i : ℕ)
            → p ≢ s.next
            → (i < n → upd i ≢ some p)
            → (if ltb i n then spliced base s.next (upd i) p i else forward_of base p i)
              ≡ forward_of s p i
        kept p i ne other = ground (arith, forward-base p i)
