-- ===== src/SkipList/Bottom.antt =====
-- Level 0 of a list of src/skiplist/skipList.cpp after `remove` has led it past a node.
use tiny_lsm_tree.Common.{ℕ, zero, suc, ◌≤◌, none, some, true, false}
use tiny_lsm_tree.Common.{List, [], ◌∷◌, ◌++◌, ◌==◌}
use tiny_lsm_tree.Common.{◌≡◌, ◌≢◌, refl, sym, ap, ◌∙◌, subst, arith, map, Bytes}
use tiny_lsm_tree.Common.{bytes_lt, bytes_lt_irrefl}
use tiny_lsm_tree.Common.{if◌then◌else◌, length, All}
use tiny_lsm_tree.SkipList.Node.{SkipList, key_of, forward_of}
use tiny_lsm_tree.SkipList.Find.{entry_of, flush_loop}
use tiny_lsm_tree.SkipList.Chain.{Linked, Ends}

-- Level 0 alone runs from `p` through exactly the addresses of the list.
abbrev pub Bottom : SkipList → ℕ → List ℕ → Type 0
Bottom s p [] = forward_of s p 0 ≡ none
Bottom s p (a ∷ ys) = (forward_of s p 0 ≡ some a) × Bottom s a ys

-- `flush` of a list reads only level 0, and the entries of the nodes there.
pub flush_loop-Bottom :
    (s t : SkipList) (fuel p : ℕ) (ys : List ℕ)
    → ((b : ℕ) → entry_of t b ≡ entry_of s b)
    → Bottom t p ys
    → length ys ≤ fuel
    → flush_loop t fuel (forward_of t p 0) ≡ map (entry_of s) ys
unfolding flush_loop
flush_loop-Bottom s t zero p [] g h f = refl
flush_loop-Bottom s t zero p (a ∷ ys) g h f = absurd (omega arith)
flush_loop-Bottom s t (suc fuel) p [] g h f = rw h
flush_loop-Bottom s t (suc fuel) p (a ∷ ys) g h f =
    rw (h.0, flush_loop-Bottom s t fuel a ys g h.1 (omega arith), g a)

-- `t` is `s` with level 0 leading from `cur` past `a`, whose key is `k`.
module _ (s t : SkipList) (k : Bytes) (a cur : ℕ)
    (past : (p : ℕ) → forward_of t p 0 ≡ (if p == cur then forward_of s a 0 else forward_of s p 0))
    (here : forward_of s cur 0 ≡ some a) (same : key_of s a ≡ k) where
  Bottom-after : (p : ℕ) (ys : List ℕ) → All (λ b. b ≢ cur) (p ∷ ys) → Linked s p ys → Bottom t p ys
  Bottom-after p [] g h = let ne : (p == cur) ≡ false = ground (arith, g.0) in past p ∙ rw ne (h 0)
  Bottom-after p (b ∷ ys) g h =
      let ne : (p == cur) ≡ false = ground (arith, g.0) in
      (past p ∙ rw ne h.0, Bottom-after b ys g.1 h.2)

  Bottom-past : (zs : List ℕ) → All (λ b. b ≢ cur) zs → Linked s a zs → Bottom t cur zs
  Bottom-past [] g h = let e : (cur == cur) ≡ true = ground arith in past cur ∙ rw e (h 0)
  Bottom-past (b ∷ zs) g h =
      let e : (cur == cur) ≡ true = ground arith in (past cur ∙ rw e h.0, Bottom-after b zs g h.2)

  pub Bottom-removed :
      (p : ℕ) (ws zs : List ℕ)
      → All (λ b. bytes_lt (key_of s b) k ≡ true) ws
      → All (λ b. b ≢ cur) zs
      → Ends p ws cur
      → Linked s p (ws ++ a ∷ zs)
      → Bottom t p (ws ++ zs)
  Bottom-removed p [] zs bl g e h = subst (λ (q : ℕ). Bottom t q zs) (sym e) (Bottom-past zs g h.2)
  Bottom-removed p (w ∷ ws) zs bl g e h =
      let ne : (p == cur) ≡ false = ground (arith, not_cur) in
      (past p ∙ rw ne h.0, Bottom-removed w ws zs bl.1 g e h.2)
    where
      -- behind `cur` stands `a`, and the key of `w` is smaller
      not_cur : p ≢ cur
      not_cur q =
          let f = ap (λ (x : ℕ). forward_of s x 0) q in
          let wa : some w ≡ some a = sym h.0 ∙ f ∙ here in cc (wa, same, bl.0, bytes_lt_irrefl k)
