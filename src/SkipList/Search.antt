-- ===== src/SkipList/Search.antt =====
-- What the search of src/skiplist/skipList.cpp finds in a well-formed list: on every level the
-- last node whose key is below the wanted one. The fuel of its loops suffices.
use tiny_lsm_tree.Common.{ℕ, zero, suc, ◌≤◌, ◌<◌, Option, some, true, List, [], ◌∷◌}
use tiny_lsm_tree.Common.{◌≡◌, inl, inr, refl, ap, subst, arith, Bytes, ◌==◌}
use tiny_lsm_tree.Common.{bytes_lt, length, length-append, In, Option-cases, Bool-cases}
use tiny_lsm_tree.SkipList.Node.{SkipList, update, key_of, forward_of}
use tiny_lsm_tree.SkipList.Find.{walk, descend}
use tiny_lsm_tree.SkipList.Chain.{Linked, Rising, Stops, At, jump, Rising-append_right}
use tiny_lsm_tree.SkipList.Chain.{At-trans, At-refl, Linked-In}

jump-shrinks :
    (s : SkipList) (k : Bytes) (p b : ℕ) (ys : List ℕ) (h : Linked s p ys) (r : Rising s ys)
    (m : In b ys) (lt : bytes_lt (key_of s b) k ≡ true)
    → length (jump s k p b ys h r m lt).zs < length ys
unfolding jump
jump-shrinks s k p b [] h r m lt = elim m [ ]
jump-shrinks s k p b (a ∷ ys) h r (inl e) lt = omega arith
jump-shrinks s k p b (a ∷ ys) h r (inr m) lt = omega (arith, jump-shrinks s k a b ys h.2 r.1 m lt)

pub At-Rising :
    (s : SkipList) (k : Bytes) (p r : ℕ) (ys : List ℕ) (t : At s k p ys r)
    → Rising s ys
    → Rising s t.zs
At-Rising s k p r ys t h = Rising-append_right s t.ws t.zs (subst (Rising s) t.split h)

At-length :
    (s : SkipList) (k : Bytes) (p r : ℕ) (ys : List ℕ) (t : At s k p ys r) → length t.zs ≤ length ys
At-length s k p r ys t = omega (arith, ap length t.split, length-append t.ws t.zs)

-- With as much fuel as there are nodes to come, one level's loop ends by its test.
pub walk-At :
    (s : SkipList) (i : ℕ) (k : Bytes) (fuel p : ℕ) (ys : List ℕ)
    → Linked s p ys
    → Rising s ys
    → length ys ≤ fuel
    → At s k p ys (walk s i k fuel p) × Stops s k i (walk s i k fuel p)
unfolding walk
walk-At s i k zero p [] h r f = (At-refl s k p [] h, λ b e. cc (h i))
walk-At s i k zero p (a ∷ ys) h r f = absurd (omega arith)
walk-At s i k (suc fuel) p ys h r f = elim (Option-cases (forward_of s p i)) [
  | inl e ↦ rw (e, walk) (At-refl s k p ys h, λ b e'. cc)
  | inr (b, e) ↦ elim (Bool-cases (bytes_lt (key_of s b) k)) [
    | inr no_ ↦ rw (e, walk, no_) (At-refl s k p ys h, λ b' e'. cc)
    | inl lt ↦
        let m = Linked-In s p i b ys h e in
        let t = jump s k p b ys h r m lt in
        let ih =
          walk-At s i k fuel b t.zs t.rest (At-Rising s k p b ys t r)
            (omega (arith, jump-shrinks s k p b ys h r m lt)) in
        rw (e, walk, lt) (At-trans s k p b _ ys t ih.0, ih.1)
  ]
]

-- `update[i]` is the last node on level `i` whose key is below `k`.
abbrev pub Passed : SkipList → Bytes → ℕ → List ℕ → (ℕ → Option ℕ) → ℕ → Type 0
Passed s k p ys upd i = (u : ℕ) × (upd i ≡ some u) × At s k p ys u × Stops s k i u

module _ (s : SkipList) (k : Bytes) (p : ℕ) (ys : List ℕ) (r : Rising s ys)
    (f : length ys ≤ s.next) where
  descend_step :
      (i cur : ℕ)
      → At s k p ys cur
      → At s k p ys (walk s i k s.next cur) × Stops s k i (walk s i k s.next cur)
  descend_step i cur t =
      let w =
        walk-At s i k s.next cur t.zs t.rest (At-Rising s k p cur ys t r)
          (omega (arith, At-length s k p cur ys t)) in
      (At-trans s k p cur _ ys t w.0, w.1)

  pub descend-At :
      (n cur : ℕ) (upd : ℕ → Option ℕ) → At s k p ys cur → At s k p ys (descend s k n cur upd).0
  unfolding descend
  descend-At zero cur upd t = t
  descend-At (suc i) cur upd t =
      descend-At i (walk s i k s.next cur) (update upd i (some (walk s i k s.next cur)))
        (descend_step i cur t).0

  pub descend-Passed :
      (n m cur : ℕ) (upd : ℕ → Option ℕ)
      → At s k p ys cur
      → ((i : ℕ) → n ≤ i → i < m → Passed s k p ys upd i)
      → (i : ℕ) → i < m
      → Passed s k p ys (descend s k n cur upd).1 i
  unfolding descend
  descend-Passed zero m cur upd t h = λ i lt. h i (omega arith) lt
  descend-Passed (suc n) m cur upd t h =
      descend-Passed n m c (update upd n (some c)) (descend_step n cur t).0 good
    where
      c : ℕ
      c = walk s n k s.next cur

      good : (i : ℕ) → n ≤ i → i < m → Passed s k p ys (update upd n (some c)) i
      good i le lt = elim (Bool-cases (i == n)) [
        | inl e ↦
            let e' : i ≡ n = ground arith in
            rw (e, e') (c, refl, (descend_step n cur t).0, (descend_step n cur t).1)
        | inr e ↦ rw e (h i (ground arith) lt)
      ]

  -- The search ends in `update[0]`.
  pub descend_last :
      (n cur : ℕ) (upd : ℕ → Option ℕ)
      → (n ≡ 0 → upd 0 ≡ some cur)
      → (descend s k n cur upd).1 0 ≡ some (descend s k n cur upd).0
  unfolding descend
  descend_last zero cur upd h = h refl
  descend_last (suc n) cur upd h =
      descend_last n (walk s n k s.next cur) (update upd n (some (walk s n k s.next cur)))
        (λ e. ground arith)
