-- ===== src/Level/Skip.antt =====
-- skip_key of Level_Iterator (src/lsm/level_iterator.cpp): it takes one key out of every iterator
-- and leaves the others as they are.
use tiny_lsm_tree.Common.{ℕ, zero, suc, ◌≤◌, ◌<◌, Option, none, some, true, false, List, [], ◌∷◌}
use tiny_lsm_tree.Common.{◌≡◌, refl, ap, ◌∙◌, inl, inr, arith, Bytes, All, length}
use tiny_lsm_tree.Common.{bytes_eq, bytes_lt, Bool-cases, Option-cases, bytes_eq→eq}
use tiny_lsm_tree.SkipList.View.{gt→ne}
use tiny_lsm_tree.Heap.Merge.{Pair}
use tiny_lsm_tree.Heap.Drain.{find_pair}
use tiny_lsm_tree.Level.Base.{BaseIterator, Stands, IsIterator, ended, at}
use tiny_lsm_tree.Level.Iterator.{skip_iter, skip_key, left}
use tiny_lsm_tree.Level.Lists.{
  Above, AtLeast, Rising, value_in, drop_head, drop_head-Above, drop_head-Rising,
  find_pair-drop_head, find_pair-Above, lt_of_ne, Above-trans,
}
use tiny_lsm_tree.Level.Least.{all_reads, AllRising, AllAtLeast}

drop_head-shorter :
    (k v : Bytes) (l : List Pair)
    → AtLeast k l
    → Rising l
    → find_pair k l ≡ some v
    → length (drop_head k l) < length l
unfolding find_pair drop_head
drop_head-shorter k v [] a r h = absurd (cc h)
drop_head-shorter k v (p ∷ ps) a r h = elim (Bool-cases (bytes_eq p.0 k)) [
  | inl e ↦ rw e (omega arith)
  | inr e ↦
      let below : bytes_lt k p.0 ≡ true = lt_of_ne k p.0 a.0 e in
      absurd (cc (find_pair-Above k (p ∷ ps) (below, Above-trans k p.0 ps below r.1), h))
]

length-drop_head : (k : Bytes) (l : List Pair) → length (drop_head k l) ≤ length l
unfolding drop_head
length-drop_head k [] = omega arith
length-drop_head k (p ∷ ps) = ground arith

Above-drop_head : (j k : Bytes) (l : List Pair) → Above j l → Above j (drop_head k l)
unfolding drop_head
Above-drop_head j k [] a = tt
Above-drop_head j k (p ∷ ps) a = elim (Bool-cases (bytes_eq p.0 k)) [
  | inl e ↦ rw e a.1
  | inr e ↦ rw e a
]

module _ {I : Type 0} (b : BaseIterator I) where
  abbrev pub AllAbove : Bytes → List I → Type 0
  AllAbove k = All (λ (it : I). Above k (b.reads it))

  skip_iter-Above :
      (fuel : ℕ) (k : Bytes) (it : I)
      → Stands b it
      → Above k (b.reads it)
      → skip_iter b fuel k it ≡ it
  unfolding skip_iter bytes_eq
  skip_iter-Above zero k it s a = refl
  skip_iter-Above (suc fuel) k it (ended r v) a = rw (skip_iter, v) refl
  skip_iter-Above (suc fuel) k it (at p ps r v d _) a =
      let a' : Above k (p ∷ ps) = rw r at a in rw (skip_iter, v, d, gt→ne p.0 k a'.0) refl

  skip_at :
      (k : Bytes) (it : I) (p : Pair) (ps : List Pair)
      → IsIterator b
      → b.reads it ≡ p ∷ ps
      → b.is_valid it ≡ true
      → b.deref it ≡ p
      → b.reads (b.advance it) ≡ ps
      → Rising (p ∷ ps)
      → b.reads (skip_iter b (suc (length ps)) k it) ≡ drop_head k (p ∷ ps)
  unfolding skip_iter drop_head bytes_eq
  skip_at k it p ps law r v d n rise = elim (Bool-cases (bytes_eq p.0 k)) [
    | inl e ↦
        let above : Above k (b.reads (b.advance it)) = rw (n, ← bytes_eq→eq p.0 k e) rise.1 in
        let stops = skip_iter-Above (length ps) k (b.advance it) (law (b.advance it)) above in
        rw (skip_iter, v, d, e) (ap b.reads stops ∙ n)
    | inr e ↦ rw (skip_iter, v, d, e) r
  ]

  -- The inner loop of skip_key takes the key away, if the iterator stands at it.
  skip_iter-reads :
      (k : Bytes) (it : I)
      → IsIterator b
      → Stands b it
      → Rising (b.reads it)
      → b.reads (skip_iter b (length (b.reads it)) k it) ≡ drop_head k (b.reads it)
  unfolding skip_iter drop_head
  skip_iter-reads k it law (ended r v) rise = rw r r
  skip_iter-reads k it law (at p ps r v d n) rise =
      rw r (skip_at k it p ps law r v d n (rw r at rise))

  -- What `skip_key k` leaves of iterators whose keys are at least `k`.
  pub record Skipped (k : Bytes) (vec rest : List I) : Type 0 where
    pub rise : AllRising b rest
    pub above : AllAbove k rest
    pub shorter : left b rest ≤ left b vec
    pub strictly : (v : Bytes) → value_in k (all_reads b vec) ≡ some v → left b rest < left b vec
    pub others :
        (j : Bytes)
        → bytes_eq k j ≡ false
        → value_in j (all_reads b rest) ≡ value_in j (all_reads b vec)
    pub bound : (j : Bytes) → AllAbove j vec → AllAbove j rest

  skip_cons :
      (k : Bytes) (it it' : I) (vec rest : List I)
      → b.reads it' ≡ drop_head k (b.reads it)
      → Rising (b.reads it)
      → AtLeast k (b.reads it)
      → Skipped k vec rest
      → Skipped k (it ∷ vec) (it' ∷ rest)
  unfolding left value_in
  skip_cons k it it' vec rest e rise a s = record {
    rise = (rw e (drop_head-Rising k (b.reads it) rise), s.rise);
    above = (rw e (drop_head-Above k (b.reads it) rise a), s.above);
    shorter = rw (left, e) (omega (arith, length-drop_head k (b.reads it), s.shorter));
    strictly = λ v h. elim (Option-cases (find_pair k (b.reads it))) [
      | inl n ↦
          rw (left, e)
            (omega (arith, length-drop_head k (b.reads it), s.strictly v (rw (value_in, n) at h)))
      | inr (w, f) ↦
          rw (left, e) (omega (arith, drop_head-shorter k w (b.reads it) a rise f, s.shorter))
    ];
    others = λ j n.
        rw (value_in, e, find_pair-drop_head j k (b.reads it) n)
          (ap (λ (o : Option Bytes). elim (find_pair j (b.reads it)) [ some v ↦ some v | none ↦ o ])
            (s.others j n));
    bound = λ j h. (rw e (Above-drop_head j k (b.reads it) h.0), s.bound j h.1);
  }

  pub skip_key-Skipped :
      IsIterator b
      → (k : Bytes) (vec : List I) → AllRising b vec
      → AllAtLeast b k vec
      → Skipped k vec (skip_key b k vec)
  unfolding skip_key value_in
  skip_key-Skipped law k [] rise a = record {
    rise = tt;
    above = tt;
    shorter = omega arith;
    strictly = λ v h. absurd (cc h);
    others = λ j n. refl;
    bound = λ j h. h;
  }
  skip_key-Skipped law k (it ∷ vec) rise a =
      skip_cons k it (skip_iter b (length (b.reads it)) k it) vec (skip_key b k vec)
        (skip_iter-reads k it law (law it) rise.0) rise.0 a.0
        (skip_key-Skipped law k vec rise.1 a.1)
