-- ===== src/SkipList/Prefix.antt =====
-- The range between `begin_preffix` and `end_preffix` of src/skiplist/skipList.cpp.
use tiny_lsm_tree.Common.{ℕ, zero, suc, ◌≤◌, Option, none, some, true, false, List, [], ◌∷◌, ◌++◌}
use tiny_lsm_tree.Common.{
  ◌≡◌, ◌⊎◌, inl, inr, refl, sym, ap, ◌∙◌, arith, map, Bytes, length, length-append, All, In, All-In,
}
use tiny_lsm_tree.Common.{
  bytes_lt, bytes_eq, bytes_lt_trans, bytes_lt_irrefl, Bool-cases, if◌then◌else◌, ◌==◌,
}
use tiny_lsm_tree.SkipList.Node.{SkipList, key_of, forward_of}
use tiny_lsm_tree.SkipList.Find.{Entry, entry_of, flush, search_from_head, lower_bound}
use tiny_lsm_tree.SkipList.Iterator.{
  has_prefix, skip_prefix, begin_preffix, end_preffix, collect, pointer_eq,
}
use tiny_lsm_tree.SkipList.Chain.{Linked, Rising, Holds, IsValid, Stops}
use tiny_lsm_tree.SkipList.Search.{At-Rising}
use tiny_lsm_tree.SkipList.View.{flush-entries, map-append_entries}
use tiny_lsm_tree.SkipList.Get.{search-Searched, Searched-Stops}

-- The entries whose keys begin with the prefix.
unfoldable pub with_prefix : Bytes → List Entry → List Entry
unfolding has_prefix
with_prefix prefix [] = []
with_prefix prefix (e ∷ es) =
    let rest = with_prefix prefix es in if has_prefix prefix e.key then e ∷ rest else rest

-- The entries up to the first one whose key does not begin with the prefix.
unfoldable leading : Bytes → List Entry → List Entry
unfolding has_prefix
leading prefix [] = []
leading prefix (e ∷ es) =
    let rest = leading prefix es in if has_prefix prefix e.key then e ∷ rest else []

-- No key below the prefix begins with it.
below_prefix : (p k : Bytes) → bytes_lt k p ≡ true → has_prefix p k ≡ false
unfolding bytes_lt has_prefix bytes_eq
below_prefix [] k h = absurd (cc h)
below_prefix (c ∷ p) [] h = refl
below_prefix (c ∷ p) (d ∷ k) h = ground (arith, below_prefix p k)

-- Behind a key that is not below the prefix and does not begin with it, no key begins with it.
past_prefix :
    (p k j : Bytes)
    → bytes_lt k p ≡ false
    → has_prefix p k ≡ false
    → bytes_lt k j ≡ true
    → has_prefix p j ≡ false
unfolding bytes_lt has_prefix bytes_eq
past_prefix [] k j h n l = absurd (cc n)
past_prefix (c ∷ p) [] j h n l = absurd (cc h)
past_prefix (c ∷ p) (d ∷ k) [] h n l = refl
past_prefix (c ∷ p) (d ∷ k) (e ∷ j) h n l = ground (arith, past_prefix p k j)

not_below_trans :
    (p k j : Bytes) → bytes_lt k p ≡ false → bytes_lt k j ≡ true → bytes_lt j p ≡ false
not_below_trans p k j h l = elim (Bool-cases (bytes_lt j p)) [
  | inr e ↦ e
  | inl e ↦ cc (bytes_lt_trans k j p l e, h)
]

pub self_eq : (a : ℕ) → (a == a) ≡ true
self_eq a = ground arith

module _ (s : SkipList) (prefix : Bytes) where
  no_prefix :
      (a : ℕ) (zs : List ℕ)
      → bytes_lt (key_of s a) prefix ≡ false
      → has_prefix prefix (key_of s a) ≡ false
      → All (λ b. bytes_lt (key_of s a) (key_of s b) ≡ true) zs
      → with_prefix prefix (map (entry_of s) zs) ≡ []
  unfolding with_prefix
  no_prefix a [] h n l = refl
  no_prefix a (z ∷ zs) h n l =
      rw (past_prefix prefix (key_of s a) (key_of s z) h n l.0) (no_prefix a zs h n l.1)

  -- From the first key that is not below the prefix on, those with the prefix come first.
  leading-with_prefix :
      (a : ℕ) (zs : List ℕ)
      → bytes_lt (key_of s a) prefix ≡ false
      → Rising s (a ∷ zs)
      → leading prefix (map (entry_of s) (a ∷ zs)) ≡ with_prefix prefix (map (entry_of s) (a ∷ zs))
  unfolding with_prefix leading
  leading-with_prefix a [] h r = elim (Bool-cases (has_prefix prefix (key_of s a))) [
    | inr e ↦ rw e refl
    | inl e ↦ rw e refl
  ]
  leading-with_prefix a (z ∷ zs) h r = elim (Bool-cases (has_prefix prefix (key_of s a))) [
    | inr e ↦ rw e (sym (no_prefix a (z ∷ zs) h e r.0))
    | inl e ↦ rw e (
        ap (λ (l : List Entry). entry_of s a ∷ l)
          (leading-with_prefix z zs (not_below_trans prefix (key_of s a) (key_of s z) h r.0.0) r.1))
  ]

  below-with_prefix :
      (ws : List ℕ) (es : List Entry)
      → All (λ b. bytes_lt (key_of s b) prefix ≡ true) ws
      → with_prefix prefix (map (entry_of s) ws ++ es) ≡ with_prefix prefix es
  unfolding with_prefix
  below-with_prefix [] es h = refl
  below-with_prefix (w ∷ ws) es h =
      rw (below_prefix prefix (key_of s w) h.0) (below-with_prefix ws es h.1)

  -- Where the loop of `end_preffix` stops: at the end or at a node further on.
  skip_prefix-In :
      (fuel q : ℕ) (zs : List ℕ)
      → Linked s q zs
      → length zs ≤ fuel
      → (skip_prefix s prefix fuel (forward_of s q 0) ≡ none)
        ⊎ ((b : ℕ) × In b zs × (skip_prefix s prefix fuel (forward_of s q 0) ≡ some b))
  unfolding skip_prefix
  skip_prefix-In zero q [] h f = inl (h 0)
  skip_prefix-In zero q (a ∷ zs) h f = absurd (omega arith)
  skip_prefix-In (suc fuel) q [] h f = inl (rw (h 0) refl)
  skip_prefix-In (suc fuel) q (a ∷ zs) h f = elim (Bool-cases (has_prefix prefix (key_of s a))) [
    | inr e ↦ inr (a, inl refl, rw (h.0, skip_prefix, e) refl)
    | inl e ↦ elim (skip_prefix-In fuel a zs h.2 (omega arith)) [
      | inl n ↦ inl (rw (h.0, skip_prefix, e) n)
      | inr (b, m, g) ↦ inr (b, inr m, rw (h.0, skip_prefix, e) g)
    ]
  ]

  -- A node is not one of those behind it.
  pub pointer_apart :
      (a : ℕ) (zs : List ℕ) (o : Option ℕ)
      → Rising s (a ∷ zs)
      → (o ≡ none) ⊎ ((b : ℕ) × In b zs × (o ≡ some b))
      → pointer_eq (some a) o ≡ false
  pointer_apart a zs o r (inl e) = rw e refl
  pointer_apart a zs o r (inr (b, m, e)) = rw e (elim (Bool-cases (a == b)) [
    | inr n ↦ n
    | inl y ↦
        let same : a ≡ b = ground arith in
        absurd (
          cc (
            All-In (λ (x : ℕ). bytes_lt (key_of s a) (key_of s x) ≡ true) b zs r.0 m,
            same,
            bytes_lt_irrefl (key_of s b),
          ))
  ])

  collect-leading :
      (fuel q : ℕ) (zs : List ℕ)
      → Linked s q zs
      → Rising s zs
      → length zs ≤ fuel
      → collect s fuel (forward_of s q 0) (skip_prefix s prefix fuel (forward_of s q 0))
        ≡ leading prefix (map (entry_of s) zs)
  unfolding collect leading skip_prefix
  collect-leading zero q [] h r f = refl
  collect-leading zero q (a ∷ zs) h r f = absurd (omega arith)
  collect-leading (suc fuel) q [] h r f = rw (h 0) refl
  collect-leading (suc fuel) q (a ∷ zs) h r f = elim (Bool-cases (has_prefix prefix (key_of s a))) [
    | inr e ↦ rw (h.0, skip_prefix, e, collect, self_eq a) refl
    | inl e ↦
        rw
          (
            h.0,
            skip_prefix,
            e,
            collect,
            pointer_apart a zs (skip_prefix s prefix fuel (forward_of s a 0)) r
                (skip_prefix-In fuel a zs h.2 (omega arith)),
            e,
          )
          (ap (λ (l : List Entry). entry_of s a ∷ l)
            (collect-leading fuel a zs h.2 r.1 (omega arith)))
  ]

  tail_with_prefix :
      (cur : ℕ) (zs : List ℕ)
      → Linked s cur zs
      → Rising s zs
      → Stops s prefix 0 cur
      → leading prefix (map (entry_of s) zs) ≡ with_prefix prefix (map (entry_of s) zs)
  unfolding leading with_prefix
  tail_with_prefix cur [] h r st = refl
  tail_with_prefix cur (a ∷ zs) h r st = leading-with_prefix a zs (st a h.0) r

  range-Holds :
      (xs : List ℕ)
      → Holds s xs
      → collect s s.next (begin_preffix s prefix) (end_preffix s prefix)
        ≡ with_prefix prefix (flush s)
  unfolding begin_preffix end_preffix lower_bound
  range-Holds xs h =
      let r = search-Searched s prefix xs h in
      let st =
        Searched-Stops s prefix xs (search_from_head s prefix).0 (search_from_head s prefix).1
          h.has_level r in
      let t = r.at in
      let rises = At-Rising s prefix s.head (search_from_head s prefix).0 xs t h.rising in
      let fits : length t.zs ≤ s.next =
        omega (arith, h.room, ap length t.split, length-append t.ws t.zs) in
      rw (flush-entries s xs h, t.split, map-append_entries s t.ws t.zs)
        (collect-leading s.next (search_from_head s prefix).0 t.zs t.rest rises fits
          ∙ tail_with_prefix (search_from_head s prefix).0 t.zs t.rest rises st
          ∙ sym (below-with_prefix t.ws (map (entry_of s) t.zs) t.below))

-- In a well-formed list a loop from `begin_preffix` to `end_preffix` reads exactly the entries that
-- `flush` reports whose keys begin with the prefix, in the same order.
pub prefix_range-flush :
    (s : SkipList) (prefix : Bytes)
    → IsValid s
    → collect s s.next (begin_preffix s prefix) (end_preffix s prefix)
      ≡ with_prefix prefix (flush s)
prefix_range-flush s prefix h = range-Holds s prefix h.chain h.holds
