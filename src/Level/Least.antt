-- ===== src/Level/Least.antt =====
-- get_min_key_idx of Level_Iterator (src/lsm/level_iterator.cpp): it chooses the first of the
-- iterators that stand at the least key.
use tiny_lsm_tree.Common.{ℕ, suc, ◌+◌, none, some, true, false, List, [], ◌∷◌, ◌++◌}
use tiny_lsm_tree.Common.{
  ◌≡◌, refl, sym, ap, subst, ◌∙◌, inl, inr, arith, map, Bytes, All, get_elem?,
}
use tiny_lsm_tree.Common.{bytes_eq, bytes_lt, is_empty, Bool-cases, append_assoc}
use tiny_lsm_tree.Common.{bytes_eq_refl, All-append, All-imp, append-nil}
use tiny_lsm_tree.Heap.Merge.{Pair}
use tiny_lsm_tree.Heap.Order.{lt_asym}
use tiny_lsm_tree.Heap.Drain.{find_pair}
use tiny_lsm_tree.Level.Base.{BaseIterator, Stands, IsIterator, ended, at}
use tiny_lsm_tree.Level.Iterator.{LevelIterator, Min, min_step, min_loop, get_min_key_idx, key_at}
use tiny_lsm_tree.Level.Lists.{
  AtLeast, Rising, Rising-AtLeast, AtLeast-trans, value_in, find_pair-below,
}

module _ {I : Type 0} (b : BaseIterator I) where
  abbrev pub all_reads : List I → List (List Pair)
  all_reads = map b.reads

  abbrev pub AllRising : List I → Type 0
  AllRising = All (λ (it : I). Rising (b.reads it))

  abbrev pub AllAtLeast : Bytes → List I → Type 0
  AllAtLeast k = All (λ (it : I). AtLeast k (b.reads it))

  -- The choice among the iterators `seen`, which stand in `vec`.
  pub record Chosen (vec seen : List I) (m : Min) : Type 0 where
    pub it : I
    pub value : Bytes
    pub place : get_elem? vec m.min_idx ≡ some it
    pub stands : b.is_valid it ≡ true
    pub shows : b.deref it ≡ (m.min_key, value)
    pub first : value_in m.min_key (all_reads seen) ≡ some value
    pub least : AllAtLeast m.min_key seen
    pub full : is_empty m.min_key ≡ false

  -- Nothing seen yet stands at a pair.
  pub record Fresh (seen : List I) (m : Min) : Type 0 where
    pub none_yet : m.min_key ≡ []
    pub ended : All (λ (it : I). b.reads it ≡ []) seen

  pub data Seen (vec seen : List I) (m : Min) : Type 0 where
    fresh : Fresh seen m → Seen vec seen m
    chosen : Chosen vec seen m → Seen vec seen m

  ended-AllAtLeast :
      (k : Bytes) (its : List I) → All (λ (it : I). b.reads it ≡ []) its → AllAtLeast k its
  ended-AllAtLeast k its h =
      All-imp (λ (it : I). b.reads it ≡ []) (λ (it : I). AtLeast k (b.reads it)) its
        (λ it m e. rw e tt) h

  ended-value_in :
      (k : Bytes) (its : List I)
      → All (λ (it : I). b.reads it ≡ []) its
      → value_in k (all_reads its) ≡ none
  unfolding value_in find_pair
  ended-value_in k [] h = refl
  ended-value_in k (it ∷ its) h = rw h.0 (ended-value_in k its h.1)

  below-value_in :
      (j k : Bytes) (its : List I)
      → bytes_lt j k ≡ true
      → AllAtLeast k its
      → value_in j (all_reads its) ≡ none
  unfolding value_in
  below-value_in j k [] h a = refl
  below-value_in j k (it ∷ its) h a =
      rw (value_in, find_pair-below j k (b.reads it) h a.0) (below-value_in j k its h a.1)

  all_reads-append :
      (xs : List I) (it : I) → all_reads (xs ++ it ∷ []) ≡ all_reads xs ++ b.reads it ∷ []
  all_reads-append [] it = refl
  all_reads-append (x ∷ xs) it =
      ap (λ (l : List (List Pair)). b.reads x ∷ l) (all_reads-append xs it)

  -- The value of a key with one more iterator behind.
  pub value_in-snoc :
      (k : Bytes) (seen : List I) (it : I)
      → value_in k (all_reads (seen ++ it ∷ []))
        ≡ elim (value_in k (all_reads seen)) [ some v ↦ some v | none ↦ find_pair k (b.reads it) ]
  unfolding value_in
  value_in-snoc k [] it = ground arith
  value_in-snoc k (x ∷ seen) it = ground (arith, value_in-snoc k seen it)

  find_first : (p : Pair) (ps : List Pair) → find_pair p.0 (p ∷ ps) ≡ some p.1
  unfolding find_pair
  find_first p ps = rw (bytes_eq_refl p.0) refl

  -- What a choice comes to behind an iterator that changes nothing.
  keep :
      (vec seen : List I) (it : I) (m : Min) (c : Chosen vec seen m)
      → AtLeast m.min_key (b.reads it)
      → Chosen vec (seen ++ it ∷ []) m
  keep vec seen it m c a = record {
    it = c.it;
    value = c.value;
    place = c.place;
    stands = c.stands;
    shows = c.shows;
    first = value_in-snoc m.min_key seen it ∙ rw c.first refl;
    least = All-append (λ (x : I). AtLeast m.min_key (b.reads x)) seen (it ∷ []) c.least (a, tt);
    full = c.full;
  }

  -- The iterator `it`, with index `i`, becomes the choice.
  take_it :
      (vec seen : List I) (it : I) (i : ℕ) (p : Pair) (ps : List Pair)
      → get_elem? vec i ≡ some it
      → b.reads it ≡ p ∷ ps
      → b.is_valid it ≡ true
      → b.deref it ≡ p
      → Rising (b.reads it)
      → value_in p.0 (all_reads seen) ≡ none
      → AllAtLeast p.0 seen
      → Chosen vec (seen ++ it ∷ []) (record { min_idx = i; min_key = (b.deref it).0 })
  take_it vec seen it i p ps place r v d rise none_before least =
      let rise' : Rising (p ∷ ps) = rw r at rise in
      rw d (record {
        it = it;
        value = p.1;
        place = place;
        stands = v;
        shows = d;
        first = value_in-snoc p.0 seen it ∙ rw (none_before, r) (find_first p ps);
        least =
            All-append (λ (x : I). AtLeast p.0 (b.reads x)) seen (it ∷ []) least
              (rw r (Rising-AtLeast p ps rise'), tt);
        full = rise'.0;
      })

  step-Chosen :
      (vec seen : List I) (it : I) (i : ℕ) (m : Min) (p : Pair) (ps : List Pair)
      → get_elem? vec i ≡ some it
      → b.reads it ≡ p ∷ ps
      → b.is_valid it ≡ true
      → b.deref it ≡ p
      → Rising (b.reads it)
      → Chosen vec seen m
      → Chosen vec (seen ++ it ∷ []) (min_step b 0 vec it i m)
  unfolding min_step
  step-Chosen vec seen it i m p ps place r v d rise c =
      let at_min : key_at b vec m.min_idx ≡ m.min_key =
        rw (key_at, c.place) (ap (λ (q : Pair). q.0) c.shows) in
      elim (Bool-cases (bytes_lt (b.deref it).0 m.min_key)) [
        | inl lower ↦
            let less : bytes_lt p.0 m.min_key ≡ true = rw d at lower in
            rw (v, c.full, at_min, lower)
              (take_it vec seen it i p ps place r v d rise
                (below-value_in p.0 m.min_key seen less c.least)
                (All-imp (λ (x : I). AtLeast m.min_key (b.reads x))
                  (λ (x : I). AtLeast p.0 (b.reads x)) seen
                  (λ x z. AtLeast-trans p.0 m.min_key (b.reads x) (lt_asym p.0 m.min_key less))
                  c.least))
        | inr higher ↦
            let more : bytes_lt p.0 m.min_key ≡ false = rw d at higher in
            let a : AtLeast m.min_key (b.reads it) =
              rw r
                (AtLeast-trans m.min_key p.0 (p ∷ ps) more (Rising-AtLeast p ps (rw r at rise))) in
            let c' = keep vec seen it m c a in
            elim (Bool-cases (bytes_eq (b.deref it).0 m.min_key)) [
              | inl e ↦ rw (v, c.full, at_min, higher, e) c'
              | inr e ↦ rw (v, c.full, at_min, higher, e) c'
            ]
      ]

  step-Fresh :
      (vec seen : List I) (it : I) (i : ℕ) (m : Min) (p : Pair) (ps : List Pair)
      → get_elem? vec i ≡ some it
      → b.reads it ≡ p ∷ ps
      → b.is_valid it ≡ true
      → b.deref it ≡ p
      → Rising (b.reads it)
      → Fresh seen m
      → Chosen vec (seen ++ it ∷ []) (min_step b 0 vec it i m)
  unfolding min_step is_empty
  step-Fresh vec seen it i m p ps place r v d rise f =
      rw (v, f.none_yet)
        (take_it vec seen it i p ps place r v d rise (ended-value_in p.0 seen f.ended)
          (ended-AllAtLeast p.0 seen f.ended))

  -- A round of the loop keeps the choice among what was seen.
  min_step-Seen :
      (vec seen : List I) (it : I) (i : ℕ) (m : Min)
      → Stands b it
      → get_elem? vec i ≡ some it
      → Rising (b.reads it)
      → Seen vec seen m
      → Seen vec (seen ++ it ∷ []) (min_step b 0 vec it i m)
  unfolding min_step
  min_step-Seen vec seen it i m (ended r v) place rise (fresh f) = rw v (
      fresh (record {
        none_yet = f.none_yet;
        ended = All-append (λ (x : I). b.reads x ≡ []) seen (it ∷ []) f.ended (r, tt);
      }))
  min_step-Seen vec seen it i m (ended r v) place rise (chosen c) =
      rw v (chosen (keep vec seen it m c (rw r tt)))
  min_step-Seen vec seen it i m (at p ps r v d _) place rise (fresh f) =
      chosen (step-Fresh vec seen it i m p ps place r v d rise f)
  min_step-Seen vec seen it i m (at p ps r v d _) place rise (chosen c) =
      chosen (step-Chosen vec seen it i m p ps place r v d rise c)

  min_loop-Seen :
      IsIterator b
      → (vec seen its : List I) (i : ℕ) (m : Min)
      → ((n : ℕ) → get_elem? vec (i + n) ≡ get_elem? its n)
      → AllRising its
      → Seen vec seen m
      → Seen vec (seen ++ its) (min_loop b 0 vec its i m)
  unfolding min_loop
  min_loop-Seen law vec seen [] i m place rise h =
      subst (λ (s : List I). Seen vec s m) (sym (append-nil seen)) h
  min_loop-Seen law vec seen (it ∷ its) i m place rise h =
      let it_at : get_elem? vec i ≡ some it = ap (get_elem? vec) (omega arith) ∙ place 0 in
      let later =
        min_loop-Seen law vec (seen ++ it ∷ []) its (i + 1) (min_step b 0 vec it i m)
          (λ n. ap (get_elem? vec) (omega arith) ∙ place (suc n)) rise.1
          (min_step-Seen vec seen it i m (law it) it_at rise.0 h) in
      subst (λ (s : List I). Seen vec s (min_loop b 0 vec its (i + 1) (min_step b 0 vec it i m)))
        (append_assoc seen (it ∷ []) its) later

  -- With no transaction get_min_key_idx chooses the first iterator at the least key.
  pub get_min_key_idx-Seen :
      IsIterator b
      → (l : LevelIterator I) → l.max_tranc_id ≡ 0
      → AllRising l.iter_vec
      → Seen l.iter_vec l.iter_vec (get_min_key_idx b l)
  unfolding get_min_key_idx
  get_min_key_idx-Seen law l z rise = rw z (
      min_loop-Seen law l.iter_vec [] l.iter_vec 0 (record { min_idx = 0; min_key = [] })
        (λ n. ap (get_elem? l.iter_vec) (omega arith)) rise
        (fresh (record { none_yet = refl; ended = tt })))
