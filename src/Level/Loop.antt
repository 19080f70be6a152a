-- ===== src/Level/Loop.antt =====
-- The loops of Level_Iterator (src/lsm/level_iterator.cpp): the one that passes over deleted keys,
-- and the loop of a reader.
use tiny_lsm_tree.Common.{ℕ, zero, suc, ◌≤◌, ◌<◌, none, some, true, false, List, [], ◌∷◌}
use tiny_lsm_tree.Common.{◌≡◌, refl, sym, ap, ◌∙◌, inl, inr, arith, Bytes, All}
use tiny_lsm_tree.Common.{bytes_eq, is_empty, Bool-cases}
use tiny_lsm_tree.Common.{bytes_eq→eq}
use tiny_lsm_tree.Common.Result.{ok}
use tiny_lsm_tree.Heap.Merge.{Pair}
use tiny_lsm_tree.Heap.Drain.{find_pair}
use tiny_lsm_tree.Level.Base.{BaseIterator, Stands, IsIterator, ended, at}
use tiny_lsm_tree.Level.Iterator.{
  LevelIterator, any_valid, is_end, get_min_key_idx, update_current, skip_key, left, settle,
}
use tiny_lsm_tree.Level.Lists.{value_in, not_deleted, find_pair-Above}
use tiny_lsm_tree.Level.Least.{
  all_reads, AllRising, AllAtLeast, Seen, fresh, chosen, get_min_key_idx-Seen,
}
use tiny_lsm_tree.Level.Skip.{AllAbove, Skipped, skip_key-Skipped}

module _ {I : Type 0} (b : BaseIterator I) where
  pub above-value_in :
      (k : Bytes) (vec : List I) → AllAbove b k vec → value_in k (all_reads b vec) ≡ none
  unfolding value_in
  above-value_in k [] h = refl
  above-value_in k (it ∷ vec) h =
      rw (value_in, find_pair-Above k (b.reads it) h.0) (above-value_in k vec h.1)

  invalid-ended : (it : I) → Stands b it → b.reads it ≡ [] → b.is_valid it ≡ false
  invalid-ended it (ended r v) e = v
  invalid-ended it (at p ps r v d n) e = absurd (cc (r, e))

  ended-any_valid :
      IsIterator b
      → (its : List I) → All (λ (it : I). b.reads it ≡ []) its
      → any_valid b its ≡ false
  unfolding any_valid
  ended-any_valid law [] h = refl
  ended-any_valid law (it ∷ its) h =
      rw (any_valid, invalid-ended it (law it) h.0) (ended-any_valid law its h.1)

  invalid-nil : (it : I) → Stands b it → b.is_valid it ≡ false → b.reads it ≡ []
  invalid-nil it (ended r v) e = r
  invalid-nil it (at p ps r v d n) e = absurd (cc (v, e))

  pub not_valid-value_in :
      IsIterator b
      → (k : Bytes) (its : List I) → any_valid b its ≡ false
      → value_in k (all_reads b its) ≡ none
  unfolding any_valid value_in find_pair
  not_valid-value_in law k [] h = refl
  not_valid-value_in law k (it ∷ its) h = elim (Bool-cases (b.is_valid it)) [
    | inl v ↦ absurd (cc (v, h))
    | inr v ↦
        rw (value_in, invalid-nil it (law it) v)
          (not_valid-value_in law k its (rw (any_valid, v) at h))
  ]

  -- What the loop stops at: the end, or the least key, whose value is no deletion.
  pub data Stop (l : LevelIterator I) : Type 0 where
    over : any_valid b l.iter_vec ≡ false → Stop l
    found :
        (p : Pair)
        → any_valid b l.iter_vec ≡ true
        → l.cached_value ≡ some p
        → is_empty p.1 ≡ false
        → value_in p.0 (all_reads b l.iter_vec) ≡ some p.1
        → AllAtLeast b p.0 l.iter_vec
        → is_empty p.0 ≡ false
        → Stop l

  -- The loop hides no key that is not deleted.
  pub record Settled (vec : List I) (l : LevelIterator I) : Type 0 where
    pub rise : AllRising b l.iter_vec
    pub no_tranc : l.max_tranc_id ≡ 0
    pub shorter : left b l.iter_vec ≤ left b vec
    pub same :
        (k : Bytes)
        → not_deleted (value_in k (all_reads b l.iter_vec))
          ≡ not_deleted (value_in k (all_reads b vec))
    pub bound : (k : Bytes) → AllAbove b k vec → AllAbove b k l.iter_vec
    pub stop : Stop l

  -- What `update_current` does at the index that get_min_key_idx gives.
  record Updated (l : LevelIterator I) : Type 0 where
    pair : Pair
    done :
        update_current b (record l { cur_idx = (get_min_key_idx b l).min_idx })
        ≡ ok (record l { cur_idx = (get_min_key_idx b l).min_idx; cached_value = some pair })
    value : value_in pair.0 (all_reads b l.iter_vec) ≡ some pair.1
    least : AllAtLeast b pair.0 l.iter_vec
    full : is_empty pair.0 ≡ false

  update_current-Updated :
      IsIterator b
      → (l : LevelIterator I) → l.max_tranc_id ≡ 0
      → AllRising b l.iter_vec
      → any_valid b l.iter_vec ≡ true
      → Updated l
  unfolding update_current
  update_current-Updated law l z rise valid = go (get_min_key_idx-Seen b law l z rise)
    where
      go : Seen b l.iter_vec l.iter_vec (get_min_key_idx b l) → Updated l
      go (fresh f) = absurd (cc (ended-any_valid law l.iter_vec f.ended, valid))
      go (chosen c) = record {
        pair = ((get_min_key_idx b l).min_key, c.value);
        done = rw (update_current, c.place, c.stands, c.shows) refl;
        value = c.first;
        least = c.least;
        full = c.full;
      }

  same_deleted :
      (p : Pair) (vec rest : List I)
      → Skipped b p.0 vec rest
      → value_in p.0 (all_reads b vec) ≡ some p.1
      → is_empty p.1 ≡ true
      → (k : Bytes)
      → not_deleted (value_in k (all_reads b rest)) ≡ not_deleted (value_in k (all_reads b vec))
  same_deleted p vec rest s v e k = elim (Bool-cases (bytes_eq p.0 k)) [
    | inr n ↦ ap not_deleted (s.others k n)
    | inl q ↦
        rw (sym (bytes_eq→eq p.0 k q))
          (ap not_deleted (above-value_in p.0 rest s.above) ∙ sym (ap not_deleted v ∙ rw e refl))
  ]

  -- A round of the loop, from the pair that it reads.
  settle_round :
      (fuel : ℕ) (l l' : LevelIterator I) (p : Pair)
      → any_valid b l.iter_vec ≡ true
      → update_current b (record l { cur_idx = (get_min_key_idx b l).min_idx }) ≡ ok l'
      → l'.cached_value ≡ some p
      → settle b (suc fuel) l ≡ elim (is_empty p.1) [
        | true ↦ settle b fuel (record l' { iter_vec = skip_key b p.0 l'.iter_vec })
        | false ↦ ok l'
      ]
  unfolding settle is_end
  settle_round fuel l l' p valid done e = rw (settle, is_end, valid, done) (rw (e) refl)

  -- The loop ends by its tests, with fuel for every pair that is left.
  pub settle-Settled :
      IsIterator b
      → (fuel : ℕ) (l : LevelIterator I) → l.max_tranc_id ≡ 0
      → AllRising b l.iter_vec
      → left b l.iter_vec < fuel
      → (r : LevelIterator I) × (settle b fuel l ≡ ok r) × Settled l.iter_vec r
  unfolding settle is_end
  settle-Settled law zero l z rise h = absurd (omega (arith, h))
  settle-Settled law (suc fuel) l z rise h = elim (Bool-cases (any_valid b l.iter_vec)) [
    | inr none_left ↦ (
      l,
      rw (settle, is_end, none_left) refl,
      record {
        rise = rise;
        no_tranc = z;
        shorter = omega arith;
        same = λ k. refl;
        bound = λ k a. a;
        stop = over none_left;
      },
    )
    | inl valid ↦
        let u = update_current-Updated law l z rise valid in
        let s = skip_key-Skipped b law u.pair.0 l.iter_vec rise u.least in
        let less = s.strictly u.pair.1 u.value in
        let (r, e, done) =
          settle-Settled law fuel
            (record l {
              cur_idx = (get_min_key_idx b l).min_idx;
              cached_value = some u.pair;
              iter_vec = skip_key b u.pair.0 l.iter_vec;
            })
            z s.rise (omega (arith, less, h)) in
        elim (Bool-cases (is_empty u.pair.1)) [
          | inl dead ↦ (
            r,
            settle_round fuel l _ u.pair valid u.done refl ∙ rw dead e,
            record {
              rise = done.rise;
              no_tranc = done.no_tranc;
              shorter = omega (arith, done.shorter, s.shorter);
              same = λ k. done.same k ∙ same_deleted u.pair l.iter_vec _ s u.value dead k;
              bound = λ k a. done.bound k (s.bound k a);
              stop = done.stop;
            },
          )
          | inr alive ↦ (
            record l { cur_idx = (get_min_key_idx b l).min_idx; cached_value = some u.pair },
            settle_round fuel l _ u.pair valid u.done refl ∙ rw alive refl,
            record {
              rise = rise;
              no_tranc = z;
              shorter = omega arith;
              same = λ k. refl;
              bound = λ k a. a;
              stop = found u.pair valid refl alive u.value u.least u.full;
            },
          )
        ]
  ]
