-- ===== src/Level/Reads.antt =====
-- What a loop over a Level_Iterator (src/lsm/level_iterator.cpp) reads: the newest value of each key.
use tiny_lsm_tree.Common.{ℕ, zero, suc, ◌<◌, none, some, true, false, List, [], ◌∷◌}
use tiny_lsm_tree.Common.{◌≡◌, refl, sym, ap, ◌∙◌, inl, inr, arith, Bytes, All-imp}
use tiny_lsm_tree.Common.{bytes_eq, bytes_lt, is_empty, Bool-cases}
use tiny_lsm_tree.Common.{bytes_eq→eq, bytes_lt-cases}
use tiny_lsm_tree.Common.Result.{ok}
use tiny_lsm_tree.Heap.Merge.{Pair}
use tiny_lsm_tree.Heap.Drain.{find_pair}
use tiny_lsm_tree.Level.Base.{BaseIterator, IsIterator}
use tiny_lsm_tree.Level.Iterator.{
  LevelIterator, any_valid, is_end, skip_key, left, settle, advance, deref, new_level, level_reads,
  read_levels,
}
use tiny_lsm_tree.Level.Lists.{Above, Rising, value_in, not_deleted, Above-trans}
use tiny_lsm_tree.Level.Least.{all_reads, AllRising}
use tiny_lsm_tree.Level.Skip.{AllAbove, skip_key-Skipped}
use tiny_lsm_tree.Level.Loop.{
  above-value_in, not_valid-value_in, over, found, Settled, settle-Settled,
}

module _ {I : Type 0} (b : BaseIterator I) where
  -- The pairs `ps` are what the iterators `vec` come to.
  pub record Reads (vec : List I) (ps : List Pair) : Type 0 where
    pub rise : Rising ps
    pub finds : (k : Bytes) → find_pair k ps ≡ not_deleted (value_in k (all_reads b vec))
    pub bound : (k : Bytes) → AllAbove b k vec → Above k ps

  found_above :
      (k : Bytes) (p : Pair) (vec : List I)
      → AllAbove b k vec
      → value_in p.0 (all_reads b vec) ≡ some p.1
      → bytes_lt k p.0 ≡ true
  found_above k p vec a v = elim (bytes_lt-cases k p.0) [
    | inl lt ↦ lt
    | inr (inl e) ↦
        absurd
          (cc (ap (λ (x : Bytes). value_in x (all_reads b vec)) e, above-value_in b k vec a, v))
    | inr (inr gt) ↦
        let a' : AllAbove b p.0 vec =
          All-imp (λ (it : I). Above k (b.reads it)) (λ (it : I). Above p.0 (b.reads it)) vec
            (λ it m h. Above-trans p.0 k (b.reads it) gt h) a in
        absurd (cc (above-value_in b p.0 vec a', v))
  ]

  -- The pair at which the iterator stands, before what is read behind it.
  Reads-cons :
      (p : Pair) (vec rest : List I) (ps : List Pair)
      → is_empty p.0 ≡ false
      → is_empty p.1 ≡ false
      → value_in p.0 (all_reads b vec) ≡ some p.1
      → AllAbove b p.0 rest
      → ((k : Bytes)
          → bytes_eq p.0 k ≡ false
          → not_deleted (value_in k (all_reads b rest))
            ≡ not_deleted (value_in k (all_reads b vec)))
      → ((k : Bytes) → AllAbove b k vec → AllAbove b k rest)
      → Reads rest ps
      → Reads vec (p ∷ ps)
  unfolding find_pair
  Reads-cons p vec rest ps full alive v above same bound r = record {
    rise = (full, r.bound p.0 above, r.rise);
    finds = λ k. elim (Bool-cases (bytes_eq p.0 k)) [
      | inl e ↦ rw (e, ← bytes_eq→eq p.0 k e, v, alive) refl
      | inr n ↦ rw n (r.finds k ∙ same k n)
    ];
    bound = λ k a. (found_above k p vec a v, r.bound k (bound k a));
  }

  advance_lem :
      (l : LevelIterator I) (p : Pair)
      → l.cached_value ≡ some p
      → advance b l
        ≡ settle b
            (suc (left b (skip_key b p.0 l.iter_vec)))
            (record l { iter_vec = skip_key b p.0 l.iter_vec; cached_value = some p })
  unfolding advance
  advance_lem l p e = rw (advance, e) (rw (sym e) refl)

  -- A round of the reader's loop.
  reads_round :
      (fuel : ℕ) (l r : LevelIterator I) (p : Pair) (ps : List Pair)
      → any_valid b l.iter_vec ≡ true
      → deref b l ≡ ok p
      → advance b l ≡ ok r
      → level_reads b fuel r ≡ ok ps
      → level_reads b (suc fuel) l ≡ ok (p ∷ ps)
  unfolding level_reads is_end
  reads_round fuel l r p ps valid shown moves more =
      rw (level_reads, is_end, valid, shown, moves, more) refl

  level_reads-Reads :
      IsIterator b
      → (fuel : ℕ) (vec : List I) (l : LevelIterator I) → Settled b vec l
      → left b l.iter_vec < fuel
      → (ps : List Pair) × (level_reads b fuel l ≡ ok ps) × Reads l.iter_vec ps
  unfolding level_reads is_end deref advance find_pair
  level_reads-Reads law zero vec l s h = absurd (omega (arith, h))
  level_reads-Reads law (suc fuel) vec l s h = elim s.stop [
    | over e ↦ (
      [],
      rw (level_reads, is_end, e) refl,
      record {
        rise = tt;
        finds = λ k. rw (not_valid-value_in b law k l.iter_vec e) refl;
        bound = λ k a. tt;
      },
    )
    | found p valid cached alive v least full ↦
        let k = skip_key-Skipped b law p.0 l.iter_vec s.rise least in
        let rest = skip_key b p.0 l.iter_vec in
        let (r, moves, next) =
          settle-Settled b law (suc (left b rest))
            (record l { iter_vec = rest; cached_value = some p }) s.no_tranc k.rise (omega arith) in
        let (ps, more, below) =
          level_reads-Reads law fuel rest r next
            (omega (arith, next.shorter, k.strictly p.1 v, h)) in
        (
          p ∷ ps,
          reads_round fuel l r p ps valid (rw (deref, cached) refl) (advance_lem l p cached ∙ moves)
              more,
          Reads-cons p l.iter_vec r.iter_vec ps full alive v (next.bound p.0 k.above)
              (λ j n. next.same j ∙ ap not_deleted (k.others j n))
              (λ j a. next.bound j (k.bound j a)) below,
        )
  ]

  -- Over iterators of rising, non-empty keys, the constructor with no transaction and the loop of a
  -- reader end and throw nothing; the keys read rise strictly, and each is read with the value that
  -- the first iterator has for it, where that is no deletion.
  pub read_levels-Reads :
      IsIterator b
      → (vec : List I) → AllRising b vec
      → (ps : List Pair) × (read_levels b vec ≡ ok ps)
        × Rising ps
        × ((k : Bytes) → find_pair k ps ≡ not_deleted (value_in k (all_reads b vec)))
  unfolding read_levels new_level
  read_levels-Reads law vec rise =
      let (l, made, s) =
        settle-Settled b law (suc (left b vec))
          (record { iter_vec = vec; cur_idx = 0; max_tranc_id = 0; cached_value = none }) refl rise
          (omega arith) in
      let (ps, read, r) =
        level_reads-Reads law (suc (left b vec)) vec l s (omega (arith, s.shorter)) in
      (ps, rw (read_levels, new_level, made) read, r.rise, λ k. r.finds k ∙ s.same k)
