-- ===== src/Level/Iterator.antt =====
-- The state and the methods of Level_Iterator (src/lsm/level_iterator.cpp), over any BaseIterator.
use tiny_lsm_tree.Common.{ℕ, zero, suc, ◌+◌, Option, none, some, Bool, true, false, not, ◌&&◌}
use tiny_lsm_tree.Common.{List, [], ◌∷◌, map, Bytes, length, get_elem?, ltb, ◌==◌, if◌then◌else◌}
use tiny_lsm_tree.Common.{bytes_eq, bytes_lt, is_empty}
use tiny_lsm_tree.Common.Result.{Result, ok, throws, fault, ◌>>=◌}
use tiny_lsm_tree.Heap.Merge.{Pair}
use tiny_lsm_tree.SkipList.Iterator.{IteratorType}
use tiny_lsm_tree.Level.Base.{BaseIterator}

pub record LevelIterator (I : Type 0) : Type 0 where
  pub iter_vec : List I
  pub cur_idx : ℕ
  pub max_tranc_id : ℕ
  pub cached_value : Option Pair

-- `min_idx` and `min_key` of `get_min_key_idx`
pub record Min : Type 0 where
  pub min_idx : ℕ
  pub min_key : Bytes

module _ {I : Type 0} (b : BaseIterator I) where
  abbrev pub key_of : I → Bytes
  key_of it = (b.deref it).0

  -- `(**iter_vec[i]).first`; no index is out of range.
  abbrev pub key_at : List I → ℕ → Bytes
  key_at vec i = elim (get_elem? vec i) [ none ↦ [] | some it ↦ key_of it ]

  abbrev pub tranc_at : List I → ℕ → ℕ
  tranc_at vec i = elim (get_elem? vec i) [ none ↦ 0 | some it ↦ b.get_tranc_id it ]

  -- A round of the loop of `get_min_key_idx` at the iterator `it` with index `i`.
  unfoldable pub min_step : ℕ → List I → I → ℕ → Min → Min
  min_step max_tranc_id vec it i m =
      if not (b.is_valid it)
      then m
      else if is_empty m.min_key
      then record { min_idx = i; min_key = key_of it }
      else if bytes_lt (key_of it) (key_at vec m.min_idx)
      then record { min_idx = i; min_key = key_of it }
      else if bytes_eq (key_of it) m.min_key
      then (if max_tranc_id == 0
          then m
          else if ltb (tranc_at vec m.min_idx) (b.get_tranc_id it)
          then record m { min_idx = i }
          else m)
      else m

  -- The loop over the iterators from index `i` on.
  unfoldable pub min_loop : ℕ → List I → List I → ℕ → Min → Min
  unfolding min_step
  min_loop max_tranc_id vec [] i m = m
  min_loop max_tranc_id vec (it ∷ its) i m =
      min_loop max_tranc_id vec its (i + 1) (min_step max_tranc_id vec it i m)

  unfoldable pub get_min_key_idx : LevelIterator I → Min
  unfolding min_loop
  get_min_key_idx l =
      min_loop l.max_tranc_id l.iter_vec l.iter_vec 0 (record { min_idx = 0; min_key = [] })

  -- The inner loop of `skip_key`.
  unfoldable pub skip_iter : ℕ → Bytes → I → I
  skip_iter zero k it = it
  skip_iter (suc fuel) k it = elim (b.is_valid it && bytes_eq (key_of it) k) [
    | true ↦ skip_iter fuel k (b.advance it)
    | false ↦ it
  ]

  unfoldable pub skip_key : Bytes → List I → List I
  unfolding skip_iter
  skip_key k = map (λ it. skip_iter (length (b.reads it)) k it)

  unfoldable pub any_valid : List I → Bool
  any_valid [] = false
  any_valid (it ∷ its) = if b.is_valid it then true else any_valid its

  unfoldable pub is_end : LevelIterator I → Bool
  unfolding any_valid
  is_end l = not (any_valid l.iter_vec)

  unfoldable pub is_valid : LevelIterator I → Bool
  unfolding is_end
  is_valid l = not (is_end l)

  unfoldable pub update_current : LevelIterator I → Result (LevelIterator I)
  update_current l = elim (get_elem? l.iter_vec l.cur_idx) [
    | none ↦ fault
    | some it ↦
        if not (b.is_valid it) then throws else ok (record l { cached_value = some (b.deref it) })
  ]

  -- The fuel of the loop: the pairs that are left.
  unfoldable pub left : List I → ℕ
  left [] = 0
  left (it ∷ its) = length (b.reads it) + left its

  -- The loop at the end of the constructor and of `operator++`: it stops at the first key that is
  -- not deleted.
  unfoldable pub settle : ℕ → LevelIterator I → Result (LevelIterator I)
  unfolding is_end get_min_key_idx update_current skip_key
  settle zero l = ok l
  settle (suc fuel) l = elim (is_end l) [
    | true ↦ ok l
    | false ↦ do
      l' ← update_current (record l { cur_idx = (get_min_key_idx l).min_idx })
      elim l'.cached_value [
        | none ↦ fault
        | some p ↦ elim (is_empty p.1) [
          | true ↦ settle fuel (record l' { iter_vec = skip_key p.0 l'.iter_vec })
          | false ↦ ok l'
        ]
      ]
  ]

  -- The constructor, on the iterators that it has collected.
  unfoldable pub new_level : List I → ℕ → Result (LevelIterator I)
  unfolding settle left
  new_level vec max_tranc_id =
      settle (suc (left vec))
        (record { iter_vec = vec; cur_idx = 0; max_tranc_id = max_tranc_id; cached_value = none })

  -- `operator++`
  unfoldable pub advance : LevelIterator I → Result (LevelIterator I)
  unfolding settle left skip_key
  advance l = elim l.cached_value [
    | none ↦ fault
    | some p ↦
        let vec = skip_key p.0 l.iter_vec in settle (suc (left vec)) (record l { iter_vec = vec })
  ]

  -- `operator*`
  unfoldable pub deref : LevelIterator I → Result Pair
  deref l = elim l.cached_value [ none ↦ throws | some p ↦ ok p ]

  -- `operator->` refreshes the cache, and points to it.
  unfoldable pub arrow : LevelIterator I → Result (LevelIterator I × Pair)
  unfolding update_current deref
  arrow l = do l' ← update_current l; p ← deref l'; ok (l', p)

  -- `operator==` against another iterator of this type; `other` is any for one of another type.
  unfoldable pub level_eq : LevelIterator I → IteratorType → LevelIterator I → Result Bool
  unfolding is_valid deref
  level_eq l IteratorType.level other =
      if is_valid other && is_valid l
      then (deref other >>= λ p. elim l.cached_value [
        | none ↦ fault
        | some q ↦ ok (bytes_eq p.0 q.0 && bytes_eq p.1 q.1)
      ])
      else ok (not (is_valid other) && not (is_valid l))
  level_eq l other_type other = ok false

  -- `operator!=`
  unfoldable pub level_ne : LevelIterator I → IteratorType → LevelIterator I → Result Bool
  unfolding level_eq
  level_ne l t other = do same ← level_eq l t other; ok (not same)

  -- What a loop `for (; it.is_valid(); ++it)` reads.
  unfoldable pub level_reads : ℕ → LevelIterator I → Result (List Pair)
  unfolding is_end deref advance
  level_reads zero l = ok []
  level_reads (suc fuel) l = elim (is_end l) [
    | true ↦ ok []
    | false ↦ do p ← deref l; l' ← advance l; rest ← level_reads fuel l'; ok (p ∷ rest)
  ]

  unfoldable pub read_levels : List I → Result (List Pair)
  unfolding new_level level_reads left
  read_levels vec = do l ← new_level vec 0; level_reads (suc (left vec)) l
