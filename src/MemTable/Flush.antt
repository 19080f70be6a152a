-- ===== src/MemTable/Flush.antt =====
-- `flush_last` and the sizes of src/memtable/memtable.cpp.
use tiny_lsm_tree.Common.{ℕ, ◌+◌, ◌-◌, ◌%◌, ◌^◌, ◌≤◌, ◌<◌, Option, none, some, Bool, true, false}
use tiny_lsm_tree.Common.{
  List, [], ◌∷◌, ◌++◌, ◌≡◌, ◌≢◌, refl, ap, ◌∙◌, arith, if◌then◌else◌, All, ◌==◌, min, max,
}
use tiny_lsm_tree.SkipList.Node.{SkipList}
use tiny_lsm_tree.SkipList.Find.{Entry, flush}
use tiny_lsm_tree.SkipList.Write.{size_mod, get_size}
use tiny_lsm_tree.SkipList.Write
use tiny_lsm_tree.MemTable.Table.{
  MemTable, frozen_cur_table, clear, get_total_size, freeze_for_flush,
}
use tiny_lsm_tree.MemTable.Table.{split_last, tranc_range, pop_oldest, flush_last, Flushed}

-- The sum of the sizes of the tables.
unfoldable pub sizes : List SkipList → ℕ
sizes [] = 0
sizes (t ∷ ts) = get_size t + sizes ts

-- The count of frozen bytes is exact; nothing wraps around while all tables fit `size_t`.
pub record CountsFrozen (m : MemTable) : Type 0 where
  pub counted : m.frozen_bytes ≡ sizes m.frozen_tables
  pub fits : get_size m.current_table + sizes m.frozen_tables < size_mod

sizes-append : (xs : List SkipList) (y : SkipList) → sizes (xs ++ y ∷ []) ≡ sizes xs + get_size y
unfolding sizes
sizes-append [] y = omega arith
sizes-append (x ∷ xs) y = omega (arith, sizes-append xs y)

split_last-append :
    (x : SkipList) (xs : List SkipList) → x ∷ xs ≡ (split_last x xs).0 ++ (split_last x xs).1 ∷ []
unfolding split_last
split_last-append x [] = refl
split_last-append x (y ∷ ys) = ap (λ (l : List SkipList). x ∷ l) (split_last-append y ys)

-- If `frozen_bytes` is the sum of the sizes of the frozen tables, and all tables together fit `size_t`,
-- this holds again after the active table is frozen.
pub frozen_cur_table-CountsFrozen :
    (m : MemTable) → CountsFrozen m → CountsFrozen (frozen_cur_table m)
unfolding frozen_cur_table sizes
frozen_cur_table-CountsFrozen m c = record { counted = omega arith; fits = omega arith }

-- The entries that a flush hands out are those of the oldest table, which is taken away.
pub record Pops (m m' : MemTable) (f : Flushed) : Type 0 where
  pub oldest : SkipList
  pub tables : m.frozen_tables ≡ m'.frozen_tables ++ oldest ∷ []
  pub kept : m'.current_table ≡ m.current_table
  pub entries : f.entries ≡ flush oldest
  pub bounds :
      All (λ (e : Entry). (f.min_tranc_id ≤ e.tranc_id) × (e.tranc_id ≤ f.max_tranc_id)) f.entries
  pub counts : CountsFrozen m'

tranc_range_bounds :
    (es : List Entry) (lo hi : ℕ)
    → ((tranc_range es lo hi).0 ≤ lo)
      × (hi ≤ (tranc_range es lo hi).1)
      × All
          (λ (e : Entry).
            ((tranc_range es lo hi).0 ≤ e.tranc_id) × (e.tranc_id ≤ (tranc_range es lo hi).1))
          es
unfolding tranc_range
tranc_range_bounds [] lo hi = (omega arith, omega arith, tt)
tranc_range_bounds (e ∷ es) lo hi =
    let (a, b, c) = tranc_range_bounds es (min e.tranc_id lo) (max e.tranc_id hi) in
    (omega arith, omega arith, ((omega arith, omega arith), c))

pop_oldest-Pops :
    (m : MemTable) (x : SkipList) (xs : List SkipList)
    → m.frozen_tables ≡ x ∷ xs
    → CountsFrozen m
    → (m' : MemTable) × (f : Flushed) × (pop_oldest m (x ∷ xs) ≡ (m', some f)) × Pops m m' f
unfolding pop_oldest
pop_oldest-Pops m x xs e c =
    let front = (split_last x xs).0 in
    let table = (split_last x xs).1 in
    let range = tranc_range (flush table) (2 ^ 64 - 1) 0 in
    let split = e ∙ split_last-append x xs in
    let total = ap sizes split ∙ sizes-append front table in
    (
      record m {
        frozen_tables = front;
        frozen_bytes = (m.frozen_bytes + size_mod - get_size table) % size_mod;
      },
      record { entries = flush table; min_tranc_id = range.0; max_tranc_id = range.1 },
      refl,
      record {
        oldest = table;
        tables = split;
        kept = refl;
        entries = refl;
        bounds = (tranc_range_bounds (flush table) (2 ^ 64 - 1) 0).2;
        counts = record {
          counted = omega (arith, c.counted, c.fits, total);
          fits = omega (arith, c.fits, total);
        };
      },
    )

-- What a call of `flush_last` amounts to.
pub data Outcome (m : MemTable) (r : MemTable × Option Flushed) : Type 0 where
  nothing : m.frozen_tables ≡ [] → get_size m.current_table ≡ 0 → r ≡ (m, none) → Outcome m r
  pops :
      (m' : MemTable) (f : Flushed)
      → m.frozen_tables ≢ []
      → r ≡ (m', some f)
      → Pops m m' f
      → Outcome m r
  freezes :
      (m' : MemTable) (f : Flushed)
      → m.frozen_tables ≡ []
      → get_size m.current_table ≢ 0
      → r ≡ (m', some f)
      → Pops (frozen_cur_table m) m' f
      → Outcome m r

freeze_for_flush_frozen :
    (m : MemTable) (x : SkipList) (xs : List SkipList)
    → m.frozen_tables ≡ x ∷ xs
    → freeze_for_flush m ≡ some m
unfolding freeze_for_flush
freeze_for_flush_frozen m x xs e = rw e

freeze_for_flush_empty :
    (m : MemTable)
    → m.frozen_tables ≡ []
    → freeze_for_flush m
      ≡ (if get_size m.current_table == 0 then none else some (frozen_cur_table m))
unfolding freeze_for_flush
freeze_for_flush_empty m e = rw e

flush_some :
    (m m' : MemTable) → freeze_for_flush m ≡ some m' → flush_last m ≡ pop_oldest m' m'.frozen_tables
unfolding flush_last
flush_some m m' e = rw (e, flush_last)

flush_none : (m : MemTable) → freeze_for_flush m ≡ none → flush_last m ≡ (m, none)
unfolding flush_last
flush_none m e = rw (e, flush_last)

-- If `frozen_bytes` is exact and all tables together fit `size_t`: `flush_last` does nothing only
-- when nothing is frozen and the active table has size 0; otherwise it takes the oldest frozen
-- table away, or the active one after freezing it, and hands out exactly its entries with bounds
-- of their transactions; the other tables stay, and the count of frozen bytes stays exact.
pub flush_last-Outcome : (m : MemTable) → CountsFrozen m → Outcome m (flush_last m)
flush_last-Outcome m c = go m.frozen_tables refl
  where
    empty :
        m.frozen_tables ≡ []
        → (b : Bool) → (get_size m.current_table == 0) ≡ b
        → Outcome m (flush_last m)
    empty e true z =
        let h = freeze_for_flush_empty m e in nothing e (ground arith) (flush_none m (h ∙ rw z))
    empty e false z =
        let h : freeze_for_flush m ≡ some (frozen_cur_table m) =
          freeze_for_flush_empty m e ∙ rw z in
        let (m', f, q, p) =
          pop_oldest-Pops (frozen_cur_table m) m.current_table m.frozen_tables
            (unfold frozen_cur_table in refl) (frozen_cur_table-CountsFrozen m c) in
        freezes m' f e (ground arith)
          (flush_some m (frozen_cur_table m) h ∙ (unfold frozen_cur_table in q)) p

    go : (ts : List SkipList) → m.frozen_tables ≡ ts → Outcome m (flush_last m)
    go [] e = empty e (get_size m.current_table == 0) refl
    go (x ∷ xs) e =
        let (m', f, q, p) = pop_oldest-Pops m x xs e c in
        pops m' f (λ z. cc (e, z))
          (flush_some m m (freeze_for_flush_frozen m x xs e) ∙ ap (pop_oldest m) e ∙ q) p

-- `clear` leaves the count of frozen bytes: from a memory table where it is above zero and fits
-- `size_t`, it leads to one that holds nothing, reports a total size above zero, and that no
-- `flush_last` changes.
pub clear_keeps_frozen_bytes :
    (m : MemTable)
    → 0 < m.frozen_bytes
    → m.frozen_bytes < size_mod
    → ((clear m).frozen_tables ≡ [])
      × (get_size (clear m).current_table ≡ 0)
      × (get_total_size (clear m) ≡ m.frozen_bytes)
      × (flush_last (clear m) ≡ (clear m, none))
clear_keeps_frozen_bytes m pos fits = (
  (unfold clear in refl),
  (unfold clear Write.clear in refl),
  (unfold clear Write.clear get_total_size in omega arith),
  (unfold clear Write.clear flush_last in refl),
)
