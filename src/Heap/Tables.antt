-- ===== src/Heap/Tables.antt =====
-- The queue that MemTable::begin (src/memtable/memtable.cpp) fills, table by table.
use tiny_lsm_tree.Common.{ℕ, zero, suc, Option, none, some, true, List, [], ◌∷◌, ◌++◌}
use tiny_lsm_tree.Common.{◌≡◌, ◌⊎◌, inl, inr, refl, sym, ap, ◌∙◌, arith, bytes_eq, bytes_eq→eq}
use tiny_lsm_tree.Common.{bytes_lt, bytes_lt_irrefl, All, Bool-cases, Bytes}
use tiny_lsm_tree.SkipList.Node.{SkipList, forward_of}
use tiny_lsm_tree.SkipList.Find.{Entry, flush, flush_loop, entry_of}
use tiny_lsm_tree.SkipList.Iterator.{begin, collect}
use tiny_lsm_tree.Common.Int.{pos, int_lt}
use tiny_lsm_tree.Heap.Item.{SearchItem, item_gt}
use tiny_lsm_tree.Heap.Merge.{push, push_all}
use tiny_lsm_tree.Heap.Source.{to_item, read_all}
use tiny_lsm_tree.Heap.Order.{Older}

collect-flush_loop :
    (s : SkipList) (fuel : ℕ) (p : Option ℕ) → collect s fuel p none ≡ flush_loop s fuel p
unfolding collect flush_loop
collect-flush_loop s zero p = refl
collect-flush_loop s (suc fuel) none = refl
collect-flush_loop s (suc fuel) (some a) =
    ap (λ (l : List Entry). entry_of s a ∷ l) (collect-flush_loop s fuel (forward_of s a 0))

-- The loop over a table from begin to end reads what `flush` reports.
pub read_all-flush : (s : SkipList) → read_all s ≡ flush s
unfolding read_all flush begin
read_all-flush s = collect-flush_loop s s.next (forward_of s s.head 0)

pub push_all-append :
    (xs ys q : List SearchItem) → push_all (xs ++ ys) q ≡ push_all ys (push_all xs q)
unfolding push_all
push_all-append [] ys q = refl
push_all-append (x ∷ xs) ys q = push_all-append xs ys (push x q)

pub All-push {κ} :
    (P : SearchItem → Type κ) (x : SearchItem) (q : List SearchItem)
    → P x
    → All P q
    → All P (push x q)
unfolding push
All-push P x [] px h = (px, tt)
All-push P x (y ∷ ys) px h = elim (Bool-cases (item_gt x y)) [
  | inl e ↦ rw e (h.0, All-push P x ys px h.1)
  | inr e ↦ rw e (px, h)
]

-- The index lies below `i`.
abbrev pub IdxBelow : ℕ → SearchItem → Type 0
IdxBelow i y = int_lt y.idx (pos i) ≡ true

-- An item of an earlier table, or one of this table whose key comes before all of `es`.
abbrev pub Before : ℕ → List Entry → SearchItem → Type 0
Before i es y = IdxBelow i y ⊎ All (λ (e : Entry). bytes_lt y.key e.key ≡ true) es

earlier-gt :
    (i : ℕ) (e : Entry) (y : SearchItem)
    → IdxBelow i y
    → bytes_eq y.key e.key ≡ true
    → bytes_eq e.key y.key ≡ true
    → item_gt (to_item i e) y ≡ true
unfolding item_gt
earlier-gt i e y b eq qe = rw (qe, b) (ground arith)

pub Before-Older :
    (i : ℕ) (e : Entry) (es : List Entry) (q : List SearchItem)
    → All (Before i (e ∷ es)) q
    → Older (to_item i e) q
Before-Older i e es [] h = tt
Before-Older i e es (y ∷ ys) h = (one h.0, Before-Older i e es ys h.1)
  where
    one : Before i (e ∷ es) y → bytes_eq y.key e.key ≡ true → item_gt (to_item i e) y ≡ true
    one (inl b) eq = earlier-gt i e y b eq (
        ap (λ (k : Bytes). bytes_eq k y.key) (sym (bytes_eq→eq y.key e.key eq))
        ∙ ap (bytes_eq y.key) (bytes_eq→eq y.key e.key eq)
        ∙ eq)
    one (inr l) eq = absurd (
        cc (
          l.0,
          bytes_lt_irrefl e.key,
          ap (λ (k : Bytes). bytes_lt k e.key) (bytes_eq→eq y.key e.key eq),
        ))
