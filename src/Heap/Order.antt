-- ===== src/Heap/Order.antt =====
-- The order in which HeapIterator (src/iterator/iterator.cpp) pops its items, and what its loops
-- leave: the newest item of each key decides.
use tiny_lsm_tree.Common.{Option, none, some, true, false, List, [], ◌∷◌}
use tiny_lsm_tree.Common.{◌≡◌, refl, ap, arith, if◌then◌else◌, bytes_eq, bytes_eq→eq, bytes_eq_refl}
use tiny_lsm_tree.Common.{bytes_lt, bytes_lt_irrefl, bytes_lt_trans, bytes_lt-cases, All}
use tiny_lsm_tree.Common.{Bool-cases, inl, inr, Bytes, ◌⊎◌}
use tiny_lsm_tree.SkipList.View.{lt→ne, gt→ne}
use tiny_lsm_tree.Heap.Item.{SearchItem, item_gt}
use tiny_lsm_tree.Heap.Merge.{push}

-- The first item of the key, in the order of popping.
unfoldable pub find_item : Bytes → List SearchItem → Option SearchItem
find_item k [] = none
find_item k (x ∷ xs) = if bytes_eq x.key k then some x else find_item k xs

-- No key below `k` among the items.
abbrev pub NotBelow : Bytes → List SearchItem → Type 0
NotBelow k q = All (λ (y : SearchItem). bytes_lt y.key k ≡ false) q

-- The keys never fall.
abbrev pub KeysRise : List SearchItem → Type 0
KeysRise [] = Unit
KeysRise (x ∷ xs) = NotBelow x.key xs × KeysRise xs

pub not_lt_trans :
    (a b c : Bytes) → bytes_lt b a ≡ false → bytes_lt c b ≡ false → bytes_lt c a ≡ false
not_lt_trans a b c h k = elim (Bool-cases (bytes_lt c a)) [
  | inr e ↦ e
  | inl e ↦ elim (bytes_lt-cases a b) [
    | inl lt ↦ cc (bytes_lt_trans c a b e lt, k)
    | inr (inl q) ↦ cc (ap (λ (x : Bytes). bytes_lt c x) q, e, k)
    | inr (inr gt) ↦ cc (gt, h)
  ]
]

pub NotBelow-trans :
    (a b : Bytes) (q : List SearchItem) → bytes_lt b a ≡ false → NotBelow b q → NotBelow a q
NotBelow-trans a b [] h n = tt
NotBelow-trans a b (y ∷ ys) h n = (not_lt_trans a b y.key h n.0, NotBelow-trans a b ys h n.1)

NotBelow-push :
    (k : Bytes) (x : SearchItem) (q : List SearchItem)
    → bytes_lt x.key k ≡ false
    → NotBelow k q
    → NotBelow k (push x q)
unfolding push
NotBelow-push k x [] h n = (h, tt)
NotBelow-push k x (y ∷ ys) h n = elim (Bool-cases (item_gt x y)) [
  | inl e ↦ rw e (n.0, NotBelow-push k x ys h n.1)
  | inr e ↦ rw e (h, n)
]

pub lt_asym : (a b : Bytes) → bytes_lt a b ≡ true → bytes_lt b a ≡ false
lt_asym a b g = elim (Bool-cases (bytes_lt b a)) [
  | inr z ↦ z
  | inl z ↦ cc (bytes_lt_trans a b a g z, bytes_lt_irrefl a)
]

-- An item goes behind one with a smaller key, and never behind one with a larger key.
pub gt→not_below : (x y : SearchItem) → item_gt x y ≡ true → bytes_lt x.key y.key ≡ false
unfolding item_gt
gt→not_below x y h = elim (Bool-cases (bytes_lt x.key y.key)) [
  | inr e ↦ e
  | inl e ↦ cc (rw (lt→ne x.key y.key e) at h, lt_asym x.key y.key e)
]

not_gt→not_below : (x y : SearchItem) → item_gt x y ≡ false → bytes_lt y.key x.key ≡ false
unfolding item_gt
not_gt→not_below x y h = elim (Bool-cases (bytes_lt y.key x.key)) [
  | inr e ↦ e
  | inl e ↦ cc (rw (gt→ne x.key y.key e) at h)
]

pub push-KeysRise : (x : SearchItem) (q : List SearchItem) → KeysRise q → KeysRise (push x q)
unfolding push
push-KeysRise x [] h = (tt, tt)
push-KeysRise x (y ∷ ys) h = elim (Bool-cases (item_gt x y)) [
  | inl e ↦ rw e (NotBelow-push y.key x ys (gt→not_below x y e) h.0, push-KeysRise x ys h.1)
  | inr e ↦ let b = not_gt→not_below x y e in rw e ((b, NotBelow-trans x.key y.key ys b h.0), h)
]

-- `x` goes behind every item of its key.
abbrev pub Older : SearchItem → List SearchItem → Type 0
Older x q = All (λ (y : SearchItem). bytes_eq y.key x.key ≡ true → item_gt x y ≡ true) q

abbrev pub or_item : Option SearchItem → Option SearchItem → Option SearchItem
or_item none o = o
or_item (some x) o = some x

-- The item as the answer for a key, if it has the key.
abbrev pub match_item : Bytes → SearchItem → Option SearchItem
match_item k x = if bytes_eq x.key k then some x else none

find_item_above :
    (k : Bytes) (x : SearchItem) (q : List SearchItem)
    → bytes_lt k x.key ≡ true
    → NotBelow x.key q
    → find_item k q ≡ none
unfolding find_item
find_item_above k x [] lt h = refl
find_item_above k x (y ∷ ys) lt h = rw (other y h.0) (find_item_above k x ys lt h.1)
  where
    other : (y : SearchItem) → bytes_lt y.key x.key ≡ false → bytes_eq y.key k ≡ false
    other y n = elim (Bool-cases (bytes_eq y.key k)) [
      | inr e ↦ e
      | inl e ↦ cc (n, lt, ap (λ (z : Bytes). bytes_lt z x.key) (bytes_eq→eq y.key k e))
    ]

-- Below the top of a queue whose keys rise there is no other key than larger ones.
pub find_item_below :
    (k : Bytes) (x : SearchItem) (q : List SearchItem)
    → bytes_lt k x.key ≡ true
    → NotBelow x.key q
    → find_item k (x ∷ q) ≡ none
unfolding find_item
find_item_below k x q lt h = rw (gt→ne x.key k lt) (find_item_above k x q lt h)

or_item-none : (o : Option SearchItem) → o ≡ or_item o none
or_item-none none = refl
or_item-none (some x) = refl

-- An item pushed behind those of its key is found only where there was none.
pub find_item-push :
    (k : Bytes) (x : SearchItem) (q : List SearchItem)
    → KeysRise q
    → Older x q
    → find_item k (push x q) ≡ or_item (find_item k q) (match_item k x)
unfolding find_item push
find_item-push k x [] h o = refl
find_item-push k x (y ∷ ys) h o = elim (Bool-cases (item_gt x y)) [
  | inl e ↦ rw e (ground (arith, find_item-push k x ys h.1 o.1))
  | inr e ↦ rw e (before (bytes_lt-cases x.key y.key) e)
]
  where
    before :
        (bytes_lt x.key y.key ≡ true) ⊎ ((x.key ≡ y.key) ⊎ (bytes_lt y.key x.key ≡ true))
        → item_gt x y ≡ false
        → (if bytes_eq x.key k then some x else find_item k (y ∷ ys))
          ≡ or_item (find_item k (y ∷ ys)) (match_item k x)
    before (inl lt) e = elim (Bool-cases (bytes_eq x.key k)) [
      | inr n ↦ rw n (or_item-none (find_item k (y ∷ ys)))
      | inl m ↦
          let below : bytes_lt k y.key ≡ true = rw (bytes_eq→eq x.key k m) at lt in
          let none_left : find_item k (y ∷ ys) ≡ none = find_item_below k y ys below h.0 in
          ground (arith, m, none_left)
    ]
    before (inr (inl q)) e = absurd (cc (e, o.0 (rw q (bytes_eq_refl y.key))))
    before (inr (inr gt)) e = absurd (cc (gt, not_gt→not_below x y e))
