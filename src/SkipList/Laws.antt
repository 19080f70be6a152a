-- ===== src/SkipList/Laws.antt =====
-- The laws of src/skiplist/skipList.cpp that its clients use: what `get` returns after `put`,
-- the order of `flush`, the size, and the empty list.
use tiny_lsm_tree.Common.{ℕ, ◌≤◌, ◌<◌, Option, none, some, true, List, [], ◌∷◌}
use tiny_lsm_tree.Common.{◌≡◌, refl, sym, subst, arith, map, Bytes}
use tiny_lsm_tree.Common.{bytes_lt, bytes_lt_irrefl, bytes_eq, bytes_eq_refl, bytes_eq→eq}
use tiny_lsm_tree.Common.{if◌then◌else◌, All}
use tiny_lsm_tree.SkipList.Node.{SkipList, key_of, forward_of, new_list}
use tiny_lsm_tree.SkipList.Find.{Entry, entry_of, flush, get}
use tiny_lsm_tree.SkipList.Write.{put, clear, size_mod}
use tiny_lsm_tree.SkipList.Chain.{Rising, Holds, IsValid}
use tiny_lsm_tree.SkipList.View.{find_entry, put_entry, flush-entries}
use tiny_lsm_tree.SkipList.Size.{total_size}
use tiny_lsm_tree.SkipList.Get.{deref, get-flush}
use tiny_lsm_tree.SkipList.Put.{put-Puts, put-IsValid, flush-put}

-- The value found under a key.
abbrev pub value_of : Option Entry → Option Bytes
value_of none = none
value_of (some e) = some e.value

pub find_entry-put_entry :
    (k j v : Bytes) (t : ℕ) (es : List Entry)
    → value_of (find_entry j (put_entry k v t es))
      ≡ (if bytes_eq k j then some v else value_of (find_entry j es))
unfolding find_entry put_entry
find_entry-put_entry k j v t [] = ground arith
find_entry-put_entry k j v t (e ∷ es) = ground (
  arith,
  find_entry-put_entry k j v t es,
  bytes_eq→eq e.key k,
  bytes_eq→eq e.key j,
  bytes_eq→eq k j,
  bytes_eq_refl k,
  bytes_eq_refl j,
  bytes_lt_irrefl k,
)

-- In a well-formed list `get` of a key returns what the last `put` of the key stored, and `put` of
-- one key does not change what `get` of another key returns; the transactions make no difference.
pub value_of-put :
    (s : SkipList) (k j v : Bytes) (tid t : ℕ)
    → IsValid s
    → value_of (deref (put s k v tid) (get (put s k v tid) j t))
      ≡ (if bytes_eq k j then some v else value_of (deref s (get s j t)))
value_of-put s k j v tid t h =
    rw
      (
        get-flush (put s k v tid) j t (put-IsValid s k v tid h),
        flush-put s k v tid h,
        get-flush s j t h,
      )
      (find_entry-put_entry k j v tid (flush s))

-- Entries in strictly rising key order.
abbrev pub IsSorted : List Entry → Type 0
IsSorted [] = Unit
IsSorted (e ∷ es) = All (λ f. bytes_lt e.key f.key ≡ true) es × IsSorted es

map-IsSorted : (s : SkipList) (ys : List ℕ) → Rising s ys → IsSorted (map (entry_of s) ys)
map-IsSorted s [] h = tt
map-IsSorted s (a ∷ ys) h = (all_map ys h.0, map-IsSorted s ys h.1)
  where
    all_map :
        (zs : List ℕ)
        → All (λ b. bytes_lt (key_of s a) (key_of s b) ≡ true) zs
        → All (λ (f : Entry). bytes_lt (key_of s a) f.key ≡ true) (map (entry_of s) zs)
    all_map [] g = tt
    all_map (z ∷ zs) g = (g.0, all_map zs g.1)

-- In a well-formed list `flush` reports every key once, in rising order.
pub flush-IsSorted : (s : SkipList) → IsValid s → IsSorted (flush s)
flush-IsSorted s h = rw (flush-entries s h.chain h.holds) (map-IsSorted s h.chain h.holds.rising)

pub new_list-Holds :
    (max_lvl : ℕ) (coin : ℕ → ℕ) (drawn : ℕ) → Holds (new_list max_lvl coin drawn) []
new_list-Holds max_lvl coin drawn = record {
  linked = λ i. refl;
  rising = tt;
  no_head = tt;
  allocated = tt;
  head_allocated = omega arith;
  room = omega arith;
  has_level = omega arith;
  head_levels = λ i le. refl;
}

forward-clear : (s : SkipList) (i : ℕ) → forward_of (clear s) (clear s).head i ≡ none
unfolding clear
forward-clear s i = ground arith

pub clear-Holds : (s : SkipList) → 1 ≤ s.current_level → Holds (clear s) []
clear-Holds s h = record {
  linked = forward-clear s;
  rising = tt;
  no_head = tt;
  allocated = tt;
  head_allocated = unfold clear in omega arith;
  room = unfold clear in omega arith;
  has_level = unfold clear in h;
  head_levels = λ i le. forward-clear s i;
}

-- An empty list is well formed, also after `clear`, where the level stays.
pub new_list-IsValid :
    (max_lvl : ℕ) (coin : ℕ → ℕ) (drawn : ℕ) → IsValid (new_list max_lvl coin drawn)
new_list-IsValid max_lvl coin drawn = record {
  chain = [];
  holds = new_list-Holds max_lvl coin drawn;
}

pub clear-IsValid : (s : SkipList) → IsValid s → IsValid (clear s)
clear-IsValid s h = record { chain = []; holds = clear-Holds s h.holds.has_level }

-- After `clear` of a well-formed list nothing is left and the size is zero.
pub flush-clear : (s : SkipList) → IsValid s → (flush (clear s) ≡ []) × ((clear s).size_bytes ≡ 0)
flush-clear s h =
    (flush-entries (clear s) [] (clear-Holds s h.holds.has_level), unfold clear in refl)

pub flush-new_list :
    (max_lvl : ℕ) (coin : ℕ → ℕ) (drawn : ℕ) → flush (new_list max_lvl coin drawn) ≡ []
flush-new_list max_lvl coin drawn =
    flush-entries (new_list max_lvl coin drawn) [] (new_list-Holds max_lvl coin drawn)

-- The size is the sum that the entries take. `size_t` does not wrap around while the sum fits it.
pub record CountsSize (s : SkipList) : Type 0 where
  pub counted : s.size_bytes ≡ total_size (flush s)
  pub fits : total_size (flush s) < size_mod

-- In a well-formed list whose size is the sum of what its entries take, the size after `put` is that sum
-- again, also when a value is replaced by a shorter one, if the new sum fits `size_t`.
pub put-CountsSize :
    (s : SkipList) (k v : Bytes) (tid : ℕ)
    → IsValid s
    → CountsSize s
    → total_size (put_entry k v tid (flush s)) < size_mod
    → CountsSize (put s k v tid)
put-CountsSize s k v tid h c small =
    let p = put-Puts s k v tid h.chain h.holds in
    let e = flush-entries s h.chain h.holds in
    let e' = flush-put s k v tid h in
    record {
      counted = rw e' (
          subst
            (λ (l : List Entry).
              (s.size_bytes ≡ total_size l) × (total_size l < size_mod)
              → total_size (put_entry k v tid l) < size_mod
              → (put s k v tid).size_bytes ≡ total_size (put_entry k v tid l))
            (sym e) p.size (c.counted, c.fits) small);
      fits = rw e' small;
    }
