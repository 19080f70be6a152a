-- ===== src/SkipList/Get.antt =====
-- `get` of src/skiplist/skipList.cpp against the entries that `flush` reports.
use tiny_lsm_tree.Common.{ℕ, ◌≤◌, ◌<◌, Option, none, some, true, List, [], ◌∷◌}
use tiny_lsm_tree.Common.{◌≡◌, inl, inr, refl, sym, subst, arith, map, Bytes, length}
use tiny_lsm_tree.Common.{bytes_lt, bytes_eq, bytes_eq_refl}
use tiny_lsm_tree.Common.{bytes_lt-cases}
use tiny_lsm_tree.SkipList.Node.{SkipList, key_of, forward_of}
use tiny_lsm_tree.SkipList.Find.{Entry, entry_of, flush, search_from_head, get}
use tiny_lsm_tree.SkipList.Chain.{Linked, Rising, Holds, IsValid, Stops, At, At-refl}
use tiny_lsm_tree.SkipList.Search.{descend-At, descend-Passed, descend_last, Passed, At-Rising}
use tiny_lsm_tree.SkipList.View.{find_entry, flush-entries, find_entry-skip, find_entry_above}
use tiny_lsm_tree.SkipList.View.{above_trans, map-append_entries, gt→ne}

-- What a search returns in a list that holds `xs`.
pub record Searched (s : SkipList) (k : Bytes) (xs : List ℕ) (cur : ℕ) (upd : ℕ → Option ℕ)
    : Type 0 where
  pub at : At s k s.head xs cur
  pub last : upd 0 ≡ some cur
  pub passed : (i : ℕ) → i < s.current_level → Passed s k s.head xs upd i

pub search-Searched :
    (s : SkipList) (k : Bytes) (xs : List ℕ)
    → Holds s xs
    → Searched s k xs (search_from_head s k).0 (search_from_head s k).1
unfolding search_from_head
search-Searched s k xs h =
    let start = At-refl s k s.head xs h.linked in
    let fits : length xs ≤ s.next = omega (arith, h.room) in
    record {
      at = descend-At s k s.head xs h.rising fits s.current_level s.head (λ _. none) start;
      last =
          descend_last s k s.head xs h.rising fits s.current_level s.head (λ _. none)
            (λ e. absurd (omega (arith, h.has_level)));
      passed =
          descend-Passed s k s.head xs h.rising fits s.current_level s.current_level s.head
            (λ _. none) start (λ i le lt. absurd (omega arith));
    }

-- The search ends before the first node whose key is not below `k`.
pub Searched-Stops :
    (s : SkipList) (k : Bytes) (xs : List ℕ) (cur : ℕ) (upd : ℕ → Option ℕ)
    → 1 ≤ s.current_level
    → Searched s k xs cur upd
    → Stops s k 0 cur
Searched-Stops s k xs cur upd h r =
    let (u, e, t, st) = r.passed 0 h in
    let same : u ≡ cur = cc (e, r.last) in subst (Stops s k 0) same st

-- What is to come begins with the node of the key, or holds only larger keys.
pub data Next (s : SkipList) (k : Bytes) (cur : ℕ) : List ℕ → Type 0 where
  found :
      (a : ℕ) (zs : List ℕ) → forward_of s cur 0 ≡ some a → key_of s a ≡ k → Next s k cur (a ∷ zs)
  larger :
      (a : ℕ) (zs : List ℕ)
      → forward_of s cur 0 ≡ some a
      → bytes_lt k (key_of s a) ≡ true
      → Next s k cur (a ∷ zs)
  nothing : forward_of s cur 0 ≡ none → Next s k cur []

pub Next-cases :
    (s : SkipList) (k : Bytes) (cur : ℕ) (zs : List ℕ)
    → Linked s cur zs
    → Stops s k 0 cur
    → Next s k cur zs
Next-cases s k cur [] h st = nothing (h 0)
Next-cases s k cur (a ∷ zs) h st = elim (bytes_lt-cases (key_of s a) k) [
  | inl lt ↦ absurd (cc (st a h.0, lt))
  | inr (inl e) ↦ found a zs h.0 e
  | inr (inr gt) ↦ larger a zs h.0 gt
]

-- The entry behind an iterator.
abbrev pub deref : SkipList → Option ℕ → Option Entry
deref s none = none
deref s (some a) = some (entry_of s a)

get_at :
    (s : SkipList) (k : Bytes) (t cur : ℕ) (zs : List ℕ)
    → (search_from_head s k).0 ≡ cur
    → Rising s zs
    → Next s k cur zs
    → deref s (get s k t) ≡ find_entry k (map (entry_of s) zs)
unfolding get find_entry
get_at s k t cur [] e r (nothing f) = rw (e, get, f)
get_at s k t cur (a ∷ zs) e r (found _ _ f g) =
    let same : bytes_eq (key_of s a) k ≡ true = rw g (bytes_eq_refl k) in rw (e, get, f, same)
get_at s k t cur (a ∷ zs) e r (larger _ _ f g) =
    rw (e, get, f, gt→ne (key_of s a) k g)
      (sym (find_entry_above s k zs (above_trans s k a zs g r.0)))

get-Holds :
    (s : SkipList) (k : Bytes) (t : ℕ) (xs : List ℕ)
    → Holds s xs
    → deref s (get s k t) ≡ find_entry k (flush s)
get-Holds s k t xs h =
    let r = search-Searched s k xs h in
    let st =
      Searched-Stops s k xs (search_from_head s k).0 (search_from_head s k).1 h.has_level r in
    let p = r.at in
    rw (flush-entries s xs h, p.split, map-append_entries s p.ws p.zs)
      (rw (find_entry-skip s k p.ws (map (entry_of s) p.zs) p.below) (
        get_at s k t (search_from_head s k).0 p.zs refl
          (At-Rising s k s.head (search_from_head s k).0 xs p h.rising)
          (Next-cases s k (search_from_head s k).0 p.zs p.rest st)))

-- In a well-formed list, whatever transaction is asked for, `get` returns the node of the key
-- exactly if `flush` reports an entry of it, and with the value and the transaction of that entry.
pub get-flush :
    (s : SkipList) (k : Bytes) (t : ℕ) → IsValid s → deref s (get s k t) ≡ find_entry k (flush s)
get-flush s k t h = get-Holds s k t h.chain h.holds
