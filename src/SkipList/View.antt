-- ===== src/SkipList/View.antt =====
-- The entries of a skip list as a sorted list, and the specification of `get` and `put` of
-- src/skiplist/skipList.cpp on it.
use tiny_lsm_tree.Common.{ℕ, zero, suc, ◌≤◌, Option, none, some, true, false, List, [], ◌∷◌, ◌++◌}
use tiny_lsm_tree.Common.{◌≡◌, inl, inr, refl, ap, arith, map, Bytes, length, All}
use tiny_lsm_tree.Common.{bytes_lt, bytes_eq, bytes_eq→eq, bytes_lt_irrefl, Bool-cases}
use tiny_lsm_tree.Common.{bytes_lt_trans, if◌then◌else◌, All-imp}
use tiny_lsm_tree.SkipList.Node.{SkipList, key_of, forward_of}
use tiny_lsm_tree.SkipList.Find.{Entry, entry_of, flush_loop, flush}
use tiny_lsm_tree.SkipList.Chain.{Linked, Holds}

-- The first entry of the key.
unfoldable pub find_entry : Bytes → List Entry → Option Entry
find_entry k [] = none
find_entry k (e ∷ es) = if bytes_eq e.key k then some e else find_entry k es

-- The entry of the key overwritten in place, with its transaction kept, or a new one put in order.
unfoldable pub put_entry : Bytes → Bytes → ℕ → List Entry → List Entry
put_entry k v t [] = record { key = k; value = v; tranc_id = t } ∷ []
put_entry k v t (e ∷ es) =
    let rest = put_entry k v t es in
    if bytes_lt e.key k
    then e ∷ rest
    else if bytes_eq e.key k
    then record e { value = v } ∷ es
    else record { key = k; value = v; tranc_id = t } ∷ e ∷ es

flush_loop-entries :
    (s : SkipList) (fuel p : ℕ) (ys : List ℕ)
    → Linked s p ys
    → length ys ≤ fuel
    → flush_loop s fuel (forward_of s p 0) ≡ map (entry_of s) ys
unfolding flush_loop
flush_loop-entries s zero p [] h f = refl
flush_loop-entries s zero p (a ∷ ys) h f = absurd (omega arith)
flush_loop-entries s (suc fuel) p [] h f = rw (h 0)
flush_loop-entries s (suc fuel) p (a ∷ ys) h f =
    rw h.0
      (ap (λ (l : List Entry). entry_of s a ∷ l) (flush_loop-entries s fuel a ys h.2 (omega arith)))

pub flush-entries : (s : SkipList) (xs : List ℕ) → Holds s xs → flush s ≡ map (entry_of s) xs
unfolding flush
flush-entries s xs h = flush_loop-entries s s.next s.head xs h.linked (omega (arith, h.room))

pub lt→ne : (a b : Bytes) → bytes_lt a b ≡ true → bytes_eq a b ≡ false
lt→ne a b h = elim (Bool-cases (bytes_eq a b)) [
  | inr e ↦ e
  | inl e ↦ cc (bytes_lt_irrefl b, ap (λ (x : Bytes). bytes_lt x b) (bytes_eq→eq a b e))
]

pub gt→ne : (a b : Bytes) → bytes_lt b a ≡ true → bytes_eq a b ≡ false
gt→ne a b h = elim (Bool-cases (bytes_eq a b)) [
  | inr e ↦ e
  | inl e ↦ cc (bytes_lt_irrefl b, ap (λ (x : Bytes). bytes_lt b x) (bytes_eq→eq a b e))
]

pub lt→not_gt : (a b : Bytes) → bytes_lt a b ≡ true → bytes_lt b a ≡ false
lt→not_gt a b h = elim (Bool-cases (bytes_lt b a)) [
  | inr e ↦ e
  | inl e ↦ cc (bytes_lt_trans a b a h e, bytes_lt_irrefl a)
]

module _ (s : SkipList) (k : Bytes) where
  -- Nodes with smaller keys are passed over.
  pub find_entry-skip :
      (ws : List ℕ) (es : List Entry)
      → All (λ b. bytes_lt (key_of s b) k ≡ true) ws
      → find_entry k (map (entry_of s) ws ++ es) ≡ find_entry k es
  unfolding find_entry
  find_entry-skip [] es h = refl
  find_entry-skip (w ∷ ws) es h = rw (lt→ne (key_of s w) k h.0) (find_entry-skip ws es h.1)

  pub find_entry_above :
      (zs : List ℕ)
      → All (λ b. bytes_lt k (key_of s b) ≡ true) zs
      → find_entry k (map (entry_of s) zs) ≡ none
  unfolding find_entry
  find_entry_above [] h = refl
  find_entry_above (z ∷ zs) h = rw (gt→ne (key_of s z) k h.0) (find_entry_above zs h.1)

  pub put_entry-skip :
      (v : Bytes) (t : ℕ) (ws : List ℕ) (es : List Entry)
      → All (λ b. bytes_lt (key_of s b) k ≡ true) ws
      → put_entry k v t (map (entry_of s) ws ++ es) ≡ map (entry_of s) ws ++ put_entry k v t es
  unfolding put_entry
  put_entry-skip v t [] es h = refl
  put_entry-skip v t (w ∷ ws) es h =
      rw h.0 (ap (λ (l : List Entry). entry_of s w ∷ l) (put_entry-skip v t ws es h.1))

  pub put_entry_above :
      (v : Bytes) (t : ℕ) (zs : List ℕ)
      → All (λ b. bytes_lt k (key_of s b) ≡ true) zs
      → put_entry k v t (map (entry_of s) zs)
        ≡ record { key = k; value = v; tranc_id = t } ∷ map (entry_of s) zs
  unfolding put_entry
  put_entry_above v t [] h = refl
  put_entry_above v t (z ∷ zs) h = rw (lt→not_gt k (key_of s z) h.0, gt→ne (key_of s z) k h.0)

  pub above_trans :
      (a : ℕ) (zs : List ℕ)
      → bytes_lt k (key_of s a) ≡ true
      → All (λ b. bytes_lt (key_of s a) (key_of s b) ≡ true) zs
      → All (λ b. bytes_lt k (key_of s b) ≡ true) zs
  above_trans a zs lt h =
      All-imp (λ b. bytes_lt (key_of s a) (key_of s b) ≡ true) (λ b. bytes_lt k (key_of s b) ≡ true)
        zs (λ b m g. bytes_lt_trans k (key_of s a) (key_of s b) lt g) h

pub map-append_entries :
    (s : SkipList) (ws zs : List ℕ)
    → map (entry_of s) (ws ++ zs) ≡ map (entry_of s) ws ++ map (entry_of s) zs
map-append_entries s [] zs = refl
map-append_entries s (w ∷ ws) zs =
    ap (λ (l : List Entry). entry_of s w ∷ l) (map-append_entries s ws zs)
