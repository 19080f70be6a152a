-- ===== src/SkipList/Chain.antt =====
-- The well-formedness of the linked nodes of a skip list (src/skiplist/skipList.cpp), and what
-- the search finds in a well-formed list.
use tiny_lsm_tree.Common.{ℕ, ◌+◌, ◌≤◌, ◌<◌, none, some, true, false, List, [], ◌∷◌}
use tiny_lsm_tree.Common.{◌++◌, ◌≡◌, ◌≢◌, inl, inr, refl, sym, ap, ◌∙◌, Bytes}
use tiny_lsm_tree.Common.{bytes_lt, bytes_lt_trans, length}
use tiny_lsm_tree.Common.{All, In, All-In}
use tiny_lsm_tree.Common.{All-append}
use tiny_lsm_tree.Common.{append_assoc}
use tiny_lsm_tree.SkipList.Node.{SkipList, key_of, forward_of}

-- From `p` on, level 0 runs through exactly the addresses of the list, and a pointer of a higher
-- level goes to one of those further on.
abbrev pub Linked : SkipList → ℕ → List ℕ → Type 0
Linked s p [] = (i : ℕ) → forward_of s p i ≡ none
Linked s p (a ∷ ys) =
    (forward_of s p 0 ≡ some a)
    × ((i b : ℕ) → forward_of s p i ≡ some b → In b (a ∷ ys))
    × Linked s a ys

-- The keys rise strictly.
abbrev pub Rising : SkipList → List ℕ → Type 0
Rising s [] = Unit
Rising s (a ∷ ys) = All (λ b. bytes_lt (key_of s a) (key_of s b) ≡ true) ys × Rising s ys

-- The addresses `xs` are those of the entries of `s`, in order.
pub record Holds (s : SkipList) (xs : List ℕ) : Type 0 where
  pub linked : Linked s s.head xs
  pub rising : Rising s xs
  pub no_head : All (λ a. a ≢ s.head) xs
  pub allocated : All (λ a. a < s.next) xs
  pub head_allocated : s.head < s.next
  pub room : length xs + 1 ≤ s.next
  pub has_level : 1 ≤ s.current_level
  pub head_levels : (i : ℕ) → s.current_level ≤ i → forward_of s s.head i ≡ none

-- A skip list is well formed if it holds some list of addresses.
pub record IsValid (s : SkipList) : Type 0 where
  pub chain : List ℕ
  pub holds : Holds s chain

-- The walk from `p` ends in the last of the nodes `ws`, or in `p` if there is none.
abbrev pub Ends : ℕ → List ℕ → ℕ → Type 0
Ends p [] r = p ≡ r
Ends p (w ∷ ws) r = Ends w ws r

-- `r` is passed by the search for `k` on level `i`: what follows there is not below `k`.
abbrev pub Stops : SkipList → Bytes → ℕ → ℕ → Type 0
Stops s k i r = (b : ℕ) → forward_of s r i ≡ some b → bytes_lt (key_of s b) k ≡ false

-- Where the search for `k` stands among the nodes `ys` behind `p`: it has passed `ws`, whose keys
-- are below `k`, stands in `r`, and `zs` is to come.
pub record At (s : SkipList) (k : Bytes) (p : ℕ) (ys : List ℕ) (r : ℕ) : Type 0 where
  pub ws : List ℕ
  pub zs : List ℕ
  pub split : ys ≡ ws ++ zs
  pub below : All (λ b. bytes_lt (key_of s b) k ≡ true) ws
  pub ends : Ends p ws r
  pub rest : Linked s r zs

pub Linked-In :
    (s : SkipList) (p i b : ℕ) (ys : List ℕ) → Linked s p ys → forward_of s p i ≡ some b → In b ys
Linked-In s p i b [] h e = cc (h i)
Linked-In s p i b (a ∷ ys) h e = h.1 i b e

-- A node of the list splits it, and the nodes before it have smaller keys.
unfoldable pub jump :
    (s : SkipList) (k : Bytes) (p b : ℕ) (ys : List ℕ)
    → Linked s p ys
    → Rising s ys
    → In b ys
    → bytes_lt (key_of s b) k ≡ true
    → At s k p ys b
jump s k p b [] h r m lt = elim m [ ]
jump s k p b (a ∷ ys) h r (inl e) lt = record {
  ws = a ∷ [];
  zs = ys;
  split = refl;
  below = (rw (← e) lt, tt);
  ends = sym e;
  rest = rw e h.2;
}
jump s k p b (a ∷ ys) h r (inr m) lt =
    let t = jump s k a b ys h.2 r.1 m lt in
    record {
      ws = a ∷ t.ws;
      zs = t.zs;
      split = ap (λ (l : List ℕ). a ∷ l) t.split;
      below = (
        bytes_lt_trans (key_of s a) (key_of s b) k
            (All-In (λ (b' : ℕ). bytes_lt (key_of s a) (key_of s b') ≡ true) b ys r.0 m) lt,
        t.below,
      );
      ends = t.ends;
      rest = t.rest;
    }

pub Rising-append_right : (s : SkipList) (ws zs : List ℕ) → Rising s (ws ++ zs) → Rising s zs
Rising-append_right s [] zs h = h
Rising-append_right s (w ∷ ws) zs h = Rising-append_right s ws zs h.1

Ends-append : (p q r : ℕ) (ws vs : List ℕ) → Ends p ws q → Ends q vs r → Ends p (ws ++ vs) r
Ends-append p q r [] vs e h = rw e h
Ends-append p q r (w ∷ ws) vs e h = Ends-append w q r ws vs e h

-- One part of a search after another.
pub At-trans :
    (s : SkipList) (k : Bytes) (p q r : ℕ) (ys : List ℕ) (t : At s k p ys q)
    → At s k q t.zs r
    → At s k p ys r
At-trans s k p q r ys t u = record {
  ws = t.ws ++ u.ws;
  zs = u.zs;
  split = t.split ∙ ap (λ (l : List ℕ). t.ws ++ l) u.split ∙ sym (append_assoc t.ws u.ws u.zs);
  below = All-append _ t.ws u.ws t.below u.below;
  ends = Ends-append p q r t.ws u.ws t.ends u.ends;
  rest = u.rest;
}

pub At-refl : (s : SkipList) (k : Bytes) (p : ℕ) (ys : List ℕ) → Linked s p ys → At s k p ys p
At-refl s k p ys h = record { ws = []; zs = ys; split = refl; below = tt; ends = refl; rest = h }
