-- ===== src/SkipList/Tower.antt =====
-- The order of the higher levels of a list of src/skiplist/skipList.cpp: on every level that a
-- node has, it points to the next node that has the level too.
use tiny_lsm_tree.Common.{ℕ, ◌<◌, Option, none, some, true}
use tiny_lsm_tree.Common.{List, [], ◌∷◌, ◌++◌, ltb, if◌then◌else◌, Bool-cases}
use tiny_lsm_tree.Common.{◌≡◌, ◌≢◌, inl, inr, refl, sym, ap, ◌∙◌, subst, arith, Bytes}
use tiny_lsm_tree.Common.{bytes_lt, All, All-In, In}
use tiny_lsm_tree.SkipList.Node.{SkipList, key_of, forward_of}
use tiny_lsm_tree.SkipList.Chain.{Stops}

abbrev pub level_of : SkipList → ℕ → ℕ
level_of s a = (s.store a).level

-- The first of the nodes that has level `i`.
unfoldable pub next_tall : SkipList → ℕ → List ℕ → Option ℕ
next_tall s i [] = none
next_tall s i (a ∷ ys) =
    let rest = next_tall s i ys in if ltb i (level_of s a) then some a else rest

-- Where `p` points to on level `i` if `ys` are the nodes behind it.
unfoldable pub target : SkipList → ℕ → ℕ → List ℕ → Option ℕ
unfolding next_tall
target s p i ys = if ltb i (level_of s p) then next_tall s i ys else none

abbrev pub Towers : SkipList → ℕ → List ℕ → Type 0
Towers s p [] = (i : ℕ) → forward_of s p i ≡ target s p i []
Towers s p (a ∷ ys) = ((i : ℕ) → forward_of s p i ≡ target s p i (a ∷ ys)) × Towers s a ys

pub next_tall-In :
    (s : SkipList) (i b : ℕ) (ys : List ℕ)
    → next_tall s i ys ≡ some b
    → In b ys × (i < level_of s b)
unfolding next_tall
next_tall-In s i b [] e = cc e
next_tall-In s i b (a ∷ ys) e = elim (Bool-cases (ltb i (level_of s a))) [
  | inl q ↦
      let ab : some a ≡ some b = rw q at e in
      let ab' : a ≡ b = cc ab in
      (inl (sym ab'), subst (λ (x : ℕ). i < level_of s x) ab' (ground arith))
  | inr q ↦ let (m, lt) = next_tall-In s i b ys (rw q at e) in (inr m, lt)
]

pub Towers-first :
    (s : SkipList) (p : ℕ) (ys : List ℕ)
    → Towers s p ys
    → (i : ℕ) → forward_of s p i ≡ target s p i ys
Towers-first s p [] h = h
Towers-first s p (a ∷ ys) h = h.0

-- A node with the level comes first, or one before it does.
next_tall_before :
    (s : SkipList) (i q : ℕ) (ws zs : List ℕ)
    → In q ws
    → i < level_of s q
    → (b : ℕ) × (next_tall s i (ws ++ zs) ≡ some b) × In b ws
unfolding next_tall
next_tall_before s i q [] zs m lt = elim m [ ]
next_tall_before s i q (w ∷ ws) zs m lt = elim (Bool-cases (ltb i (level_of s w))) [
  | inl e ↦ rw e (w, refl, inl refl)
  | inr e ↦ elim m [
    | inl h ↦ absurd (ground (arith, ap (level_of s) h))
    | inr m' ↦ let (b, f, mb) = next_tall_before s i q ws zs m' lt in rw e (b, f, inr mb)
  ]
]

pub next_tall-none :
    (s : SkipList) (i : ℕ) (vs ys : List ℕ)
    → next_tall s i vs ≡ none
    → next_tall s i (vs ++ ys) ≡ next_tall s i ys
unfolding next_tall
next_tall-none s i [] ys e = refl
next_tall-none s i (v ∷ vs) ys e = elim (Bool-cases (ltb i (level_of s v))) [
  | inl q ↦ cc (rw q at e)
  | inr q ↦ rw q (next_tall-none s i vs ys (rw q at e))
]

pub next_tall-some :
    (s : SkipList) (i b : ℕ) (vs ys : List ℕ)
    → next_tall s i vs ≡ some b
    → next_tall s i (vs ++ ys) ≡ some b
unfolding next_tall
next_tall-some s i b [] ys e = cc e
next_tall-some s i b (v ∷ vs) ys e = elim (Bool-cases (ltb i (level_of s v))) [
  | inl q ↦ rw q (rw q at e)
  | inr q ↦ rw q (next_tall-some s i b vs ys (rw q at e))
]

pub next_tall_same :
    (s t : SkipList) (i a : ℕ) (vs : List ℕ)
    → ((p : ℕ) → p ≢ a → level_of t p ≡ level_of s p)
    → All (λ b. b ≢ a) vs
    → next_tall t i vs ≡ next_tall s i vs
unfolding next_tall
next_tall_same s t i a [] l h = refl
next_tall_same s t i a (v ∷ vs) l h = rw (l v h.0, next_tall_same s t i a vs l h.1) refl

-- On a level, a search for `k` can end in one node only, which has the level.
module _ (s : SkipList) (k : Bytes) (i : ℕ) (zs : List ℕ) where
  abbrev pub Top : ℕ → Type 0
  Top q = (i < level_of s q) × Stops s k i q

  blocked :
      (p q : ℕ) (ws : List ℕ)
      → All (λ b. bytes_lt (key_of s b) k ≡ true) ws
      → Towers s p (ws ++ zs)
      → Top p
      → In q ws
      → i < level_of s q
      → ⊥
  unfolding target
  blocked p q ws bl h t m lt =
      let (b, e, mb) = next_tall_before s i q ws zs m lt in
      let here : ltb i (level_of s p) ≡ true = ground (arith, t.0) in
      let f : forward_of s p i ≡ some b = Towers-first s p (ws ++ zs) h i ∙ rw here e in
      cc (t.1 b f, All-In (λ (x : ℕ). bytes_lt (key_of s x) k ≡ true) b ws bl mb)

  pub Top-unique :
      (p q r : ℕ) (ws : List ℕ)
      → All (λ b. bytes_lt (key_of s b) k ≡ true) ws
      → Towers s p (ws ++ zs)
      → In q (p ∷ ws)
      → In r (p ∷ ws)
      → Top q
      → Top r
      → q ≡ r
  Top-unique p q r [] bl h (inl a) (inl b) tq tr = a ∙ sym b
  Top-unique p q r [] bl h (inr a) b tq tr = elim a [ ]
  Top-unique p q r [] bl h (inl a) (inr b) tq tr = elim b [ ]
  Top-unique p q r (w ∷ ws) bl h (inl a) (inl b) tq tr = a ∙ sym b
  Top-unique p q r (w ∷ ws) bl h (inl a) (inr b) tq tr =
      absurd (blocked p r (w ∷ ws) bl h (subst Top a tq) b tr.0)
  Top-unique p q r (w ∷ ws) bl h (inr a) (inl b) tq tr =
      absurd (blocked p q (w ∷ ws) bl h (subst Top b tr) a tq.0)
  Top-unique p q r (w ∷ ws) bl h (inr a) (inr b) tq tr = Top-unique w q r ws bl.1 h.1 a b tq tr

-- From any node before `zs` on, the list still runs through `zs`.
pub Towers-from :
    (s : SkipList) (P : ℕ → Type 0) (p u : ℕ) (ws zs : List ℕ)
    → Towers s p (ws ++ zs)
    → All P ws
    → In u (p ∷ ws)
    → (vs : List ℕ) × All P vs × Towers s u (vs ++ zs)
Towers-from s P p u ws zs h g (inl e) = (ws, g, subst (λ (x : ℕ). Towers s x (ws ++ zs)) (sym e) h)
Towers-from s P p u [] zs h g (inr m) = elim m [ ]
Towers-from s P p u (w ∷ ws) zs h g (inr m) = Towers-from s P w u ws zs h.1 g.1 m

module _ (s t : SkipList) (levels : (p : ℕ) → level_of t p ≡ level_of s p) where
  pub next_tall_levels : (i : ℕ) (ys : List ℕ) → next_tall t i ys ≡ next_tall s i ys
  unfolding next_tall
  next_tall_levels i [] = refl
  next_tall_levels i (a ∷ ys) = rw (levels a, next_tall_levels i ys) refl

  pub target_levels : (p i : ℕ) (ys : List ℕ) → target t p i ys ≡ target s p i ys
  unfolding target
  target_levels p i ys = rw (levels p, next_tall_levels i ys) refl

  pub Towers-same :
      ((p i : ℕ) → forward_of t p i ≡ forward_of s p i)
      → (p : ℕ) (ys : List ℕ) → Towers s p ys
      → Towers t p ys
  Towers-same f p [] h = λ i. f p i ∙ h i ∙ sym (target_levels p i [])
  Towers-same f p (a ∷ ys) h =
      (λ i. f p i ∙ h.0 i ∙ sym (target_levels p i (a ∷ ys)), Towers-same f a ys h.1)
