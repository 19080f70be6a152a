-- ===== src/SkipList/RemoveLaws.antt =====
-- `remove` of src/skiplist/skipList.cpp on a list in order on every level.
use tiny_lsm_tree.Common.{ℕ, ◌<◌, Option, some, true, false}
use tiny_lsm_tree.Common.{List, [], ◌∷◌, ◌++◌, ltb}
use tiny_lsm_tree.Common.{◌≡◌, inl, refl, sym, ap, ◌∙◌, subst, arith, Bytes}
use tiny_lsm_tree.Common.{bytes_lt, bytes_lt_irrefl, bytes_eq, bytes_eq_refl, All, All-imp}
use tiny_lsm_tree.SkipList.Node.{SkipList, key_of}
use tiny_lsm_tree.SkipList.Find.{Entry, search_from_head}
use tiny_lsm_tree.SkipList.Write.{remove, unlink, lower}
use tiny_lsm_tree.SkipList.Chain.{Rising, Stops, IsValid}
use tiny_lsm_tree.SkipList.Search.{At-Rising, Passed}
use tiny_lsm_tree.SkipList.View.{lt→not_gt, gt→ne}
use tiny_lsm_tree.SkipList.Get.{Searched, search-Searched, Searched-Stops}
use tiny_lsm_tree.SkipList.Get.{Next, found, larger, nothing, Next-cases}
use tiny_lsm_tree.SkipList.Splice.{Frame}
use tiny_lsm_tree.SkipList.Unlink.{Frame-unlink, lower_lem}
use tiny_lsm_tree.SkipList.Tower.{level_of, next_tall}
use tiny_lsm_tree.SkipList.Towered.{Stands, Stands-level, IsTowered, Peak, upd-Peak, search-tall}
use tiny_lsm_tree.SkipList.Towered.{Peak-next, Peak-apart}
use tiny_lsm_tree.SkipList.RemoveTowers.{Points, unlink-Unlinked}
use tiny_lsm_tree.SkipList.RemoveValid.{Stands-remove}

-- The search has passed `ws` and has found `a`.
module _ (s : SkipList) (k : Bytes) (a : ℕ) (upd : ℕ → Option ℕ) (ws zs : List ℕ)
    (h : Stands s (ws ++ a ∷ zs)) (below : All (λ b. bytes_lt (key_of s b) k ≡ true) ws)
    (behind : All (λ b. bytes_lt (key_of s b) k ≡ false) (a ∷ zs))
    (passed : (i : ℕ) → i < s.current_level → Passed s k s.head (ws ++ a ∷ zs) upd i)
    (tall : (i u : ℕ) → upd i ≡ some u → i < level_of s u) where
  peak :
      (i : ℕ) → i < s.current_level → (u : ℕ) × (upd i ≡ some u) × Peak s k ws (a ∷ zs) h behind i u
  peak i lt =
      let (u, eu, _, _) = passed i lt in
      (u, eu, upd-Peak s k ws (a ∷ zs) h behind upd passed tall i u lt eu)

  found-Points : Points s a 0 upd s.current_level
  unfolding next_tall
  found-Points = record {
    named = λ j _ lt.
        (let (u, eu, pk) = peak j (omega arith) in
          (u, eu, λ q. Peak-apart s k ws (a ∷ zs) h behind below j u a pk (inl refl) (sym q)));
    to = λ j u _ lt e.
        (let pk =
            upd-Peak s k ws (a ∷ zs) h behind upd passed tall j u
              (omega (arith, Stands-level s a ws zs h)) e in
          let on : ltb j (level_of s a) ≡ true = ground arith in
          Peak-next s k ws (a ∷ zs) h behind below j u pk ∙ rw on refl);
    only = λ j u e. (h.edges u j a e).0;
    enough = omega (arith, Stands-level s a ws zs h);
  }

  pub remove-Stands :
      (n size : ℕ)
      → (let s' = unlink s.current_level s a 0 upd in
          Stands (lower n (record s' { size_bytes = size })) (ws ++ zs))
  remove-Stands n size =
      let s' = unlink s.current_level s a 0 upd in
      let (m, low) = lower_lem n (record s' { size_bytes = size }) in
      let f : Frame s s' = Frame-unlink s.current_level s a 0 upd in
      let d = unlink-Unlinked s.current_level s a 0 upd found-Points in
      subst (λ (x : SkipList). Stands x (ws ++ zs)) (sym low.result)
        (Stands-remove s (record s' { size_bytes = size; current_level = m }) k a upd ws zs
          (record { hit = d.hit; miss = d.miss }) f.level h below behind
          (λ i lt. peak i (omega (arith, Stands-level s a ws zs h))) f.head f.next f.max_level
          (λ p. ap (λ (e : Entry). e.key) (f.entry p))
          (
            low.positive (omega (arith, f.current_level, h.holds.has_level)),
            omega (arith, low.below, f.current_level),
          )
          (λ i le lt. low.passed i le (omega (arith, f.current_level))))

-- A list whose nodes are in order on every level is well formed, and `remove` keeps it so.
pub remove-IsTowered : (s : SkipList) (k : Bytes) → IsTowered s → IsTowered (remove s k)
unfolding remove
remove-IsTowered s k h = go r.at.zs refl (Next-cases s k cur r.at.zs r.at.rest stops)
  where
    cur : ℕ
    cur = (search_from_head s k).0

    upd : ℕ → Option ℕ
    upd = (search_from_head s k).1

    r : Searched s k h.chain cur upd
    r = search-Searched s k h.chain h.stands.holds

    stops : Stops s k 0 cur
    stops = Searched-Stops s k h.chain cur upd h.stands.holds.has_level r

    tall : (i u : ℕ) → upd i ≡ some u → i < level_of s u
    tall = search-tall s k h.stands.edges (omega (arith, h.stands.head_level, h.stands.top))

    go : (zs : List ℕ) → r.at.zs ≡ zs → Next s k cur zs → IsTowered (remove s k)
    go [] e (nothing f) = rw (f, remove) h
    go (a ∷ zs) e (larger _ _ f gt) =
        let other : bytes_eq (key_of s a) k ≡ false = gt→ne (key_of s a) k gt in
        rw (f, remove, other) h
    go (a ∷ zs) e (found _ _ f ek) =
        let same : bytes_eq (key_of s a) k ≡ true = rw ek (bytes_eq_refl k) in
        let split : h.chain ≡ r.at.ws ++ a ∷ zs =
          r.at.split ∙ ap (λ (l : List ℕ). r.at.ws ++ l) e in
        let rising =
          subst (Rising s) e (At-Rising s k s.head cur h.chain r.at h.stands.holds.rising) in
        let above =
          subst (λ (x : Bytes). All (λ b. bytes_lt x (key_of s b) ≡ true) zs) ek rising.0 in
        let behind : All (λ b. bytes_lt (key_of s b) k ≡ false) (a ∷ zs) = (
          rw ek (bytes_lt_irrefl k),
          All-imp (λ b. bytes_lt k (key_of s b) ≡ true) (λ b. bytes_lt (key_of s b) k ≡ false) zs
              (λ b m gt. lt→not_gt k (key_of s b) gt) above,
        ) in
        rw (f, remove, same)
          (record {
            chain = r.at.ws ++ zs;
            stands =
                remove-Stands s k a upd r.at.ws zs (subst (Stands s) split h.stands) r.at.below
                  behind
                  (λ i lt. subst (λ (l : List ℕ). Passed s k s.head l upd i) split (r.passed i lt))
                  tall _ _;
          })

pub IsTowered-IsValid : (s : SkipList) → IsTowered s → IsValid s
IsTowered-IsValid s h = record { chain = h.chain; holds = h.stands.holds }
