-- ===== src/SkipList/Histories.antt =====
-- Sequences of `put`, `remove` and `clear` of src/skiplist/skipList.cpp from an empty list.
use tiny_lsm_tree.Common.{ℕ, ◌≤◌}
use tiny_lsm_tree.Common.{List, [], ◌∷◌}
use tiny_lsm_tree.Common.{◌≡◌, refl, ap, ◌∙◌, arith, Bytes}
use tiny_lsm_tree.SkipList.Node.{SkipList, new_list}
use tiny_lsm_tree.SkipList.Find.{Entry, flush}
use tiny_lsm_tree.SkipList.Write.{put, remove, clear}
use tiny_lsm_tree.SkipList.View.{put_entry}
use tiny_lsm_tree.SkipList.Put.{flush-put, put-IsTowered}
use tiny_lsm_tree.SkipList.Erase.{remove_entry}
use tiny_lsm_tree.SkipList.Remove.{flush-remove}
use tiny_lsm_tree.SkipList.RemoveLaws.{remove-IsTowered, IsTowered-IsValid}
use tiny_lsm_tree.SkipList.Tower.{target, next_tall}
use tiny_lsm_tree.SkipList.Towered.{Edges, IsTowered}
use tiny_lsm_tree.SkipList.Laws.{new_list-Holds, clear-Holds, flush-clear, flush-new_list}

-- A call that changes the list.
pub data ListCall : Type 0 where
  put_call : Bytes → Bytes → ℕ → ListCall
  remove_call : Bytes → ListCall
  clear_call : ListCall

unfoldable pub run_call : ListCall → SkipList → SkipList
unfolding put remove clear
run_call (put_call k v t) s = put s k v t
run_call (remove_call k) s = remove s k
run_call clear_call s = clear s

unfoldable pub run_calls : List ListCall → SkipList → SkipList
unfolding run_call
run_calls [] s = s
run_calls (c ∷ cs) s = run_calls cs (run_call c s)

-- What the call means for entries in the order of their keys.
unfoldable pub edit : ListCall → List Entry → List Entry
unfolding put_entry remove_entry
edit (put_call k v t) es = put_entry k v t es
edit (remove_call k) es = remove_entry k es
edit clear_call es = []

unfoldable pub edits : List ListCall → List Entry → List Entry
unfolding edit
edits [] es = es
edits (c ∷ cs) es = edits cs (edit c es)

new_list-IsTowered :
    (max_lvl : ℕ) (coin : ℕ → ℕ) (drawn : ℕ) → 1 ≤ max_lvl → IsTowered (new_list max_lvl coin drawn)
unfolding target next_tall
new_list-IsTowered max_lvl coin drawn pos = record {
  chain = [];
  stands = record {
    holds = new_list-Holds max_lvl coin drawn;
    towers = λ i. ground arith;
    edges = λ p i b e. cc e;
    head_level = refl;
    top = pos;
    low = tt;
  };
}

clear-Edges : (s : SkipList) → Edges s → Edges (clear s)
unfolding clear
clear-Edges s h p i b e = ground (arith, h p i b)

clear-IsTowered : (s : SkipList) → IsTowered s → IsTowered (clear s)
unfolding clear target next_tall
clear-IsTowered s h = record {
  chain = [];
  stands = record {
    holds = clear-Holds s h.stands.holds.has_level;
    towers = λ i. ground arith;
    edges = clear-Edges s h.stands.edges;
    head_level = ground arith;
    top = h.stands.top;
    low = tt;
  };
}

-- One call keeps the list in order on every level and edits the entries.
step :
    (c : ListCall) (s : SkipList)
    → IsTowered s
    → IsTowered (run_call c s) × (flush (run_call c s) ≡ edit c (flush s))
unfolding run_call edit
step (put_call k v t) s h = (put-IsTowered s k v t h, flush-put s k v t (IsTowered-IsValid s h))
step (remove_call k) s h = (remove-IsTowered s k h, flush-remove s k (IsTowered-IsValid s h))
step clear_call s h = (clear-IsTowered s h, (flush-clear s (IsTowered-IsValid s h)).0)

steps :
    (cs : List ListCall) (s : SkipList)
    → IsTowered s
    → IsTowered (run_calls cs s) × (flush (run_calls cs s) ≡ edits cs (flush s))
unfolding run_calls edits
steps [] s h = (h, refl)
steps (c ∷ cs) s h =
    let one = step c s h in
    let rest = steps cs (run_call c s) one.0 in (rest.0, rest.1 ∙ ap (edits cs) one.1)

-- From an empty list with at least one level, after any sequence of `put`, `remove` and `clear` and
-- whatever levels are drawn, the nodes are in order on every level, and `flush` reports what the same
-- edits make of the empty sequence of entries.
pub flush-run_calls :
    (cs : List ListCall) (max_lvl : ℕ) (coin : ℕ → ℕ) (drawn : ℕ)
    → 1 ≤ max_lvl
    → IsTowered (run_calls cs (new_list max_lvl coin drawn))
      × (flush (run_calls cs (new_list max_lvl coin drawn)) ≡ edits cs [])
flush-run_calls cs max_lvl coin drawn pos =
    let all = steps cs (new_list max_lvl coin drawn) (new_list-IsTowered max_lvl coin drawn pos) in
    (all.0, all.1 ∙ ap (edits cs) (flush-new_list max_lvl coin drawn))
