-- ===== src/SkipList/Tests.antt =====
-- Runs of the skip list of src/skiplist/skipList.cpp, and its theorems at concrete lists.
use tiny_lsm_tree.Common.{◌%◌, ◌≤◌, ◌<◌, ◌≡◌, refl, bytes, arith}
use tiny_lsm_tree.SkipList.Seek.{IsMonotone}
use tiny_lsm_tree.SkipList.Range.{Range, iters_monotony_predicate_lem}
use tiny_lsm_tree.Common.{Bytes, bytes_eq, bytes_lt, bytes_lt_trans, if◌then◌else◌}
use tiny_lsm_tree.SkipList.Iterator.{Answer, begin_preffix, end_preffix, collect}
use tiny_lsm_tree.SkipList.Prefix.{with_prefix, prefix_range-flush}
use tiny_lsm_tree.SkipList.Node.{SkipList, new_list, random_level}
use tiny_lsm_tree.SkipList.Find.{flush, get}
use tiny_lsm_tree.SkipList.Write.{put, remove, size_mod}
use tiny_lsm_tree.SkipList.Chain.{IsValid}
use tiny_lsm_tree.SkipList.View.{find_entry, put_entry}
use tiny_lsm_tree.SkipList.Get.{deref, get-flush}
use tiny_lsm_tree.SkipList.Levels.{random_level_bounds}
use tiny_lsm_tree.SkipList.Put.{put-IsValid, flush-put}
use tiny_lsm_tree.SkipList.Erase.{remove_entry}
use tiny_lsm_tree.SkipList.Remove.{flush-remove, remove-CountsSize}
use tiny_lsm_tree.SkipList.Size.{total_size}
use tiny_lsm_tree.Common.{List, [], ◌∷◌}
use tiny_lsm_tree.SkipList.Towered.{IsTowered}
use tiny_lsm_tree.SkipList.Histories.{ListCall, run_calls, edits, flush-run_calls}
use tiny_lsm_tree.SkipList.Laws.{new_list-IsValid, CountsSize, put-CountsSize}
use tiny_lsm_tree.SkipList.Laws.{flush-new_list}

abbrev pub empty_list : SkipList
empty_list = new_list 16 (λ n. n % 2) 0

abbrev pub two_keys : SkipList
two_keys = put (put empty_list (bytes "b") (bytes "1") 1) (bytes "a") (bytes "2") 2

pub empty_list-IsValid : IsValid empty_list
empty_list-IsValid = new_list-IsValid 16 (λ n. n % 2) 0

pub two_keys-IsValid : IsValid two_keys
two_keys-IsValid =
    put-IsValid _ (bytes "a") (bytes "2") 2
      (put-IsValid _ (bytes "b") (bytes "1") 1 empty_list-IsValid)

empty_list-CountsSize : CountsSize empty_list
unfolding total_size
empty_list-CountsSize = record {
  counted = rw (flush-new_list 16 (λ n. n % 2) 0) refl;
  fits = rw (flush-new_list 16 (λ n. n % 2) 0) (omega arith);
}

flush-put_example :
    flush (put two_keys (bytes "a") (bytes "3") 9)
    ≡ put_entry (bytes "a") (bytes "3") 9 (flush two_keys)
flush-put_example = flush-put two_keys (bytes "a") (bytes "3") 9 two_keys-IsValid

get-flush_example :
    deref two_keys (get two_keys (bytes "b") 0) ≡ find_entry (bytes "b") (flush two_keys)
get-flush_example = get-flush two_keys (bytes "b") 0 two_keys-IsValid

flush-remove_example :
    flush (remove two_keys (bytes "a")) ≡ remove_entry (bytes "a") (flush two_keys)
flush-remove_example = flush-remove two_keys (bytes "a") two_keys-IsValid

-- A key is put twice, another removed, one removed that is not there.
abbrev calls : List ListCall
calls =
    ListCall.put_call (bytes "b") (bytes "1") 1
    ∷ ListCall.put_call (bytes "a") (bytes "2") 2
    ∷ ListCall.put_call (bytes "b") (bytes "3") 3
    ∷ ListCall.remove_call (bytes "a")
    ∷ ListCall.remove_call (bytes "c")
    ∷ []

flush-run_calls_example :
    IsTowered (run_calls calls empty_list) × (flush (run_calls calls empty_list) ≡ edits calls [])
flush-run_calls_example = flush-run_calls calls 16 (λ n. n % 2) 0 (omega arith)

-- What is left after them.
left_after_calls :
    flush (run_calls calls empty_list)
    ≡ record { key = bytes "b"; value = bytes "3"; tranc_id = 1 } ∷ []
unfolding run_calls flush bytes_lt bytes_eq
left_after_calls = refl

small_entry : total_size (put_entry (bytes "a") (bytes "2") 2 (flush empty_list)) < size_mod
unfolding put_entry total_size
small_entry = rw (flush-new_list 16 (λ n. n % 2) 0) (omega arith)

one_key-CountsSize : CountsSize (put empty_list (bytes "a") (bytes "2") 2)
one_key-CountsSize =
    put-CountsSize empty_list (bytes "a") (bytes "2") 2 empty_list-IsValid empty_list-CountsSize
      small_entry

put-CountsSize_example : CountsSize (put empty_list (bytes "a") (bytes "2") 2)
put-CountsSize_example =
    put-CountsSize empty_list (bytes "a") (bytes "2") 2 empty_list-IsValid empty_list-CountsSize
      small_entry

remove-CountsSize_example :
    CountsSize (remove (put empty_list (bytes "a") (bytes "2") 2) (bytes "a"))
remove-CountsSize_example =
    remove-CountsSize (put empty_list (bytes "a") (bytes "2") 2) (bytes "a")
      (put-IsValid empty_list (bytes "a") (bytes "2") 2 empty_list-IsValid) one_key-CountsSize

random_level_bounds_example : (1 ≤ (random_level empty_list).0) × ((random_level empty_list).0 ≤ 16)
random_level_bounds_example = random_level_bounds empty_list (omega arith)

prefix_range-flush_example :
    collect two_keys two_keys.next
      (begin_preffix two_keys (bytes "a"))
      (end_preffix two_keys (bytes "a"))
    ≡ with_prefix (bytes "a") (flush two_keys)
prefix_range-flush_example = prefix_range-flush two_keys (bytes "a") two_keys-IsValid

-- Below "b" the search goes right, at "b" the predicate holds, above it the search goes left.
abbrev pub around_b : Bytes → Answer
around_b k =
    if bytes_lt k (bytes "b")
    then Answer.go_right
    else if bytes_lt (bytes "b") k
    then Answer.go_left
    else Answer.holds

pub around_b-IsMonotone : IsMonotone around_b
around_b-IsMonotone j k h =
    ground (arith, bytes_lt_trans j k (bytes "b"), bytes_lt_trans (bytes "b") j k)

iters_monotony_predicate_lem_example : Range two_keys around_b
iters_monotony_predicate_lem_example =
    iters_monotony_predicate_lem two_keys around_b around_b-IsMonotone two_keys-IsValid
