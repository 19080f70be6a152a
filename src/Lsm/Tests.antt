-- ===== src/Lsm/Tests.antt =====
-- The theorems on the front end at concrete calls.
use tiny_lsm_tree.Common.{ℕ, ◌+◌, ◌%◌, ◌^◌, ◌≡◌, true, false, List, [], ◌∷◌, bytes}
use tiny_lsm_tree.Lsm.Engine.{DirEntry}
use tiny_lsm_tree.Lsm.Front.{Lsm, new_lsm}
use tiny_lsm_tree.Lsm.Calls.{
  Call, get_call, put_call, remove_call, clear_call, run, draws, run-numbers,
}

abbrev seeds : ℕ → ℕ → ℕ
seeds i n = (i + n) % 2

abbrev no_files : List DirEntry
no_files = []

abbrev some_calls : List Call
some_calls =
    put_call (bytes "a") (bytes "1") false
    ∷ get_call (bytes "a") true
    ∷ clear_call (λ p. true)
    ∷ remove_call (bytes "a")
    ∷ []

abbrev after_calls : Lsm ℕ
after_calls = run (new_lsm seeds no_files (bytes "data")) some_calls

run-numbers_example : after_calls.tran_manager.next_transaction_id ≡ (1 + draws some_calls) % 2 ^ 64
run-numbers_example = run-numbers ℕ seeds no_files (bytes "data") some_calls
