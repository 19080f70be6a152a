-- ===== src/Heap/Item.antt =====
-- SearchItem and its comparisons (src/iterator/iterator.cpp).
use tiny_lsm_tree.Common.{ℕ, Bool, true, not, ◌&&◌, Bytes, ltb, if◌then◌else◌, bytes_eq, bytes_lt}
use tiny_lsm_tree.Common.Int.{ℤ, int_lt, int_eq}

pub record SearchItem : Type 0 where
  pub key : Bytes
  pub value : Bytes
  pub tranc_id : ℕ
  pub idx : ℤ
  pub level : ℤ

-- `operator<`
unfoldable pub item_lt : SearchItem → SearchItem → Bool
unfolding int_lt
item_lt a b =
    if not (bytes_eq a.key b.key)
    then bytes_lt a.key b.key
    else if ltb b.tranc_id a.tranc_id
    then true
    else if int_lt a.level b.level
    then true
    else int_lt a.idx b.idx

-- `operator>`
unfoldable pub item_gt : SearchItem → SearchItem → Bool
unfolding int_lt
item_gt a b =
    if not (bytes_eq a.key b.key)
    then bytes_lt b.key a.key
    else if ltb a.tranc_id b.tranc_id
    then true
    else if int_lt b.level a.level
    then true
    else int_lt b.idx a.idx

-- `operator==`
unfoldable pub item_eq : SearchItem → SearchItem → Bool
unfolding int_eq
item_eq a b = int_eq a.idx b.idx && bytes_eq a.key b.key
