-- ===== src/Redis/Reply.antt =====
-- What a command of RedisWrapper (src/redis_wrapper/redis_wrapper.cpp) comes to, the arguments that
-- it reads, and the parts of the standard library that it calls.
use tiny_lsm_tree.Common.{ℕ, zero, suc, ◌+◌, ◌*◌, ◌-◌, ◌/◌, ◌%◌, ◌^◌, none, some, Bool, true, false}
use tiny_lsm_tree.Common.{
  List, [], ◌∷◌, ◌++◌, Bytes, ltb, leb, ◌==◌, ◌&&◌, ◌||◌, if◌then◌else◌, get_elem?,
}
use tiny_lsm_tree.Common.Int.{ℤ, pos, negsuc}
pub use tiny_lsm_tree.Common.Result.{Result, ok, throws, fault, ◌>>=◌}

abbrev pub Reply : Type 0
Reply = Result Bytes

-- `args[i]`
unfoldable pub arg : List Bytes → ℕ → Reply
arg args i = elim (get_elem? args i) [ none ↦ fault | some a ↦ ok a ]

-- A text with the end of line of the protocol.
abbrev pub line : Bytes → Bytes
line s = s ++ 13 ∷ 10 ∷ []

-- `std::to_string`; the fuel is above the number of digits.
unfoldable pub decimal : ℕ → ℕ → Bytes
decimal zero n = []
decimal (suc fuel) n =
    let rest = decimal fuel (n / 10) in
    if ltb n 10 then (n + 48) ∷ [] else rest ++ (n % 10 + 48) ∷ []

unfoldable pub to_string : ℕ → Bytes
unfolding decimal
to_string n = decimal (suc n) n

-- The white space that `std::stoi` skips.
unfoldable pub skip_space : Bytes → Bytes
skip_space [] = []
skip_space (c ∷ cs) =
    let rest = skip_space cs in if c == 32 || (leb 9 c && leb c 13) then rest else c ∷ cs

-- The digits at the front, as a number behind `acc`; the Boolean says whether there was one.
unfoldable pub read_digits : Bool → ℕ → Bytes → Bool × ℕ
read_digits seen acc [] = (seen, acc)
read_digits seen acc (c ∷ cs) =
    let more = read_digits true (acc * 10 + (c - 48)) cs in
    if leb 48 c && leb c 57 then more else (seen, acc)

unfoldable pub to_int : Bool → Bool × ℕ → Result ℤ
to_int negative (false, n) = throws
to_int false (true, n) = if ltb n (2 ^ 31) then ok (pos n) else throws
to_int true (true, n) =
    if n == 0 then ok (pos 0) else if leb n (2 ^ 31) then ok (negsuc (n - 1)) else throws

unfoldable pub read_signed : Bytes → Result ℤ
unfolding read_digits to_int
read_signed [] = throws
read_signed (c ∷ cs) =
    if c == b'-'
    then to_int true (read_digits false 0 cs)
    else if c == b'+'
    then to_int false (read_digits false 0 cs)
    else to_int false (read_digits false 0 (c ∷ cs))

-- `std::stoi`: white space, a sign, digits; it throws with no digit and out of the range of `int`.
unfoldable pub stoi : Bytes → Result ℤ
unfolding skip_space read_signed
stoi s = read_signed (skip_space s)
