-- ===== src/Server/Session.antt =====
-- RedisSession of server/src/server.cpp: what one call of the read handler in `do_read` takes out of
-- the buffer, and what it answers. The socket, which fills the buffer and takes the answer, is not
-- modelled.
use tiny_lsm_tree.Common.{
  ℕ, zero, suc, ◌+◌, ◌*◌, ◌^◌, ◌||◌, not, Bytes, bytes, bytes_eq, [], ◌∷◌, ◌++◌,
}
use tiny_lsm_tree.Common.{length, leb, ltb, ◌==◌, if◌then◌else◌}
use tiny_lsm_tree.Common.Int.{ℤ, pos, negsuc}
use tiny_lsm_tree.Redis.Reply.{Result, ok, throws, fault, line, stoi}

-- `std::getline`: the bytes up to the first '\n', which is taken but not kept, and the rest.
unfoldable pub get_line : Bytes → Bytes × Bytes
get_line [] = ([], [])
get_line (c ∷ cs) =
    let (front, rest) = get_line cs in if c == 10 then ([], cs) else (c ∷ front, rest)

-- What the handler comes to before it writes: an answer of its own, or a request for `handleRequest`.
pub data Received : Type 0 where
  answer request : Bytes → Received

-- `for (int i = 0; i < numElements * 2; ++i)`; `count` is the number of rounds left.
unfoldable pub read_lines : ℕ → Bytes → Bytes → Received × Bytes
unfolding get_line
read_lines zero full_request buffer = (request full_request, buffer)
read_lines (suc count) full_request [] =
    (answer (line (bytes "-ERR Protocol error: partial request received")), [])
read_lines (suc count) full_request (c ∷ cs) =
    let (l, rest) = get_line (c ∷ cs) in read_lines count (full_request ++ line l) rest

-- The rounds of the loop for the number that the first line gives; a product above the range of
-- `int` is undefined.
unfoldable pub read_elements : Result ℤ → Bytes → Bytes → Result (Received × Bytes)
unfolding read_lines
read_elements throws full_request buffer =
    ok (answer (line (bytes "-ERR Protocol error: invalid number of elements")), buffer)
read_elements fault full_request buffer = fault
read_elements (ok (negsuc n)) full_request buffer =
    if leb (n + 1) (2 ^ 30) then ok (request full_request, buffer) else fault
read_elements (ok (pos n)) full_request buffer =
    if ltb n (2 ^ 30) then ok (read_lines (n * 2) full_request buffer) else fault

-- The behaviour on the first line, with the '\r\n' added that `getline` is thought to have removed.
unfoldable pub read_request : Bytes → Bytes → Result (Received × Bytes)
unfolding read_elements
read_request [] buffer = ok (answer (line (bytes "-ERR Protocol error: expected '*'")), buffer)
read_request (c ∷ cs) buffer =
    if bytes_eq (c ∷ cs) (line (bytes "PING"))
    then ok (answer (line (bytes "+PONG")), buffer)
    else if ltb (length (c ∷ cs)) 2 || not (c == b'*')
    then ok (answer (line (bytes "-ERR Protocol error: expected '*'")), buffer)
    else read_elements (stoi cs) (c ∷ cs) buffer

unfoldable pub receive : Bytes → Result (Received × Bytes)
unfolding get_line read_request
receive buffer = let (l, rest) = get_line buffer in read_request (line l) rest

-- `handleRequest`, which is still to be written
unfoldable pub handle_request : Bytes → Bytes
handle_request full_request = []

unfoldable pub respond : Received → Bytes
unfolding handle_request
respond (answer s) = s
respond (request s) = handle_request s
