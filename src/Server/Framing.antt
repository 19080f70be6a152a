-- ===== src/Server/Framing.antt =====
-- What RedisSession of server/src/server.cpp makes of the lines of a request.
use tiny_lsm_tree.Common.{
  ℕ, suc, ◌*◌, ◌^◌, ◌<◌, ◌≢◌, ◌≡◌, refl, ap, sym, ◌∙◌, arith, Bytes, bytes, bytes_eq, List, [], ◌∷◌,
  ◌++◌, All,
}
use tiny_lsm_tree.Common.{inl, inr, Bool-cases, bytes_eq→eq, bytes_eq_refl, if◌then◌else◌}
use tiny_lsm_tree.Common.{length, length-append, append-nil, append_assoc, true, false, ltb, ◌==◌}
use tiny_lsm_tree.Common.Int.{pos}
use tiny_lsm_tree.Redis.Reply.{ok, line, stoi}
use tiny_lsm_tree.Server.Session.{
  get_line, answer, request, read_lines, read_elements, read_request, receive,
}

-- No line break stands in the bytes.
abbrev pub OneLine : Bytes → Type 0
OneLine l = All (λ c. c ≢ 10) l

-- The lines as a client sends them, each with its line break.
unfoldable pub sent : List Bytes → Bytes
sent [] = []
sent (l ∷ ls) = l ++ 10 ∷ sent ls

-- The lines as they are gathered for `handleRequest`.
unfoldable pub gathered : List Bytes → Bytes
gathered [] = []
gathered (l ∷ ls) = line l ++ gathered ls

get_line-sent : (l rest : Bytes) → OneLine l → get_line (l ++ 10 ∷ rest) ≡ (l, rest)
unfolding get_line
get_line-sent [] rest h = refl
get_line-sent (c ∷ cs) rest h = rw (get_line-sent cs rest h.1, other c h.0) refl
  where
    other : (c : ℕ) → c ≢ 10 → (c == 10) ≡ false
    other c h = ground arith

read_line-sent :
    (count : ℕ) (full l rest : Bytes)
    → OneLine l
    → read_lines (suc count) full (l ++ 10 ∷ rest) ≡ read_lines count (full ++ line l) rest
unfolding read_lines get_line
read_line-sent count full [] rest h = refl
read_line-sent count full (c ∷ cs) rest h =
    ap (λ (r : Bytes × Bytes). read_lines count (full ++ line r.0) r.1)
      (get_line-sent (c ∷ cs) rest h)

read_lines-sent :
    (ls : List Bytes) (full rest : Bytes)
    → All OneLine ls
    → read_lines (length ls) full (sent ls ++ rest) ≡ (request (full ++ gathered ls), rest)
unfolding sent gathered read_lines
read_lines-sent [] full rest h = ap (λ (f : Bytes). (request f, rest)) (sym (append-nil full))
read_lines-sent (l ∷ ls) full rest h =
    ap (read_lines (suc (length ls)) full) (append_assoc l (10 ∷ sent ls) rest)
    ∙ read_line-sent (length ls) full l (sent ls ++ rest) h.0
    ∙ read_lines-sent ls (full ++ line l) rest h.1
    ∙ ap (λ (f : Bytes). (request f, rest)) (append_assoc full (line l) (gathered ls))

two_or_more : (header : Bytes) → ltb (length (b'*' ∷ line header)) 2 ≡ false
two_or_more header = ground (arith, length-append header (13 ∷ 10 ∷ []))

below_range : (n : ℕ) → n < 2 ^ 30 → ltb n (2 ^ 30) ≡ true
below_range n h = ground arith

star : (c : ℕ) → c ≡ b'*' → c ≢ 10
star c e h = cc (e, h)

read_request-star :
    (header : Bytes) (n : ℕ) (buffer : Bytes)
    → stoi (line header) ≡ ok (pos n)
    → n < 2 ^ 30
    → read_request (b'*' ∷ line header) buffer ≡ ok (read_lines (n * 2) (b'*' ∷ line header) buffer)
unfolding read_request read_elements bytes_eq
read_request-star header n buffer e small = rw (two_or_more header, e, below_range n small) refl

-- A request whose first line announces half as many elements as lines follow is taken out of the
-- buffer exactly: all its lines are gathered, each with a further line end, and what follows it stays
-- for the next read.
pub receive-sent :
    (header : Bytes) (n : ℕ) (ls : List Bytes) (rest : Bytes)
    → OneLine header
    → stoi (line header) ≡ ok (pos n)
    → n < 2 ^ 30
    → length ls ≡ n * 2
    → All OneLine ls
    → receive (b'*' ∷ header ++ 10 ∷ (sent ls ++ rest))
      ≡ ok (request (b'*' ∷ line header ++ gathered ls), rest)
unfolding receive
receive-sent header n ls rest o e small k h =
    ap (λ (r : Bytes × Bytes). read_request (line r.0) r.1)
      (get_line-sent (b'*' ∷ header) (sent ls ++ rest) (star b'*' refl, o))
    ∙ read_request-star header n (sent ls ++ rest) e small
    ∙ ap ok (
        ap (λ (m : ℕ). read_lines m (b'*' ∷ line header) (sent ls ++ rest)) (sym k)
        ∙ read_lines-sent ls (b'*' ∷ line header) rest h)

append_cancel : (a b z : Bytes) → a ++ z ≡ b ++ z → a ≡ b
append_cancel [] [] z e = refl
append_cancel [] (y ∷ b) z e = absurd (omega (arith, ap length e, length-append b z))
append_cancel (x ∷ a) [] z e = absurd (omega (arith, ap length e, length-append a z))
append_cancel (x ∷ a) (y ∷ b) z e =
    let heads : x ≡ y = cc e in
    let tails : a ++ z ≡ b ++ z = cc e in rw (heads, append_cancel a b z tails) refl

-- The same bytes behind both sides make no difference.
bytes_eq-append : (a b z : Bytes) → bytes_eq (a ++ z) (b ++ z) ≡ bytes_eq a b
bytes_eq-append a b z = elim (Bool-cases (bytes_eq a b)) [
  | inl y ↦ let e = bytes_eq→eq a b y in rw (y, e) (bytes_eq_refl (b ++ z))
  | inr n ↦ elim (Bool-cases (bytes_eq (a ++ z) (b ++ z))) [
    | inr m ↦ m ∙ sym n
    | inl m ↦
        let e = append_cancel a b z (bytes_eq→eq (a ++ z) (b ++ z) m) in
        cc (n, ap (λ (x : Bytes). bytes_eq x b) e, bytes_eq_refl b)
  ]
]

-- The line does not begin as a request does.
abbrev pub IsInline : Bytes → Type 0
IsInline [] = Unit
IsInline (c ∷ cs) = c ≢ b'*'

read_request-inline :
    (l rest : Bytes)
    → IsInline l
    → read_request (line l) rest
      ≡ ok (
        answer (
            if bytes_eq l (bytes "PING")
            then line (bytes "+PONG")
            else line (bytes "-ERR Protocol error: expected '*'")),
        rest,
      )
unfolding read_request
read_request-inline [] rest h = unfold bytes_eq in refl
read_request-inline (c ∷ cs) rest h =
    let other : (c == b'*') ≡ false = ground arith in
    let same : bytes_eq (line (c ∷ cs)) (line (bytes "PING")) ≡ bytes_eq (c ∷ cs) (bytes "PING") =
      bytes_eq-append (c ∷ cs) (bytes "PING") (13 ∷ 10 ∷ []) in
    rw (same, other) (ground arith)

-- A line that does not begin with '*' is answered with `+PONG` if it is `PING` ended by '\n' alone,
-- and with a protocol error otherwise, `PING` with the line end of the protocol among them, whose
-- '\r' stays in the line; what follows the line stays in the buffer.
pub receive_inline :
    (l rest : Bytes)
    → OneLine l
    → IsInline l
    → receive (l ++ 10 ∷ rest)
      ≡ ok (
        answer (
            if bytes_eq l (bytes "PING")
            then line (bytes "+PONG")
            else line (bytes "-ERR Protocol error: expected '*'")),
        rest,
      )
unfolding receive
receive_inline l rest o h =
    ap (λ (r : Bytes × Bytes). read_request (line r.0) r.1) (get_line-sent l rest o)
    ∙ read_request-inline l rest h
