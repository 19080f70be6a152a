-- ===== src/Server/Tests.antt =====
-- The theorems on the handlers of server/src/handler.cpp at concrete requests.
use tiny_lsm_tree.Common.{◌≡◌, ◌≢◌, ◌↔◌, refl, bytes, [], ◌∷◌}
use tiny_lsm_tree.Common.{ℕ, arith, ◌++◌, bytes_eq}
use tiny_lsm_tree.Common.Int.{pos}
use tiny_lsm_tree.Redis.Reply.{ok, line, arg, stoi, skip_space, read_signed, read_digits, to_int}
use tiny_lsm_tree.Server.Session.{receive, answer, request}
use tiny_lsm_tree.Server.Framing.{sent, gathered, receive-sent, receive_inline}
use tiny_lsm_tree.Redis.Commands
use tiny_lsm_tree.Server.Ops.{Ops, string_to_ops}
use tiny_lsm_tree.Server.Spelling.{Spells}
use tiny_lsm_tree.Server.Handlers.{llen_handler}
use tiny_lsm_tree.Server.Bounds.{Answers, handler_of, handlers-Safe}
use tiny_lsm_tree.Server.Names.{name_of, string_to_ops-name_of}

handlers-Safe_example : Answers (handler_of Ops.get) (bytes "get" ∷ bytes "a" ∷ [])
handlers-Safe_example = handlers-Safe Ops.get (bytes "get" ∷ bytes "a" ∷ [])

hget-known : Ops.hget ≢ Ops.unknown
hget-known e = cc e

string_to_ops-name_of_example :
    (string_to_ops (bytes "hGeT") ≡ Ops.hget) ↔ Spells (bytes "hGeT") (name_of Ops.hget)
string_to_ops-name_of_example = string_to_ops-name_of (bytes "hGeT") Ops.hget hget-known

-- `LLEN` with its one key is refused; with an argument more it is answered.
llen_counts_three :
    (llen_handler (bytes "LLEN" ∷ bytes "a" ∷ [])
      ≡ ok (line (bytes "-ERR wrong number of arguments for 'LLEN' command")))
    × (llen_handler (bytes "LLEN" ∷ bytes "a" ∷ bytes "b" ∷ [])
        ≡ Commands.llen (bytes "LLEN" ∷ bytes "a" ∷ []))
unfolding llen_handler Commands.llen arg
llen_counts_three = (refl, refl)

differ : (c : ℕ) → c ≢ 10 → c ≢ 10
differ c h = h

one_element : stoi (line (b'1' ∷ 13 ∷ [])) ≡ ok (pos 1)
unfolding stoi skip_space read_signed read_digits to_int
one_element = refl

receive-sent_example :
    receive (
      b'*' ∷ (b'1' ∷ 13 ∷ [])
      ++ 10 ∷ (sent ((bytes "$4" ++ 13 ∷ []) ∷ (bytes "save" ++ 13 ∷ []) ∷ []) ++ bytes "*2"))
    ≡ ok (
      request (
          b'*' ∷ line (b'1' ∷ 13 ∷ [])
          ++ gathered ((bytes "$4" ++ 13 ∷ []) ∷ (bytes "save" ++ 13 ∷ []) ∷ [])),
      bytes "*2",
    )
receive-sent_example =
    receive-sent (b'1' ∷ 13 ∷ []) 1 ((bytes "$4" ++ 13 ∷ []) ∷ (bytes "save" ++ 13 ∷ []) ∷ [])
      (bytes "*2") (differ b'1' (omega arith), (differ 13 (omega arith), tt)) one_element
      (omega arith) refl
      (
        (differ b'$' (omega arith), (differ b'4' (omega arith), (differ 13 (omega arith), tt))),
        (
          (
            differ b's' (omega arith),
            (
              differ b'a' (omega arith),
              (
                differ b'v' (omega arith),
                (differ b'e' (omega arith), (differ 13 (omega arith), tt)),
              ),
            ),
          ),
          tt,
        ),
      )

-- `PING` with the line end of the protocol.
receive_inline_example :
    receive ((bytes "PING" ++ 13 ∷ []) ++ 10 ∷ bytes "*1")
    ≡ ok (answer (line (bytes "-ERR Protocol error: expected '*'")), bytes "*1")
unfolding bytes_eq
receive_inline_example =
    receive_inline (bytes "PING" ++ 13 ∷ []) (bytes "*1")
      (
        differ b'P' (omega arith),
        (
          differ b'I' (omega arith),
          (differ b'N' (omega arith), (differ b'G' (omega arith), (differ 13 (omega arith), tt))),
        ),
      )
      (λ e. absurd (omega arith))
