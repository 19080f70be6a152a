-- ===== src/Server/Spelling.antt =====
-- toLower of server/src/handler.cpp against the two ways to write a letter.
use tiny_lsm_tree.Common.{ℕ, ◌+◌, ◌≡◌, ◌↔◌, ◌⊎◌, inl, inr, refl, arith, [], ◌∷◌}
use tiny_lsm_tree.Common.{Bool, true, leb, ◌&&◌, Bytes, Bool-cases}
use tiny_lsm_tree.Server.Ops.{lower_char, to_lower}

-- All bytes are small letters.
unfoldable pub all_small : Bytes → Bool
all_small [] = true
all_small (d ∷ ds) = (leb b'a' d && leb d b'z') && all_small ds

-- Two bytes are the same, or the first is the capital of the second: in ASCII those of a letter are
-- 32 apart.
abbrev pub SameLetter : ℕ → ℕ → Type 0
SameLetter c d = (c ≡ d) ⊎ (c + 32 ≡ d)

-- The word is the name, each of whose letters may be small or a capital.
abbrev pub Spells : Bytes → Bytes → Type 0
Spells [] [] = Unit
Spells [] (d ∷ ds) = ⊥
Spells (c ∷ cs) [] = ⊥
Spells (c ∷ cs) (d ∷ ds) = SameLetter c d × Spells cs ds

lower_char-SameLetter :
    (c d : ℕ) → leb b'a' d && leb d b'z' ≡ true → (lower_char c ≡ d) ↔ SameLetter c d
unfolding lower_char
lower_char-SameLetter c d small = (
  (λ e. elim (Bool-cases (leb b'A' c && leb c b'Z')) [
    | inl y ↦ inr (ground arith)
    | inr n ↦ inl (ground arith)
  ]),
  (λ h. elim h [ inl e ↦ ground arith | inr e ↦ ground arith ]),
)

pub to_lower-Spells : (s n : Bytes) → all_small n ≡ true → (to_lower s ≡ n) ↔ Spells s n
unfolding to_lower all_small
to_lower-Spells [] [] small = (λ e. tt, λ h. refl)
to_lower-Spells [] (d ∷ ds) small = (λ e. cc e, λ h. elim h [ ])
to_lower-Spells (c ∷ cs) [] small = (λ e. cc e, λ h. elim h [ ])
to_lower-Spells (c ∷ cs) (d ∷ ds) small =
    let first : leb b'a' d && leb d b'z' ≡ true = ground arith in
    let later : all_small ds ≡ true = ground arith in
    let head = lower_char-SameLetter c d first in
    let tail = to_lower-Spells cs ds later in
    (
      (λ e. (head.0 (cc e), tail.0 (cc e))),
      (λ h. (let a = head.1 h.0 in let b = tail.1 h.1 in rw (a, b) refl)),
    )
