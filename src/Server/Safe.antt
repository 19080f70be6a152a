-- ===== src/Server/Safe.antt =====
-- What it means that a command of the server (server/src/handler.cpp) reads none of its arguments behind
-- their end, and the steps that keep it.
use tiny_lsm_tree.Common.{ℕ, zero, suc, ◌<◌, ◌≡◌, refl, Bool, true, false, List, [], ◌∷◌}
use tiny_lsm_tree.Common.{arith, ◌^◌, leb, Bytes, length, ltb, ◌==◌, if◌then◌else◌}
use tiny_lsm_tree.Redis.Reply.{
  Reply, Result, ok, throws, ◌>>=◌, arg, stoi, skip_space, read_signed, read_digits, to_int,
}

-- A command ends with a reply or an exception, never with a read behind its arguments.
pub data Safe {ℓ} {A : Type ℓ} : Result A → Type ℓ where
  replies : (a : A) → Safe (ok a)
  raises : Safe throws

either-Safe {ℓ} :
    {A : Type ℓ} (b : Bool) (r s : Result A) → Safe r → Safe s → Safe (if b then r else s)
either-Safe true r s h k = h
either-Safe false r s h k = k

absurd : (i : ℕ) → i < 0 → ⊥
absurd i h = omega arith

pub arg-Safe : (args : List Bytes) (i : ℕ) → i < length args → Safe (arg args i)
unfolding arg
arg-Safe [] i h = elim (absurd i h) [ ]
arg-Safe (x ∷ xs) zero h = replies x
arg-Safe (x ∷ xs) (suc i) h = arg-Safe xs i (omega arith)

pub bind-Safe {ℓ κ} :
    {A : Type ℓ} {B : Type κ} (r : Result A) (f : A → Result B)
    → Safe r
    → ((a : A) → Safe (f a))
    → Safe (r >>= f)
bind-Safe _ f (replies a) k = k a
bind-Safe _ f raises k = raises

to_int-Safe : (negative : Bool) (d : Bool × ℕ) → Safe (to_int negative d)
unfolding to_int
to_int-Safe negative (false, n) = raises
to_int-Safe false (true, n) = either-Safe (ltb n (2 ^ 31)) _ _ (replies _) raises
to_int-Safe true (true, n) =
    either-Safe (n == 0) _ _ (replies _) (either-Safe (leb n (2 ^ 31)) _ _ (replies _) raises)

read_signed-Safe : (s : Bytes) → Safe (read_signed s)
unfolding read_signed
read_signed-Safe [] = raises
read_signed-Safe (c ∷ cs) =
    either-Safe (c == b'-') _ _ (to_int-Safe true (read_digits false 0 cs)) (
      either-Safe (c == b'+') _ _ (to_int-Safe false (read_digits false 0 cs))
        (to_int-Safe false (read_digits false 0 (c ∷ cs))))

pub stoi-Safe : (s : Bytes) → Safe (stoi s)
unfolding stoi
stoi-Safe s = read_signed-Safe (skip_space s)

-- A handler answers with its error, or its guard gave way to the command.
pub guarded-Safe :
    (b : Bool) (s : Bytes) (r : Reply) → (b ≡ false → Safe r) → Safe (if b then ok s else r)
guarded-Safe true s r h = replies s
guarded-Safe false s r h = h refl

module _ (args : List Bytes) where
  pub reads_one : (f : Bytes → Bytes) → 1 < length args → Safe (arg args 1 >>= (λ a. ok (f a)))
  reads_one f h = bind-Safe (arg args 1) _ (arg-Safe args 1 h) (λ a. replies _)

  pub reads_two :
      (f : Bytes → Bytes → Bytes)
      → 2 < length args
      → Safe (arg args 1 >>= (λ a. arg args 2 >>= (λ b. ok (f a b))))
  reads_two f h =
      bind-Safe (arg args 1) _ (arg-Safe args 1 (omega arith))
        (λ a. bind-Safe (arg args 2) _ (arg-Safe args 2 h) (λ b. replies _))

  pub reads_three :
      (f : Bytes → Bytes → Bytes → Bytes)
      → 3 < length args
      → Safe (arg args 1 >>= (λ a. arg args 2 >>= (λ b. arg args 3 >>= (λ c. ok (f a b c)))))
  reads_three f h = bind-Safe (arg args 1) _ (arg-Safe args 1 (omega arith)) (λ a.
      bind-Safe (arg args 2) _ (arg-Safe args 2 (omega arith))
        (λ b. bind-Safe (arg args 3) _ (arg-Safe args 3 h) (λ c. replies _)))
