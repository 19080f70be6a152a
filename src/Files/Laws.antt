-- ===== src/Files/Laws.antt =====
-- What FileObj (src/utils/files.cpp) answers for what was written through it.
use tiny_lsm_tree.Common.{
  ℕ, ◌+◌, ◌-◌, ◌%◌, ◌^◌, ◌≤◌, ◌<◌, ◌≡◌, refl, ap, inl, inr, Bool, true, false, ◌∷◌,
}
use tiny_lsm_tree.Common.{
  arith, Bytes, Bool-cases, length, ltb, leb, ◌==◌, ◌&&◌, ◌||◌, if◌then◌else◌,
}
use tiny_lsm_tree.Common.Result.{Result, ok, throws}
use tiny_lsm_tree.Files.Stream.{StdFile, usable, slice, put_bytes, set_fail, offset_end}
use tiny_lsm_tree.Files.Stream
use tiny_lsm_tree.Files.Object.{FileObj, read_to_slice, write, append, size}
use tiny_lsm_tree.Files.Slices.{slice-put_bytes, slice-put_bytes_before, length-put_bytes}

ltb-true : (a b : ℕ) → a < b → ltb a b ≡ true
ltb-true a b h = ground arith

ltb-false : (a b : ℕ) → b ≤ a → ltb a b ≡ false
ltb-false a b h = ground arith

leb-true : (a b : ℕ) → a ≤ b → leb a b ≡ true
leb-true a b h = ground arith

leb-false : (a b : ℕ) → b < a → leb a b ≡ false
leb-false a b h = ground arith

or_true : (b : Bool) → (b || true) ≡ true
or_true true = refl
or_true false = refl

-- A stream that works reads what stands within its bounds.
stream_reads :
    (f : StdFile) (o n : ℕ)
    → usable f ≡ true
    → length f.contents < 2 ^ 63
    → o + n ≤ length f.contents
    → Stream.read f o n ≡ (f, ok (slice f.contents o n))
unfolding Stream.read
stream_reads f o n u small h =
    rw
      (
        leb-false (2 ^ 63) n (omega arith),
        u,
        ltb-true o (2 ^ 63) (omega arith),
        leb-true (o + n) (length f.contents) h,
        or_true (n == 0),
      )
      refl

read_in_bounds :
    (f : FileObj) (o n : ℕ)
    → usable f.m_file ≡ true
    → length f.m_file.contents < 2 ^ 63
    → o + n ≤ length f.m_file.contents
    → read_to_slice f o n ≡ (f, ok (slice f.m_file.contents o n))
unfolding read_to_slice size Stream.size
read_in_bounds f o n u small h =
    rw
      (
        u,
        stream_reads f.m_file o n u small h,
        ltb-false (length f.m_file.contents) ((o + n) % 2 ^ 64) (omega arith),
      )
      refl

-- The stream after a write within the range of its offsets.
stream_writes :
    (f : StdFile) (offset : ℕ) (b : ℕ) (bs : Bytes)
    → usable f ≡ true
    → offset < 2 ^ 63
    → (Stream.write f offset (b ∷ bs)).0
      ≡ record f { contents = put_bytes f.contents offset (b ∷ bs) }
unfolding Stream.write
stream_writes f offset b bs u h = rw (u, ltb-true offset (2 ^ 63) h) refl

-- One or more bytes that a usable file of less than 2^63 bytes was given at an offset are read
-- back from that offset, if they end below 2^63.
pub write-read_to_slice :
    (f : FileObj) (offset : ℕ) (b : ℕ) (bs : Bytes)
    → usable f.m_file ≡ true
    → length f.m_file.contents < 2 ^ 63
    → offset + length (b ∷ bs) < 2 ^ 63
    → (read_to_slice (write f offset (b ∷ bs)).0 offset (length (b ∷ bs))).1 ≡ ok (b ∷ bs)
unfolding write
write-read_to_slice f offset b bs u small h =
    rw
      (
        stream_writes f.m_file offset b bs u (omega arith),
        read_in_bounds
            (record f {
              m_file = record f.m_file { contents = put_bytes f.m_file.contents offset (b ∷ bs) };
            })
            offset (length (b ∷ bs)) u
            (omega (arith, length-put_bytes f.m_file.contents offset (b ∷ bs)))
            (omega (arith, length-put_bytes f.m_file.contents offset (b ∷ bs))),
        slice-put_bytes f.m_file.contents offset (b ∷ bs),
      )
      refl

-- The file behind an append.
abbrev grown : FileObj → Bytes → FileObj
grown f buf = record {
  m_file = record f.m_file {
    contents = put_bytes f.m_file.contents (length f.m_file.contents) buf;
  };
  m_size = (f.m_size + length buf) % 2 ^ 64;
}

size_lem : (f : FileObj) → usable f.m_file ≡ true → size f ≡ (f, length f.m_file.contents)
unfolding size Stream.size
size_lem f u = rw u refl

append_lem :
    (f : FileObj) (b : ℕ) (bs : Bytes)
    → usable f.m_file ≡ true
    → length f.m_file.contents < 2 ^ 63
    → append f (b ∷ bs) ≡ (grown f (b ∷ bs), true)
unfolding append Stream.write size Stream.size
append_lem f b bs u h = rw (u, ltb-true (length f.m_file.contents) (2 ^ 63) h, u) refl

-- A usable file that one or more bytes were appended to, still under 2^63 bytes long, gives those
-- bytes at its old end, gives for each range below the old end what it gave before, and has grown
-- by what was appended.
pub append-read_to_slice :
    (f : FileObj) (b : ℕ) (bs : Bytes) (o n : ℕ)
    → usable f.m_file ≡ true
    → length f.m_file.contents + length (b ∷ bs) < 2 ^ 63
    → o + n ≤ length f.m_file.contents
    → ((read_to_slice (append f (b ∷ bs)).0 (size f).1 (length (b ∷ bs))).1 ≡ ok (b ∷ bs))
      × ((read_to_slice (append f (b ∷ bs)).0 o n).1 ≡ (read_to_slice f o n).1)
      × ((size (append f (b ∷ bs)).0).1 ≡ (size f).1 + length (b ∷ bs))
append-read_to_slice f b bs o n u small h =
    let long = length-put_bytes f.m_file.contents (length f.m_file.contents) (b ∷ bs) in
    let g = grown f (b ∷ bs) in
    rw
      (
        append_lem f b bs u (omega arith),
        size_lem f u,
        size_lem g u,
        read_in_bounds g (length f.m_file.contents) (length (b ∷ bs)) u (omega arith) (omega arith),
        read_in_bounds g o n u (omega arith) (omega arith),
        read_in_bounds f o n u (omega arith) h,
      )
      (
        ap ok (slice-put_bytes f.m_file.contents (length f.m_file.contents) (b ∷ bs)),
        ap ok
            (slice-put_bytes_before f.m_file.contents (length f.m_file.contents) (b ∷ bs) o n h h),
        omega arith,
      )

and_false : (b : Bool) → (b && false) ≡ false
and_false true = refl
and_false false = refl

-- Neither a read nor its bounds check brings a stream back that failed.
stream_fails : (f : StdFile) (o n : ℕ) → usable f ≡ false → (Stream.read f o n).1 ≡ throws
unfolding Stream.read
stream_fails f o n u = elim (Bool-cases (leb offset_end n)) [
  | inl y ↦ rw y refl
  | inr x ↦ rw (x, u) refl
]

either_throws :
    (b : Bool) (p q : FileObj × Result Bytes)
    → p.1 ≡ throws
    → q.1 ≡ throws
    → (if◌then◌else◌ {A = FileObj × Result Bytes} b p q).1 ≡ throws
either_throws true p q h k = h
either_throws false p q h k = k

-- No read of a file succeeds whose stream has failed.
pub failed_throws :
    (f : FileObj) (o n : ℕ) → usable f.m_file ≡ false → (read_to_slice f o n).1 ≡ throws
unfolding read_to_slice size Stream.size
failed_throws f o n u = rw u (
    either_throws (ltb (2 ^ 64 - 1) ((o + n) % 2 ^ 64)) _ _ refl
      (stream_fails (set_fail f.m_file) o n (and_false f.m_file.is_open)))

stream_breaks :
    (f : StdFile) (o n : ℕ) → n < 2 ^ 63 → 2 ^ 63 ≤ o → Stream.read f o n ≡ (set_fail f, throws)
unfolding Stream.read
stream_breaks f o n h k =
    rw (leb-false (2 ^ 63) n h, ltb-false o (2 ^ 63) k, and_false (usable f)) refl

read_breaks :
    (f : FileObj) (o n : ℕ)
    → usable f.m_file ≡ true
    → n < 2 ^ 63
    → 2 ^ 64 ≤ o + n
    → (o + n) % 2 ^ 64 ≤ length f.m_file.contents
    → read_to_slice f o n ≡ (record f { m_file = set_fail f.m_file }, throws)
unfolding read_to_slice size Stream.size
read_breaks f o n u h k w =
    rw
      (
        u,
        ltb-false (length f.m_file.contents) ((o + n) % 2 ^ 64) w,
        stream_breaks f.m_file o n h (omega arith),
      )
      refl

-- The bounds check of `read_to_slice` adds in 64 bits: when, for a usable file, the offset and a
-- length below 2^63 add up past them to a number within the file, the check passes, the stream
-- fails, and no later read of the file succeeds, in bounds or not.
pub wrapped_read_breaks_file :
    (f : FileObj) (o n : ℕ) (later many : ℕ)
    → usable f.m_file ≡ true
    → n < 2 ^ 63
    → 2 ^ 64 ≤ o + n
    → (o + n) % 2 ^ 64 ≤ length f.m_file.contents
    → ((read_to_slice f o n).1 ≡ throws)
      × ((read_to_slice (read_to_slice f o n).0 later many).1 ≡ throws)
wrapped_read_breaks_file f o n later many u h k w =
    rw (read_breaks f o n u h k w) (refl, failed_throws _ later many (and_false f.m_file.is_open))
