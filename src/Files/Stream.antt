-- ===== src/Files/Stream.antt =====
-- StdFile (src/utils/std_file.cpp), on what `std::fstream` keeps: whether it is open, its fail bit,
-- and the bytes of the file. A stream with the fail bit set neither moves, reads nor writes.
use tiny_lsm_tree.Common.{
  ℕ, zero, suc, ◌+◌, ◌-◌, ◌^◌, Bool, true, false, not, ◌&&◌, ◌||◌, [], ◌∷◌, ◌++◌,
}
use tiny_lsm_tree.Common.{Bytes, length, take, drop, ltb, leb, ◌==◌, if◌then◌else◌}
use tiny_lsm_tree.Common.Result.{Result, ok, throws}

pub record StdFile : Type 0 where
  pub filename : Bytes
  pub is_open : Bool
  pub failed : Bool
  pub contents : Bytes

abbrev pub new_file : StdFile
new_file = record { filename = []; is_open = false; failed = false; contents = [] }

abbrev pub usable : StdFile → Bool
usable f = f.is_open && not f.failed

abbrev pub set_fail : StdFile → StdFile
set_fail f = record f { failed = true }

-- Offsets of a stream are signed: at this one they turn negative, which no stream moves to.
abbrev pub offset_end : ℕ
offset_end = 2 ^ 63

unfoldable pub zeros : ℕ → Bytes
zeros zero = []
zeros (suc n) = 0 ∷ zeros n

-- Bytes written at an offset; a gap behind the old end reads as zeros.
unfoldable pub put_bytes : Bytes → ℕ → Bytes → Bytes
unfolding zeros
put_bytes old offset new =
    take offset (old ++ zeros (offset - length old)) ++ (new ++ drop (offset + length new) old)

abbrev pub slice : Bytes → ℕ → ℕ → Bytes
slice all offset n = take n (drop offset all)

-- `open`, named apart from a word of this language: `found` is what the file holds, and `permitted` whether the system opens it. A stream that
-- is open already fails, and stays open.
unfoldable pub open_file : Bool → Bytes → StdFile → Bytes → Bool → StdFile × Bool
open_file permitted found f filename create =
    if f.is_open
    then (record f { filename = filename; failed = true }, true)
    else if permitted
    then (
      record {
        filename = filename;
        is_open = true;
        failed = false;
        contents = if create then [] else found;
      },
      true,
    )
    else (record f { filename = filename; failed = true }, false)

-- `write`, which answers `true` whatever the stream did.
unfoldable pub write : StdFile → ℕ → Bytes → StdFile × Bool
unfolding put_bytes
write f offset [] = (if usable f && ltb offset offset_end then f else set_fail f, true)
write f offset (b ∷ bs) = (
  if usable f && ltb offset offset_end
      then record f { contents = put_bytes f.contents offset (b ∷ bs) }
      else set_fail f,
  true,
)

-- `size`: `tellg` is -1 on a stream that failed.
unfoldable pub size : StdFile → StdFile × ℕ
size f = if usable f then (f, length f.contents) else (set_fail f, 2 ^ 64 - 1)

-- `read`; a buffer of more than `offset_end - 1` bytes is refused before the stream is touched.
unfoldable pub read : StdFile → ℕ → ℕ → StdFile × Result Bytes
read f offset n =
    if leb offset_end n
    then (f, throws)
    else if usable f && ltb offset offset_end && (n == 0 || leb (offset + n) (length f.contents))
    then (f, ok (slice f.contents offset n))
    else (set_fail f, throws)

unfoldable pub sync : StdFile → Bool
sync f = f.is_open && not f.failed

unfoldable pub close : StdFile → StdFile
close f = if f.is_open then record f { is_open = false } else f

unfoldable pub create : Bool → Bytes → StdFile → Bytes → Bytes → StdFile × Result Bool
unfolding open_file write
create permitted found f filename buf =
    let (opened, done) = open_file permitted found f filename true in
    let written = (write opened 0 buf).0 in
    if not done
    then (opened, throws)
    else if length buf == 0
    then (opened, ok true)
    else (written, ok true)
