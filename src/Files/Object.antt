-- ===== src/Files/Object.antt =====
-- FileObj (src/utils/files.cpp).
use tiny_lsm_tree.Common.{ℕ, ◌+◌, ◌*◌, ◌%◌, ◌^◌, Bool, true, false, not, [], ◌∷◌}
use tiny_lsm_tree.Common.{Bytes, length, ltb, if◌then◌else◌}
use tiny_lsm_tree.Common.Result.{Result, ok, throws, ◌>>=◌}
use tiny_lsm_tree.Files.Stream.{StdFile, new_file}
use tiny_lsm_tree.Files.Stream

pub record FileObj : Type 0 where
  pub m_file : StdFile
  pub m_size : ℕ

-- The constructor leaves `m_size` as it is found in memory.
abbrev pub new_object : ℕ → FileObj
new_object m_size = record { m_file = new_file; m_size = m_size }

unfoldable pub size : FileObj → FileObj × ℕ
unfolding Stream.size
size f = let (file, n) = Stream.size f.m_file in (record f { m_file = file }, n)

unfoldable pub set_size : FileObj → ℕ → FileObj
set_size f n = record f { m_size = n }

unfoldable pub create_and_write : Bool → Bytes → ℕ → Bytes → Bytes → Result FileObj
unfolding Stream.create
create_and_write permitted found m_size path buf =
    let (file, done) = Stream.create permitted found new_file path buf in
    do created ← done; if created then ok (record { m_file = file; m_size = m_size }) else throws

unfoldable pub open_file : Bool → Bytes → ℕ → Bytes → Bool → Result FileObj
unfolding Stream.open_file
open_file permitted found m_size path create =
    let (file, done) = Stream.open_file permitted found new_file path create in
    if not done then throws else ok (record { m_file = file; m_size = m_size })

-- The bounds check adds in `size_t`.
unfoldable pub read_to_slice : FileObj → ℕ → ℕ → FileObj × Result Bytes
unfolding size Stream.read
read_to_slice f offset n =
    let (asked, end) = size f in
    let (file, answer) = Stream.read asked.m_file offset n in
    if ltb end ((offset + n) % 2 ^ 64)
    then (asked, throws)
    else (record asked { m_file = file }, answer)

-- A number in the byte order of the machine, the lowest byte first.
unfoldable pub little_endian : Bytes → ℕ
little_endian [] = 0
little_endian (b ∷ bs) = b + 256 * little_endian bs

-- `read_uint8`, `read_uint16`, `read_uint32` and `read_uint64`, on the number of bytes.
unfoldable pub read_uint : ℕ → FileObj → ℕ → FileObj × Result ℕ
unfolding read_to_slice little_endian
read_uint width f offset =
    let (g, answer) = read_to_slice f offset width in (g, (do bs ← answer; ok (little_endian bs)))

unfoldable pub write : FileObj → ℕ → Bytes → FileObj × Bool
unfolding Stream.write
write f offset buf =
    let (file, done) = Stream.write f.m_file offset buf in (record f { m_file = file }, done)

unfoldable pub append : FileObj → Bytes → FileObj × Bool
unfolding size Stream.write
append f buf =
    let (asked, end) = size f in
    let (file, done) = Stream.write asked.m_file end buf in
    let g = record asked { m_file = file } in
    if not done then (g, false) else (record g { m_size = (g.m_size + length buf) % 2 ^ 64 }, true)

unfoldable pub sync : FileObj → Bool
unfolding Stream.sync
sync f = Stream.sync f.m_file
