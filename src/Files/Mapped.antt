-- ===== src/Files/Mapped.antt =====
-- MmapFile (src/utils/mmap_file.cpp, include/utils/mmap_file.h). What the system answers to the calls
-- is a parameter; a mapping shows the bytes of the file, which are kept here as `contents`.
use tiny_lsm_tree.Common.{ℕ, ◌+◌, ◌-◌, ◌%◌, ◌^◌, Bool, true, false, not, ◌&&◌, [], ◌++◌}
use tiny_lsm_tree.Common.{Bytes, length, take, ltb, leb, ◌==◌, if◌then◌else◌}
use tiny_lsm_tree.Common.Result.{Result, ok, fault}
use tiny_lsm_tree.Files.Stream.{put_bytes, zeros, slice}

-- `mapped_data_`: a null pointer, `MAP_FAILED`, or the address of a mapping.
pub data Mapping : Type 0 where
  unmapped map_failed mapped : Mapping

-- `fd_is_open` is whether `fd_` is not -1.
pub record MmapFile : Type 0 where
  pub fd_is_open : Bool
  pub mapped_data : Mapping
  pub file_size : ℕ
  pub filename : Bytes
  pub contents : Bytes

-- What the system does: whether `open`, `fstat`, `ftruncate`, `mmap` and `msync` succeed, and what the
-- file that is opened holds.
pub record System : Type 0 where
  pub opens : Bool
  pub stats : Bool
  pub truncates : Bool
  pub maps : Bool
  pub syncs : Bool
  pub found : Bytes

abbrev pub new_file : MmapFile
new_file = record {
  fd_is_open = false;
  mapped_data = unmapped;
  file_size = 0;
  filename = [];
  contents = [];
}

abbrev is_mapped : Mapping → Bool
is_mapped mapped = true
is_mapped other = false

unfoldable pub close : MmapFile → MmapFile
close f = record f {
  mapped_data = if is_mapped f.mapped_data then unmapped else f.mapped_data;
  fd_is_open = false;
  file_size = 0;
}

-- `open`, named apart from a word of this language
unfoldable pub open_file : System → MmapFile → Bytes → Bool → MmapFile × Bool
unfolding close
open_file sys f filename create =
    let named = record f { filename = filename; fd_is_open = sys.opens } in
    let size = length sys.found in
    let sized = record named { contents = sys.found; file_size = size } in
    if not sys.opens
    then (named, false)
    else if not sys.stats
    then (close named, false)
    else if size == 0
    then (sized, true)
    else if sys.maps
    then (record sized { mapped_data = mapped }, true)
    else (close (record sized { mapped_data = map_failed }), false)

-- The file cut or filled up with zeros by `ftruncate`.
unfoldable pub resized : ℕ → Bytes → Bytes
unfolding zeros
resized n bs = take n (bs ++ zeros (n - length bs))

-- A mapping of no bytes fails.
abbrev maps_size : System → ℕ → Bool
maps_size sys n = sys.maps && not (n == 0)

unfoldable pub sync : System → MmapFile → Bool
sync sys f = if is_mapped f.mapped_data then sys.syncs else true

unfoldable pub create_and_map : System → MmapFile → Bytes → ℕ → MmapFile × Bool
unfolding close resized
create_and_map sys f path size =
    let opened = record f { fd_is_open = sys.opens } in
    let sized = record opened { contents = resized size [] } in
    if not sys.opens
    then (opened, false)
    else if not sys.truncates
    then (close (record opened { contents = [] }), false)
    else if maps_size sys size
    then (record sized { mapped_data = mapped; file_size = size }, true)
    else (close (record sized { mapped_data = map_failed }), false)

-- The answer of `sync` is dropped.
unfoldable pub create : System → MmapFile → Bytes → Bytes → MmapFile × Bool
unfolding create_and_map put_bytes
create sys f filename buf =
    let (g, done) = create_and_map sys f filename (length buf) in
    if not done then (g, false) else (record g { contents = put_bytes g.contents 0 buf }, true)

-- `write`: the file is cut to the end of what is written. Where `offset + size` wraps around, the copy
-- goes behind the mapping.
unfoldable pub write : System → MmapFile → ℕ → Bytes → Result (MmapFile × Bool)
unfolding resized put_bytes
write sys f offset bs =
    let new_size = (offset + length bs) % 2 ^ 64 in
    let cut = record f { contents = resized new_size f.contents; file_size = new_size } in
    if not (sys.truncates && f.fd_is_open)
    then ok (f, false)
    else if not (maps_size sys new_size)
    then ok (record cut { mapped_data = unmapped }, false)
    else if ltb new_size (offset + length bs)
    then fault
    else ok (record cut { mapped_data = mapped; contents = put_bytes cut.contents offset bs }, true)

-- `read` copies with no check of the bounds.
unfoldable pub read : MmapFile → ℕ → ℕ → Result Bytes
read f offset n =
    if n == 0
    then ok []
    else if is_mapped f.mapped_data && leb (offset + n) f.file_size
    then ok (slice f.contents offset n)
    else fault

abbrev pub size : MmapFile → ℕ
size f = f.file_size
