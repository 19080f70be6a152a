-- ===== src/Files/MappedLaws.antt =====
-- What is read after a write to a memory-mapped file (src/utils/mmap_file.cpp).
use tiny_lsm_tree.Common.{ℕ, ◌+◌, ◌-◌, ◌%◌, ◌^◌, ◌≤◌, ◌<◌, true, false, ◌∷◌, ◌++◌}
use tiny_lsm_tree.Common.{◌≡◌, refl, ap, ◌∙◌, arith, Bytes, length, length-append, ltb, leb, ◌==◌}
use tiny_lsm_tree.Common.Result.{ok, fault}
use tiny_lsm_tree.Files.Stream.{put_bytes, zeros, slice}
use tiny_lsm_tree.Files.Slices.{
  slice-put_bytes, slice-put_bytes_before, length-put_bytes, length-take, length-zeros, slice-take,
  slice-append,
}
use tiny_lsm_tree.Files.Mapped.{MmapFile, System, mapped, resized, write, read}

length-resized : (n : ℕ) (bs : Bytes) → length (resized n bs) ≡ n
unfolding resized
length-resized n bs =
    length-take n (bs ++ zeros (n - length bs))
      (omega (arith, length-append bs (zeros (n - length bs)), length-zeros (n - length bs)))

slice-resized :
    (m : ℕ) (bs : Bytes) (o n : ℕ)
    → o + n ≤ m
    → o + n ≤ length bs
    → slice (resized m bs) o n ≡ slice bs o n
unfolding resized
slice-resized m bs o n h k =
    slice-take (bs ++ zeros (m - length bs)) m o n h ∙ slice-append bs (zeros (m - length bs)) o n k

-- The file behind a write.
abbrev written : MmapFile → ℕ → Bytes → MmapFile
written f offset bs = record f {
  mapped_data = mapped;
  file_size = offset + length bs;
  contents = put_bytes (resized (offset + length bs) f.contents) offset bs;
}

write_lem :
    (sys : System) (f : MmapFile) (offset b : ℕ) (bs : Bytes)
    → (sys.truncates ≡ true) × (sys.maps ≡ true) × (f.fd_is_open ≡ true)
    → offset + length (b ∷ bs) < 2 ^ 64
    → write sys f offset (b ∷ bs) ≡ ok (written f offset (b ∷ bs), true)
unfolding write
write_lem sys f offset b bs (t, m, o) h =
    let same : (offset + length (b ∷ bs)) % 2 ^ 64 ≡ offset + length (b ∷ bs) = omega (arith, h) in
    let some_bytes : ((offset + length (b ∷ bs)) == 0) ≡ false = ground arith in
    let no_wrap : ltb (offset + length (b ∷ bs)) (offset + length (b ∷ bs)) ≡ false =
      ground arith in
    rw (write, same, t, m, o, some_bytes, no_wrap) refl

read_lem :
    (f : MmapFile) (offset n : ℕ)
    → f.mapped_data ≡ mapped
    → 0 < n
    → offset + n ≤ f.file_size
    → read f offset n ≡ ok (slice f.contents offset n)
unfolding read
read_lem f offset n m pos h =
    let some_bytes : (n == 0) ≡ false = ground arith in
    let within : leb (offset + n) f.file_size ≡ true = ground arith in
    rw (read, some_bytes, m, within) refl

read_behind :
    (f : MmapFile) (offset n : ℕ)
    → f.mapped_data ≡ mapped
    → 0 < n
    → f.file_size < offset + n
    → read f offset n ≡ fault
unfolding read
read_behind f offset n m pos h =
    let some_bytes : (n == 0) ≡ false = ground arith in
    let behind : leb (offset + n) f.file_size ≡ false = ground arith in
    rw (read, some_bytes, m, behind) refl

-- Where the system cuts and maps the file, one or more bytes written at an offset are read back from
-- it, and what stands before the offset is read as it was; but the file ends behind them, so that a
-- read past their end, of bytes that the file may have held, is out of bounds.
pub write-read_mapped :
    (sys : System) (f : MmapFile) (offset b : ℕ) (bs : Bytes) (o n m : ℕ)
    → (sys.truncates ≡ true) × (sys.maps ≡ true) × (f.fd_is_open ≡ true)
    → offset + length (b ∷ bs) < 2 ^ 64
    → 0 < n
    → o + n ≤ offset
    → o + n ≤ length f.contents
    → 0 < m
    → (g : MmapFile) × (write sys f offset (b ∷ bs) ≡ ok (g, true))
      × (read g offset (length (b ∷ bs)) ≡ ok (b ∷ bs))
      × (read g o n ≡ ok (slice f.contents o n))
      × (length g.contents ≡ offset + length (b ∷ bs))
      × (read g (offset + length (b ∷ bs)) m ≡ fault)
write-read_mapped sys f offset b bs o n m allowed fits pos before held some =
    let g = written f offset (b ∷ bs) in
    let cut = resized (offset + length (b ∷ bs)) f.contents in
    let long = length-resized (offset + length (b ∷ bs)) f.contents in
    (
      g,
      write_lem sys f offset b bs allowed fits,
      read_lem g offset (length (b ∷ bs)) refl (omega arith) (omega arith)
          ∙ ap ok (slice-put_bytes cut offset (b ∷ bs)),
      read_lem g o n refl pos (omega (arith, before))
          ∙ ap ok (
              slice-put_bytes_before cut offset (b ∷ bs) o n before (omega (arith, long, before))
              ∙ slice-resized (offset + length (b ∷ bs)) f.contents o n (omega (arith, before))
                  held),
      omega (arith, length-put_bytes cut offset (b ∷ bs), long),
      read_behind g (offset + length (b ∷ bs)) m refl some (omega (arith, some)),
    )
