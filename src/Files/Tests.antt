-- ===== src/Files/Tests.antt =====
-- The theorems on FileObj of src/utils/files.cpp at a concrete file.
use tiny_lsm_tree.Files.Mapped.{MmapFile, System, mapped}
use tiny_lsm_tree.Files.Mapped
use tiny_lsm_tree.Files.MappedLaws.{write-read_mapped}
use tiny_lsm_tree.Common.Result.{fault}
use tiny_lsm_tree.Common.{bytes, length, true}
use tiny_lsm_tree.Common.{◌+◌, ◌-◌, ◌^◌, ◌≡◌, refl, true, false, bytes, arith, [], ◌∷◌}
use tiny_lsm_tree.Common.Result.{ok, throws}
use tiny_lsm_tree.Files.Object.{FileObj, read_to_slice, write, append, size}
use tiny_lsm_tree.Files.Laws.{write-read_to_slice, append-read_to_slice, wrapped_read_breaks_file}

abbrev three_bytes : FileObj
three_bytes = record {
  m_file = record {
    filename = bytes "f";
    is_open = true;
    failed = false;
    contents = 1 ∷ 2 ∷ 3 ∷ [];
  };
  m_size = 0;
}

abbrev broken : FileObj
broken = record {
  m_file = record {
    filename = bytes "f";
    is_open = true;
    failed = true;
    contents = 1 ∷ 2 ∷ 3 ∷ [];
  };
  m_size = 0;
}

write-read_to_slice_example :
    (read_to_slice (write three_bytes 5 (7 ∷ 8 ∷ [])).0 5 2).1 ≡ ok (7 ∷ 8 ∷ [])
write-read_to_slice_example =
    write-read_to_slice three_bytes 5 7 (8 ∷ []) refl (omega arith) (omega arith)

append-read_to_slice_example :
    ((read_to_slice (append three_bytes (7 ∷ 8 ∷ [])).0 (size three_bytes).1 2).1 ≡ ok (7 ∷ 8 ∷ []))
    × ((read_to_slice (append three_bytes (7 ∷ 8 ∷ [])).0 1 2).1
        ≡ (read_to_slice three_bytes 1 2).1)
    × ((size (append three_bytes (7 ∷ 8 ∷ [])).0).1 ≡ (size three_bytes).1 + 2)
append-read_to_slice_example =
    append-read_to_slice three_bytes 7 (8 ∷ []) 1 2 refl (omega arith) (omega arith)

wrapped_read_breaks_file_example :
    ((read_to_slice three_bytes (2 ^ 64 - 1) 2).1 ≡ throws)
    × ((read_to_slice (read_to_slice three_bytes (2 ^ 64 - 1) 2).0 0 1).1 ≡ throws)
wrapped_read_breaks_file_example =
    wrapped_read_breaks_file three_bytes (2 ^ 64 - 1) 2 0 1 refl (omega arith) (omega arith)
      (omega arith)

abbrev allowing : System
allowing = record {
  opens = true;
  stats = true;
  truncates = true;
  maps = true;
  syncs = true;
  found = [];
}

abbrev five_bytes : MmapFile
five_bytes = record {
  fd_is_open = true;
  mapped_data = mapped;
  file_size = 5;
  filename = bytes "f";
  contents = 1 ∷ 2 ∷ 3 ∷ 4 ∷ 5 ∷ [];
}

write-read_mapped_example :
    (g : MmapFile) × (Mapped.write allowing five_bytes 2 (9 ∷ []) ≡ ok (g, true))
    × (Mapped.read g 2 1 ≡ ok (9 ∷ []))
    × (Mapped.read g 0 2 ≡ ok (1 ∷ 2 ∷ []))
    × (length g.contents ≡ 3)
    × (Mapped.read g 3 1 ≡ fault)
write-read_mapped_example =
    write-read_mapped allowing five_bytes 2 9 [] 0 2 1 (refl, refl, refl) (omega arith)
      (omega arith) (omega arith) (omega arith) (omega arith)
