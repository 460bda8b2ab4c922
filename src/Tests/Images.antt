-- ===== src/Tests/Images.antt =====
-- The loader at a small PE32+ file.
use efiperun_mod.Prelude.{
  ℕ, ◌+◌, ◌*◌, ◌≡◌, refl, true, arith, Option, none, some, List, [], ◌∷◌, inl,
}
use mathlib.Core.Option.{some-injective}
use efiperun_mod.Loader.Bytes.{Bytes, le, set_le}
use efiperun_mod.Loader.Relocation.{
  Outcome, ok, failed, fault, out_of_fuel, ◌>>=◌, Image, in_image, read, add_to, hiword, loword,
  fixup, process_block, entry_count, relocate_block, relocate,
}
use efiperun_mod.Loader.Relocation.Fixups.{IsFixed, fixup-IsFixed}
use efiperun_mod.Loader.Relocation.Extent.{Settles}
use efiperun_mod.Loader.Relocation.Blocks.{entry_words, fixups, process_block-fixups}
use efiperun_mod.Loader.Relocation.Loop.{Relocated, relocate-Relocated}
use efiperun_mod.Loader.Header.{
  System, read_file, has_magic, check_headers, image_base, size_of_image, address_of_entry_point,
  relocation_directory,
}
use efiperun_mod.Loader.Header.Valid.{IsExecutable, check_headers-IsExecutable}
use efiperun_mod.Loader.Sections.{copy, copy_sections}
use efiperun_mod.Loader.Sections.Layout.{in_sections, IsLaidOut, copy_sections-IsLaidOut}
use efiperun_mod.Loader.Load.{
  slt, page_start, page_last, region, prepare, relocate_image, fill, Result, load_pe,
}
use efiperun_mod.Loader.Load.Cleanup.{Returns, IsClean, IsPlacing, load_pe-IsClean}

-- `(address, width, value)`
abbrev words : List (ℕ × ℕ × ℕ) → Bytes
words [] = λ q. 0
words ((a, k, v) ∷ ws) = set_le k a v (words ws)

-- One section at 0x180 holds a word to relocate, a block of relocations and their two entries.
abbrev pub tiny_bytes : Bytes
tiny_bytes = words (
    (0, 2, 0x5a4d)
    ∷ (60, 4, 64)
    ∷ (64, 4, 0x4550)
    ∷ (68, 2, 0x8664)
    ∷ (70, 2, 1)
    ∷ (84, 2, 240)
    ∷ (86, 2, 2)
    ∷ (88, 2, 0x20b)
    ∷ (104, 4, 0x188)
    ∷ (144, 4, 0x1000)
    ∷ (240, 4, 0x190)
    ∷ (244, 4, 12)
    ∷ (340, 4, 0x180)
    ∷ (344, 4, 0x20)
    ∷ (348, 4, 0x180)
    ∷ (0x180, 8, 0x188)
    ∷ (0x190, 4, 0x180)
    ∷ (0x194, 4, 12)
    ∷ (0x198, 2, 0xa000)
    ∷ (0x19a, 2, 0)
    ∷ [])

abbrev tiny : Image
tiny = record { start = 0; size = 0x1a0; byte = tiny_bytes }

abbrev pub system : System
system = record {
  fstat = some 0x1a0;
  malloc = λ n. true;
  read_all = λ n. some tiny_bytes;
  page_shift = 12;
  mmap = λ a l. some 0x70000;
}

abbrev blank_image : Image
blank_image = record { start = 0x70000; size = 0x2000; byte = λ q. 0 }

in_lem : in_image (2 * 2) 0x198 tiny ≡ true
unfolding in_image
in_lem = refl

pub placing_lem : IsPlacing system
placing_lem a l p e = omega (arith, some-injective 0x70000 p e)

-- the `loadinfo` and the relocated word
abbrev seen : Outcome Result → Option (ℕ × ℕ × ℕ × ℕ × ℕ)
seen (ok r) = elim r.image [
  | none ↦ none
  | some m ↦ some (
    r.info.mmap_base,
    r.info.mmap_length,
    r.info.image_base,
    r.info.entry_point,
    le 8 (m.start + 0x180) m.byte,
  )
]
seen failed = none
seen fault = none
seen out_of_fuel = none

load_tiny : seen (load_pe system) ≡ some (0x70000, 0x2000, 0x70000, 0x70188, 0x70188)
unfolding load_pe fill prepare relocate_image region slt page_start page_last copy copy_sections
    read_file has_magic check_headers image_base size_of_image address_of_entry_point
    relocation_directory relocate relocate_block entry_count process_block fixup hiword loword
    add_to read in_image le set_le
load_tiny = refl

fixup-IsFixed_example : IsFixed 0x180 0xa000 0x70000 tiny (fixup 0x180 0xa000 0x70000 tiny)
fixup-IsFixed_example = fixup-IsFixed 0x180 0xa000 0x70000 tiny

process_block-fixups_example :
    process_block 0x1000 2 0x198 0x70000 tiny
    ≡ (fixups 0x1000 0x70000 (entry_words 2 0x198 tiny) tiny >>= λ m. ok (0x198 + 2 * 2, m))
process_block-fixups_example =
    process_block-fixups 0x1000 2 0x198 0x70000 tiny (in_lem, inl (omega arith))

relocate-Relocated_example : Settles (Relocated 0 tiny) (relocate 13 0 0x190 0x19c tiny)
relocate-Relocated_example = relocate-Relocated 13 0 0x190 0x19c tiny (omega arith) (omega arith)

copy_sections-IsLaidOut_example :
    Settles
      (IsLaidOut (in_sections 1 328 0x70000 tiny) 0x70000 tiny blank_image)
      (copy_sections 1 328 0x70000 tiny blank_image)
copy_sections-IsLaidOut_example = copy_sections-IsLaidOut 1 328 0x70000 tiny blank_image

check_headers-IsExecutable_example : Settles (IsExecutable tiny) (check_headers tiny)
check_headers-IsExecutable_example = check_headers-IsExecutable tiny

load_pe-IsClean_example : Returns IsClean (load_pe system)
load_pe-IsClean_example = load_pe-IsClean system placing_lem
