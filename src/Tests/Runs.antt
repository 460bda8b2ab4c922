-- ===== src/Tests/Runs.antt =====
-- The main program at a small file, an empty process and concrete arguments.

use efiperun_mod.Prelude.{
  ℕ, ◌+◌, ◌-◌, ◌^◌, ◌≡◌, ◌≤◌, ◌<◌, refl, sym, ◌∙◌, if◌then◌else◌, none, some, List, [], ◌∷◌, arith,
}
use efiperun_mod.RangeMap.Intervals.{view}
use efiperun_mod.RangeMap.Insert.{Updates}
use efiperun_mod.RangeMap.Erase.{overhangs}
use efiperun_mod.RangeMap.{entry}
use efiperun_mod.Loader.Bytes.{le, set_le}
use efiperun_mod.Loader.Relocation.{
  ok, failed, fault, Image, out_of_fuel, in_image, read, add_to, hiword, loword, fixup,
  process_block, entry_count, relocate_block, relocate,
}
use efiperun_mod.Loader.Header.{
  System, read_file, has_magic, check_headers, image_base, size_of_image, address_of_entry_point,
  relocation_directory,
}
use efiperun_mod.Loader.Sections.{copy, copy_sections}
use efiperun_mod.Loader.Load.{
  slt, page_start, page_last, region, prepare, relocate_image, fill, Result, at_error, load_pe,
}
use efiperun_mod.Loader.Load.Cleanup.{IsPlacing}
use efiperun_mod.Memory.{
  MemoryMap, MemoryBlock, string_eq, point, block_end, register_memory, lookup_memory,
}
use efiperun_mod.Memory.Register.{Describes}
use efiperun_mod.Memory.History.{Reached, start, IsClear, owner, lookup_memory-Reached}
use efiperun_mod.Process.{
  Loaded, mmap_block, map_pages, World, image_end, enter, run_pe, find_pe_caller_id,
}
use efiperun_mod.Process.Run.{
  IsRegistered, IsUserImage, IsOrdered, run_pe-IsRegistered, run_pe_failed,
}
use efiperun_mod.Process.Caller.{in_image as in_loaded, find_pe_caller_id-run_pe}
use efiperun_mod.Program.{
  stack_init, main, usage, stack_initialized, hooks_initialized, called, ran_pe,
}
use efiperun_mod.Program.Order.{register_all, no_modules, main-expected}
use efiperun_mod.Program.Stack.{page_end, unset, stack_init-Updates, stack_init-unlimited}
use Prim.Native.String.{String}
use efiperun_mod.RangeMap.Overhang.{HasStub}
use efiperun_mod.Memory.Fresh.{IsFree}
use efiperun_mod.Memory.Heap.{region_end}
use efiperun_mod.Process.Unaligned.{mmap_block-HasStub}
use efiperun_mod.Process.Pages.{ArePages, IsMapped}
use mathlib.Core.Option.{some-injective}
use efiperun_mod.Tests.Images.{system, tiny_bytes, placing_lem}

abbrev loaded : Result
unfolding load_pe fill prepare relocate_image region slt page_start page_last copy copy_sections
    read_file has_magic check_headers image_base size_of_image address_of_entry_point
    relocation_directory relocate relocate_block entry_count process_block fixup hiword loword
    add_to read in_image
loaded = elim (load_pe system) [
  | ok r ↦ r
  | failed ↦ at_error [] []
  | fault ↦ at_error [] []
  | out_of_fuel ↦ at_error [] []
]

loaded_lem : load_pe system ≡ ok loaded
unfolding load_pe fill prepare relocate_image region slt page_start page_last copy copy_sections
    read_file has_magic check_headers image_base size_of_image address_of_entry_point
    relocation_directory relocate relocate_block entry_count process_block fixup hiword loword
    add_to read in_image le set_le
loaded_lem = refl

base_lem :
    (loaded.info.mmap_base ≡ 0x70000)
    × (loaded.info.mmap_length ≡ 0x2000)
    × (loaded.info.image_base ≡ 0x70000)
unfolding load_pe fill prepare relocate_image region slt page_start page_last copy copy_sections
    read_file has_magic check_headers image_base size_of_image address_of_entry_point
    relocation_directory relocate relocate_block entry_count process_block fixup hiword loword
    add_to read in_image le set_le
base_lem = (refl, refl, refl)

-- a process with the stack registered, and code that changes nothing
abbrev process : World
process = record { memory = entry (point 0x900000) (point 0x901000) "STACK" ∷ []; images = [] }

abbrev code : ℕ → World → World
code entry_point w = w

user_lem : IsUserImage loaded.info
user_lem =
    let (base, length, image) = base_lem in
    (image ∙ sym base, omega (arith, base), omega (arith, length), omega (arith, base, length))

-- the image that is loaded
abbrev loaded_image : Image
unfolding load_pe fill prepare relocate_image region slt page_start page_last copy copy_sections
    read_file has_magic check_headers image_base size_of_image address_of_entry_point
    relocation_directory relocate relocate_block entry_count process_block fixup hiword loword
    add_to read in_image
loaded_image = elim loaded.image [
  | none ↦ record { start = 0; size = 0; byte = λ q. 0 }
  | some m ↦ m
]

image_lem : loaded.image ≡ some loaded_image
unfolding load_pe fill prepare relocate_image region slt page_start page_last copy copy_sections
    read_file has_magic check_headers image_base size_of_image address_of_entry_point
    relocation_directory relocate relocate_block entry_count process_block fixup hiword loword
    add_to read in_image le set_le
image_lem = refl

ordered_lem : IsOrdered process
unfolding point
ordered_lem = ((omega arith, omega arith, tt), tt)

fresh_lem :
    (q : ℕ)
    → point loaded.info.mmap_base ≤ q
    → q < image_end loaded.info
    → view process.memory q ≡ none
unfolding view point
fresh_lem q lo hi =
    let (base, length, image) = base_lem in
    let low : 0x70000 + 2 ^ 63 ≤ q = omega (arith, base) in
    let high : q < 0x72000 + 2 ^ 63 = omega (arith, base, length) in ground arith

run_pe-IsRegistered_example :
    (m1 : MemoryMap) × (w' : World) × (map_pages loaded.mapped process.memory ≡ some m1)
    × Updates
        (point loaded.info.mmap_base)
        (image_end loaded.info)
        (some "JEMALLOC_HEAP")
        process.memory
        m1
    × IsRegistered (loaded.info, "MAIN_PE_IMAGE") process w'
    × (run_pe code "MAIN_PE_IMAGE" (some system) process
        ≡ ok (enter code loaded.info.entry_point w'))
run_pe-IsRegistered_example =
    run_pe-IsRegistered code "MAIN_PE_IMAGE" system process loaded loaded_image placing_lem
      loaded_lem image_lem user_lem ordered_lem (fresh_lem, λ q lo hi. unfold view in refl)

find_pe_caller_id-run_pe_example :
    (w' : World) × (run_pe code "MAIN_PE_IMAGE" (some system) process
      ≡ ok (enter code loaded.info.entry_point w'))
    × ((stack : List ℕ)
        → find_pe_caller_id stack w'.images
          ≡ (if in_loaded loaded.info 80 stack then some "MAIN_PE_IMAGE" else none))
find_pe_caller_id-run_pe_example =
    find_pe_caller_id-run_pe code "MAIN_PE_IMAGE" system process.memory loaded loaded_image
      placing_lem loaded_lem image_lem user_lem ordered_lem.0 fresh_lem

-- a file whose section is not at the same offset in the file as in memory: loading it fails after
-- `mmap`
abbrev misplaced : System
misplaced = record system { read_all = λ n. some (set_le 4 348 0x181 tiny_bytes) }

abbrev unloaded : Result
unloaded = at_error ((0x70000, 0x2000) ∷ []) ((0x70000, 0x2000) ∷ [])

unloaded_lem : load_pe misplaced ≡ ok unloaded
unfolding load_pe fill prepare relocate_image region slt page_start page_last copy copy_sections
    read_file has_magic check_headers image_base size_of_image address_of_entry_point
    relocation_directory relocate relocate_block entry_count process_block fixup hiword loword
    add_to read in_image le set_le
unloaded_lem = refl

misplaced-IsPlacing : IsPlacing misplaced
misplaced-IsPlacing a l p e = omega (arith, some-injective 0x70000 p e)

pages_lem : ArePages ((0x70000, 0x2000) ∷ []) process.memory
unfolding view point block_end
pages_lem = (omega arith, omega arith, omega arith, λ q lo hi. ground arith)

run_pe_failed_example :
    (m' : MemoryMap) × IsMapped ((0x70000, 0x2000) ∷ []) process.memory m'
    × (unloaded.unmapped ≡ unloaded.mapped)
    × (run_pe code "MAIN_PE_IMAGE" (some misplaced) process ≡ ok (record process { memory = m' }))
run_pe_failed_example =
    run_pe_failed code "MAIN_PE_IMAGE" misplaced process unloaded misplaced-IsPlacing unloaded_lem
      refl ordered_lem.0 pages_lem

-- an image 0x123 bytes after the start of its mapping
abbrev unaligned : Loaded
unaligned = (
  record {
    mmap_base = 0x400000;
    mmap_length = 0x2000;
    image_base = 0x400123;
    entry_point = 0x400200;
  },
  "MAIN_PE_IMAGE",
)

unaligned-IsFree : IsFree (point 0x400000) (region_end 0x400000 0x2000) process.memory
unfolding view point block_end
unaligned-IsFree q lo hi = ground arith

mmap_block-HasStub_example :
    (m1 : MemoryMap) × (m2 : MemoryMap) × (map_pages ((0x400000, 0x2000) ∷ []) process.memory
      ≡ some m1)
    × ((name : String)
        → register_memory (record (mmap_block unaligned) { name = name }) m1 ≡ some m2)
    × HasStub (point 0x400000) m2
mmap_block-HasStub_example =
    mmap_block-HasStub unaligned process.memory ordered_lem.0
      (omega arith, omega arith, omega arith, omega arith) unaligned-IsFree

-- one block registered in the empty map
abbrev heap : MemoryBlock
heap = record { start = 0x5000; size = 0x100; name = "HEAP" }

heap-IsClear : IsClear heap []
unfolding overhangs point block_end
heap-IsClear = (omega arith, refl)

abbrev after_heap : (m : MemoryMap) × (register_memory heap [] ≡ some m) × Reached (heap ∷ []) m
after_heap = (lookup_memory-Reached [] [] start).1 heap heap-IsClear

lookup_memory-Reached_example :
    ((addr : ℕ)
      → addr < 2 ^ 64
      → Describes addr after_heap.0
          (owner (heap ∷ []) (point addr))
          (lookup_memory addr after_heap.0))
    × ((block : MemoryBlock)
        → IsClear block after_heap.0
        → (m' : MemoryMap) × (register_memory block after_heap.0 ≡ some m')
          × Reached (block ∷ heap ∷ []) m')
lookup_memory-Reached_example = lookup_memory-Reached (heap ∷ []) after_heap.0 after_heap.2

-- two modules, the second with a function to run only
abbrev modules : List (ℕ × ℕ)
modules = (0x401000, 0x402000) ∷ (0, 0x403000) ∷ []

runs_file : main (register_all modules no_modules) ("efiperun" ∷ "--unsafe" ∷ "boot.efi" ∷ []) ≡ (
  0,
  stack_initialized
      ∷ hooks_initialized
      ∷ called 0x401000
      ∷ ran_pe "MAIN_PE_IMAGE" "boot.efi"
      ∷ called 0x402000
      ∷ called 0x403000
      ∷ [],
)
runs_file = main-expected modules ("efiperun" ∷ "--unsafe" ∷ "boot.efi" ∷ [])

main-expected_example :
    main (register_all modules no_modules) ("efiperun" ∷ "--unsafe" ∷ []) ≡ (1, usage ∷ [])
main-expected_example = main-expected modules ("efiperun" ∷ "--unsafe" ∷ [])

stack_init-Updates_example :
    (m' : MemoryMap) × (stack_init (some 0x7ffc1234) (some 0x800000) unset []
      ≡ some
          (record { stackhi = page_end 0x7ffc1234; stacklo = page_end 0x7ffc1234 - 0x800000 }, m'))
    × Updates
        (point (page_end 0x7ffc1234 - 0x800000))
        (point (page_end 0x7ffc1234))
        (some "STACK")
        []
        m'
unfolding view
stack_init-Updates_example =
    stack_init-Updates 0x7ffc1234 0x800000 [] (omega arith) (omega arith) (omega arith) tt
      (λ q lo hi. refl)

stack_init-unlimited_example :
    stack_init (some 0x7ffc1234) (some (2 ^ 64 - 1)) unset []
    ≡ some (record { stackhi = page_end 0x7ffc1234; stacklo = page_end 0x7ffc1234 + 1 }, [])
stack_init-unlimited_example = stack_init-unlimited 0x7ffc1234 [] (omega arith)
