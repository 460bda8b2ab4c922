-- ===== src/Tests/Calls.antt =====
-- The memory services over a small memory map.

use efiperun_mod.Prelude.{
  ℕ, ◌+◌, ◌^◌, ◌≡◌, ◌<◌, ◌≤◌, refl, true, false, Option, none, some, [], ◌∷◌, arith,
}
use efiperun_mod.RangeMap.{entry, find, found_at, locate, lower_bound}
use efiperun_mod.RangeMap.Intervals.{view, IsFrom}
use efiperun_mod.RangeMap.Erase.{overhangs}
use efiperun_mod.Loader.Bytes.{Bytes}
use efiperun_mod.Memory.{
  MemoryMap, string_eq, point, block_end, can_access, access_loop, access_round,
}
use efiperun_mod.Services.{memset, set_mem, allocated, allocate_pool}
use efiperun_mod.Services.Guarded.{IsFilled, set_mem-IsFilled}
use efiperun_mod.Memory.Heap.{region_end, wrapped_mmap, wrapped_mmap-Updates}
use efiperun_mod.RangeMap.Insert.{Updates}
use efiperun_mod.RangeMap.Placed.{HasEntry}
use efiperun_mod.Memory.Fresh.{IsFree}
use efiperun_mod.Services.Chunk.{Loops, set_mem-wrapped_mmap}
use efiperun_mod.Services.Pool.{pool_block, allocate_pool-set_mem}

abbrev memory : MemoryMap
memory = entry (2 ^ 63 + 0x1000) (2 ^ 63 + 0x9000) "JEMALLOC_HEAP" ∷ []

memory-IsFrom : IsFrom 0 memory
memory-IsFrom = omega arith

abbrev zeros : Bytes
zeros q = 0

-- the byte at `a` afterwards
abbrev byte_of : ℕ → Option Bytes → Option ℕ
byte_of a none = none
byte_of a (some mem) = some (mem a)

set_runs : byte_of 0x2003 (set_mem 0x2000 16 7 memory zeros) ≡ some 7
unfolding set_mem can_access access_loop access_round find found_at locate lower_bound point
set_runs = refl

set_ignored : byte_of 0x8fff (set_mem 0x8fff 16 7 memory zeros) ≡ some 0
unfolding set_mem can_access access_loop access_round find found_at locate lower_bound point
set_ignored = refl

set_mem-IsFilled_example :
    (mem' : Bytes) × (set_mem 0x2000 16 7 memory zeros ≡ some mem')
    × IsFilled 0x2000 16 7 memory zeros mem'
set_mem-IsFilled_example =
    set_mem-IsFilled 0x2000 16 7 memory zeros memory-IsFrom (omega arith)
      (unfold point in omega arith)

abbrev give : ℕ → ℕ
give size = 0x2000

pool_clear : overhangs (point 0x2000) (block_end (pool_block 0x2000 16 "MAIN")) memory ≡ false
unfolding overhangs point block_end
pool_clear = refl

allocate_pool-set_mem_example :
    (m' : MemoryMap) × (allocate_pool give "MAIN" true 16 memory ≡ some (allocated 0x2000 m'))
    × ((a n value : ℕ) (mem : Bytes)
        → 0 < n
        → 0x2000 ≤ a
        → a + n ≤ 0x2000 + 16
        → set_mem a n value m' mem ≡ some (memset a value n mem))
allocate_pool-set_mem_example =
    allocate_pool-set_mem give "MAIN" 16 memory memory-IsFrom (omega arith)
      (omega arith, omega arith) pool_clear

-- a process with its stack, over which a page for the heap is mapped, and an allocation at its start
abbrev process_memory : MemoryMap
process_memory = entry (2 ^ 63 + 0x900000) (2 ^ 63 + 0x901000) "STACK" ∷ []

page-IsFree : IsFree (point 0x2000) (region_end 0x2000 4096) process_memory
unfolding view point block_end
page-IsFree q lo hi = ground arith

set_mem-wrapped_mmap_example :
    (m1 : MemoryMap) × (m2 : MemoryMap) × (wrapped_mmap (some 0x2000) 4096 process_memory
      ≡ some (some 0x2000, m1))
    × (allocate_pool give "MAIN" true 16 m1 ≡ some (allocated 0x2000 m2))
    × ((n value : ℕ) (mem : Bytes)
        → 0 < n
        → 0x2000 + n < 2 ^ 63
        → Loops 0x2000 n m2 × (set_mem 0x2000 n value m2 mem ≡ none))
set_mem-wrapped_mmap_example =
    set_mem-wrapped_mmap give "MAIN" 4096 16 process_memory (omega arith) (omega arith)
      (omega arith) (omega arith) (omega arith) page-IsFree

wrapped_mmap-Updates_example :
    (m' : MemoryMap) × (wrapped_mmap (some 0x2000) 4096 process_memory ≡ some (some 0x2000, m'))
    × Updates (point 0x2000) (region_end 0x2000 4096) (some "JEMALLOC_HEAP") process_memory m'
    × HasEntry (entry (point 0x2000) (region_end 0x2000 4096) "JEMALLOC_HEAP") m'
wrapped_mmap-Updates_example =
    wrapped_mmap-Updates 0x2000 4096 process_memory (omega arith) (omega arith) (omega arith)
      (omega arith) page-IsFree
