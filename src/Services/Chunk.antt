-- ===== src/Services/Chunk.antt =====
-- efiperun.cpp, stubs.cpp: an allocation at the start of the memory that the allocator has mapped.
use Prim.Native.String.{String}
use efiperun_mod.Prelude.{
  ℕ, suc, ◌+◌, ◌%◌, ◌^◌, ◌≡◌, ◌<◌, refl, true, none, some, length, not_zero, arith,
}
use efiperun_mod.RangeMap.Intervals.{IsFrom}
use efiperun_mod.RangeMap.Overhang.{HasStub}
use efiperun_mod.Loader.Bytes.{Bytes}
use efiperun_mod.Memory.{MemoryMap, string_eq, point, block_end, can_access, access_loop}
use efiperun_mod.Memory.Access.{access_loop-HasStub}
use efiperun_mod.Memory.Fresh.{IsFree}
use efiperun_mod.Memory.Register.{register_memory-HasStub}
use efiperun_mod.Memory.Heap.{
  region_end, chunk_lt, wrapped_mmap, wrapped_mmap-Updates, overhangs-chunk,
}
use efiperun_mod.Services.{set_mem, allocated, allocate_pool}
use efiperun_mod.Services.Pool.{pool_block}

-- the loop of `can_access` on `n` bytes from `p` on goes round whatever the fuel
abbrev pub Loops : ℕ → ℕ → MemoryMap → Type 0
Loops p n m = (fuel : ℕ) → access_loop fuel (point p) (point ((n + p) % 2 ^ 64)) m ≡ none

loops_lem : (p n : ℕ) (m : MemoryMap) → HasStub (point p) m → 0 < n → p + n < 2 ^ 63 → Loops p n m
loops_lem p n m s h u fuel =
    access_loop-HasStub fuel (point p) (point ((n + p) % 2 ^ 64)) m s (unfold point in omega arith)

set_lem :
    (p n value : ℕ) (m : MemoryMap) (mem : Bytes)
    → 0 < p
    → Loops p n m
    → set_mem p n value m mem ≡ none
unfolding set_mem can_access
set_lem p n value m mem pos loops = rw (not_zero p pos, loops (suc (length m))) refl

-- Where the allocator maps pages of user memory that have no owner, over any well-formed map, and
-- AllocatePool is then given a shorter block at their start, which is not empty, it succeeds, but
-- leaves a map over which SetMem of user memory from the block's start on, of any number of bytes
-- but 0, never ends: the loop of can_access goes on whatever number of rounds it is given.
pub set_mem-wrapped_mmap :
    (malloc : ℕ → ℕ) (caller : String) (pages size : ℕ) (m : MemoryMap)
    → IsFrom 0 m
    → 0 < malloc size
    → 0 < size
    → size < pages
    → malloc size + pages < 2 ^ 63
    → IsFree (point (malloc size)) (region_end (malloc size) pages) m
    → (m1 : MemoryMap) × (m2 : MemoryMap) × (wrapped_mmap (some (malloc size)) pages m
        ≡ some (some (malloc size), m1))
      × (allocate_pool malloc caller true size m1 ≡ some (allocated (malloc size) m2))
      × ((n value : ℕ) (mem : Bytes)
          → 0 < n
          → malloc size + n < 2 ^ 63
          → Loops (malloc size) n m2 × (set_mem (malloc size) n value m2 mem ≡ none))
unfolding allocate_pool
set_mem-wrapped_mmap malloc caller pages size m f pos some_size shorter user free =
    let p = malloc size in
    let (m1, mapped, up, placed) = wrapped_mmap-Updates p pages m f pos (omega arith) user free in
    let (m2, erased, run, stub) =
      register_memory-HasStub (pool_block p size caller) m1 up.ordered
        (unfold block_end in chunk_lt p size some_size (omega arith))
        (unfold block_end in overhangs-chunk p pages size m1 placed shorter user) in
    (
      m1,
      m2,
      mapped,
      rw (not_zero p pos, run (pool_block p size caller).name) refl,
      λ n value mem h u.
          let loops = loops_lem p n m2 stub h u in (loops, set_lem p n value m2 mem pos loops),
    )
