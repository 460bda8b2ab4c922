-- ===== src/Memory/Heap.antt =====
-- efiperun.cpp: `wrapped_mmap`, through which the allocator and the loader get their memory.

use efiperun_mod.Prelude.{
  ℕ, ◌+◌, ◌%◌, ◌^◌, ◌≡◌, ◌<◌, refl, ◌∙◌, ◌==◌, true, if◌then◌else◌, Option, none, some, not_zero,
  arith,
}
use efiperun_mod.RangeMap.{entry, insert}
use efiperun_mod.RangeMap.Intervals.{IsFrom}
use efiperun_mod.RangeMap.Erase.{overhangs, erase_range-Updates}
use efiperun_mod.RangeMap.Overhang.{overhangs-eq-false}
use efiperun_mod.RangeMap.Insert.{Updates, insert-IsInserted}
use efiperun_mod.RangeMap.Replace.{inserted_over}
use efiperun_mod.RangeMap.Placed.{HasEntry, insert-HasEntry, overhangs-HasEntry}
use efiperun_mod.Memory.{
  MemoryMap, MemoryBlock, string_eq, point, block_end, insert_block, register_memory,
}
use efiperun_mod.Memory.Fresh.{IsFree}

abbrev pub with_result : Option ℕ → Option MemoryMap → Option (Option ℕ × MemoryMap)
with_result p none = none
with_result p (some m) = some (p, m)

-- the point behind `length` bytes from `p` on
abbrev pub region_end : ℕ → ℕ → ℕ
region_end p length = point ((length + p) % 2 ^ 64)

-- the pages that `mmap` has given out
abbrev pub chunk : ℕ → ℕ → MemoryBlock
chunk p length = record { start = p; size = length; name = "JEMALLOC_HEAP" }

-- `wrapped_mmap`, on what `mmap` returns: `MAP_FAILED` is `none`
unfoldable pub wrapped_mmap : Option ℕ → ℕ → MemoryMap → Option (Option ℕ × MemoryMap)
wrapped_mmap none length m = some (none, m)
wrapped_mmap (some p) length m =
    if p == 0 then some (some p, m) else with_result (some p) (register_memory (chunk p length) m)

pub chunk_lt : (p length : ℕ) → 0 < length → p + length < 2 ^ 63 → point p < region_end p length
unfolding point
chunk_lt p length h u = omega arith

-- Over a well-formed map, where mmap gives out one or more bytes of user memory that have no owner,
-- and not at the address 0, wrapped_mmap makes JEMALLOC_HEAP the owner of exactly these bytes, by one
-- new interval, and keeps the map well-formed.
pub wrapped_mmap-Updates :
    (p length : ℕ) (m : MemoryMap)
    → IsFrom 0 m
    → 0 < p
    → 0 < length
    → p + length < 2 ^ 63
    → IsFree (point p) (region_end p length) m
    → (m' : MemoryMap) × (wrapped_mmap (some p) length m ≡ some (some p, m'))
      × Updates (point p) (region_end p length) (some "JEMALLOC_HEAP") m m'
      × HasEntry (entry (point p) (region_end p length) "JEMALLOC_HEAP") m'
unfolding wrapped_mmap register_memory insert_block block_end
wrapped_mmap-Updates p length m f pos h user free =
    let l = point p in
    let r = region_end p length in
    let lt = chunk_lt p length h user in
    let (m1, run, u) =
      erase_range-Updates l r m f (overhangs-eq-false l r m lt (free l (omega arith) lt)) in
    let empty : IsFree l r m1 = λ q lo hi. u.reads q ∙ ground (arith, free q lo hi) in
    (
      (insert l r "JEMALLOC_HEAP" m1).0,
      rw (not_zero p pos, run) refl,
      inserted_over l r "JEMALLOC_HEAP" m m1 (insert l r "JEMALLOC_HEAP" m1) lt u
          (insert-IsInserted l r "JEMALLOC_HEAP" m1 u.ordered),
      insert-HasEntry l r "JEMALLOC_HEAP" m1 u.ordered lt empty,
    )

-- a shorter block at the start of the pages
pub overhangs-chunk :
    (p length size : ℕ) (m : MemoryMap)
    → HasEntry (entry (point p) (region_end p length) "JEMALLOC_HEAP") m
    → size < length
    → p + length < 2 ^ 63
    → overhangs (point p) (region_end p size) m ≡ true
overhangs-chunk p length size m e h u =
    let lt = chunk_lt p length (omega arith) u in
    let shorter : region_end p size < region_end p length = unfold point in omega arith in
    overhangs-HasEntry (entry (point p) (region_end p length) "JEMALLOC_HEAP") (region_end p size) m
      e lt
    ∙ ground arith
