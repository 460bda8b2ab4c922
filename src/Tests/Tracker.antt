-- ===== src/Tests/Tracker.antt =====
-- The memory tracker at concrete maps and blocks.

use Prim.Native.String.{String}
use efiperun_mod.Prelude.{ℕ, ◌+◌, ◌%◌, ◌^◌, ◌≡◌, ◌<◌, refl, Bool, true, false, some, [], ◌∷◌, arith}
use efiperun_mod.RangeMap.{entry, rejoin, lower_bound, locate, find, found_at, insert, erase_range}
use efiperun_mod.RangeMap.Intervals.{IsFrom}
use efiperun_mod.RangeMap.Insert.{Updates}
use efiperun_mod.RangeMap.Erase.{overhangs}
use efiperun_mod.RangeMap.Overhang.{HasStub}
use efiperun_mod.Memory.{
  MemoryMap, MemoryBlock, string_eq, point, address, block_end, insert_block, register_memory,
  found_block, lookup_memory, access_round, access_loop, can_access,
}
use efiperun_mod.Memory.Access.{IsAnswer, can_access-IsAnswer}
use efiperun_mod.Memory.Register.{register_memory-Updates, register_memory-HasStub}

-- user addresses as points
abbrev user : ℕ → ℕ
user addr = 2 ^ 63 + addr

abbrev heap : MemoryMap
heap =
    entry (user 0x1000) (user 0x9000) "JEMALLOC_HEAP"
    ∷ entry (user 0xa000) (user 0xb000) "STACK"
    ∷ []

heap-IsFrom : IsFrom 0 heap
heap-IsFrom = omega arith

abbrev pool : MemoryBlock
pool = record { start = 0x2000; size = 0x100; name = "MAIN_PE_IMAGE::MALLOC" }

-- a block at the very start of the heap
abbrev first_pool : MemoryBlock
first_pool = record { start = 0x1000; size = 0x100; name = "MAIN_PE_IMAGE::MALLOC" }

abbrev registered : MemoryMap
registered =
    entry (user 0x1000) (user 0x2000) "JEMALLOC_HEAP"
    ∷ entry (user 0x2000) (user 0x2100) "MAIN_PE_IMAGE::MALLOC"
    ∷ entry (user 0x2100) (user 0x9000) "JEMALLOC_HEAP"
    ∷ entry (user 0xa000) (user 0xb000) "STACK"
    ∷ []

program : Unit {0}
unfolding point address block_end insert_block register_memory found_block lookup_memory
    access_round access_loop can_access find found_at lower_bound locate insert erase_range
program = tt

register_memory_runs : register_memory pool heap ≡ some registered
unfolding program
register_memory_runs = refl

lookup_memory_runs :
    lookup_memory 0x2010 registered
    ≡ record { start = 0x2000; size = 0x10; name = "MAIN_PE_IMAGE::MALLOC" }
unfolding program
lookup_memory_runs = refl

can_access_runs : can_access 0x1ff0 0x200 registered ≡ some true
unfolding program
can_access_runs = refl

can_access_gap : can_access 0x8ff0 0x2000 registered ≡ some false
unfolding program
can_access_gap = refl

pool_fits : point pool.start < block_end pool
unfolding point block_end
pool_fits = omega arith

pool_clear : overhangs (point pool.start) (block_end pool) heap ≡ false
unfolding overhangs point block_end
pool_clear = refl

register_memory-Updates_example :
    (m' : MemoryMap) × (register_memory pool heap ≡ some m')
    × Updates (point pool.start) (block_end pool) (some pool.name) heap m'
register_memory-Updates_example = register_memory-Updates pool heap heap-IsFrom pool_fits pool_clear

first_fits : point first_pool.start < block_end first_pool
unfolding point block_end
first_fits = omega arith

first_overhangs : overhangs (point first_pool.start) (block_end first_pool) heap ≡ true
unfolding overhangs point block_end
first_overhangs = refl

register_memory-HasStub_example :
    (m' : MemoryMap) × (erase_range (point first_pool.start) (block_end first_pool) heap ≡ some m')
    × ((name : String) → register_memory (record first_pool { name = name }) heap ≡ some m')
    × HasStub (point first_pool.start) m'
register_memory-HasStub_example =
    register_memory-HasStub first_pool heap heap-IsFrom first_fits first_overhangs

can_access-IsAnswer_example :
    (t : Bool) × (can_access 0x1000 0x100 heap ≡ some t)
    × IsAnswer (point 0x1000) (point ((0x100 + 0x1000) % 2 ^ 64)) heap t
can_access-IsAnswer_example = can_access-IsAnswer 0x1000 0x100 heap heap-IsFrom

abbrev stubbed : MemoryMap
stubbed =
    entry (user 0x1000) (user 0x1000) "JEMALLOC_HEAP"
    ∷ entry (user 0x1100) (user 0x9000) "JEMALLOC_HEAP"
    ∷ []

stubbed-HasStub : HasStub (user 0x1000) stubbed
unfolding rejoin
stubbed-HasStub = record {
  b = [];
  e = entry (user 0x1000) (user 0x1000) "JEMALLOC_HEAP";
  a = entry (user 0x1100) (user 0x9000) "JEMALLOC_HEAP" ∷ [];
  whole = refl;
  upto = tt;
  starts = refl;
  ends = refl;
}
