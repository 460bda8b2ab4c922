-- ===== src/Memory.antt =====
-- The memory tracker: `register_memory` and `lookup_memory` (efiperun.cpp) over `g_memory_map`, and
-- `can_access` (stubs.cpp).
--
-- An address, as `void*` or `size_t`, is a number below 2 ^ 64, and arithmetic on it wraps. As an
-- `intptr_t` it is signed; a point of the map is the position of the signed number in its order,
-- which is that number plus 2 ^ 63.
pub mod Access
pub mod Register
pub mod History
pub mod Fresh
pub mod Heap
use Prim.Native.String.{String}
use text.Mathlib.Text.{◌==◌ as str_eq}
use text.Mathlib.TextEquality.{eq_iff}
use efiperun_mod.Prelude.{
  ℕ, zero, suc, ◌+◌, ◌-◌, ◌%◌, ◌^◌, Bool, true, false, Option, none, some, List, leb, if◌then◌else◌,
  Eq, length,
}
use efiperun_mod.RangeMap.{Map, find, insert, erase_range}

instance abbrev pub string_eq : Eq String
string_eq = record { equal = str_eq; equal_iff = eq_iff }

abbrev pub word_size : ℕ
word_size = 2 ^ 64

-- the point for an address cast to `intptr_t`
unfoldable pub point : ℕ → ℕ
point addr = (addr + 2 ^ 63) % 2 ^ 64

-- the address for a point cast back
unfoldable pub address : ℕ → ℕ
address p = (p + 2 ^ 63) % 2 ^ 64

-- `g_memory_map`
abbrev pub MemoryMap : Type 0
MemoryMap = Map String

-- `memory_block`; `size` and `offset` are one union
pub record MemoryBlock : Type 0 where
  pub start : ℕ
  pub size : ℕ
  pub name : String

-- `block.size+(intptr_t)block.start`, which is unsigned, as the `intptr_t` that `erase` takes
unfoldable pub block_end : MemoryBlock → ℕ
block_end block = point ((block.size + block.start) % 2 ^ 64)

-- `g_memory_map.insert(…)`, once `erase` has returned
unfoldable pub insert_block : MemoryBlock → Option MemoryMap → Option MemoryMap
insert_block block none = none
insert_block block (some m) = some (insert (point block.start) (block_end block) block.name m).0

-- `none` means that the loop in `erase` ran out of fuel
unfoldable pub register_memory : MemoryBlock → MemoryMap → Option MemoryMap
register_memory block m = insert_block block (erase_range (point block.start) (block_end block) m)

-- the block that `lookup_memory` builds from what `find` returned
unfoldable pub found_block : ℕ → ℕ × ℕ × Option String → MemoryBlock
found_block addr (l, r, none) = record { start = 0; size = 0; name = "" }
found_block addr (l, r, some name) = record {
  start = address l;
  size = (addr + 2 ^ 64 - address l) % 2 ^ 64;
  name = name;
}

unfoldable pub lookup_memory : ℕ → MemoryMap → MemoryBlock
lookup_memory addr m = found_block addr (find (2 ^ 63) (point addr) m)

-- The body of the loop of `can_access`, on what `find` returned; `again` goes round at a new `lo`.
unfoldable pub access_round : ℕ → ℕ × ℕ × Option String → (ℕ → Option Bool) → Option Bool
access_round hi (left, right, none) again = some false
access_round hi (left, right, some name) again = if leb hi right then some true else again right

-- The loop of `can_access` at `lo`; `none` means that the fuel ran out.
unfoldable pub access_loop : ℕ → ℕ → ℕ → MemoryMap → Option Bool
access_loop zero lo hi m = none
access_loop (suc fuel) lo hi m =
    access_round hi (find (2 ^ 63) lo m) (λ next. access_loop fuel next hi m)

-- `lo` and `hi` are `intptr_t`
unfoldable pub can_access : ℕ → ℕ → MemoryMap → Option Bool
can_access base len m = access_loop (suc (length m)) (point base) (point ((len + base) % 2 ^ 64)) m
