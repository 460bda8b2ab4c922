-- ===== src/Services.antt =====
-- stubs.cpp: the memory services, which stand on the memory tracker.
pub mod Guarded
pub mod Pool
pub mod Chunk
use Prim.Native.String.{String}
use efiperun_mod.Prelude.{
  ℕ, ◌+◌, ◌-◌, ◌*◌, ◌%◌, ◌^◌, Bool, true, false, ◌&&◌, ◌||◌, leb, ltb, ◌==◌, if◌then◌else◌, Option,
  none, some,
}
use efiperun_mod.Loader.Bytes.{Bytes}
use efiperun_mod.Memory.{MemoryMap, can_access, register_memory}

-- `memset(a, v, n)`
abbrev pub memset : ℕ → ℕ → ℕ → Bytes → Bytes
memset a v n mem q = if leb a q && ltb q (a + n) then v else mem q

-- `memcpy(d, s, n)`, of ranges that do not overlap
abbrev pub memcpy : ℕ → ℕ → ℕ → Bytes → Bytes
memcpy d s n mem q = if leb d q && ltb q (d + n) then mem (s + (q - d)) else mem q

-- a test by `can_access`, which may not end (`none`), and what is done where it is met
abbrev pub guarded : Option Bool → Option Bytes → Bytes → Option Bytes
guarded none act mem = none
guarded (some true) act mem = act
guarded (some false) act mem = some mem

unfoldable pub set_mem : ℕ → ℕ → ℕ → MemoryMap → Bytes → Option Bytes
set_mem buffer size value m mem =
    if buffer == 0
    then some mem
    else guarded (can_access buffer size m) (some (memset buffer value size mem)) mem

unfoldable pub copy_mem : ℕ → ℕ → ℕ → MemoryMap → Bytes → Option Bytes
copy_mem destination source length m mem =
    if destination == 0 || source == 0
    then some mem
    else guarded (can_access source length m)
        (guarded (can_access destination length m) (some (memcpy destination source length mem))
          mem)
        mem

-- `+` of two strings
abbrev pub concat : String → String → String
concat String.[] t = t
concat (String.◌∷◌ c s) t = String.◌∷◌ c (concat s t)

-- what AllocatePool and AllocatePages return, with `*Buffer` where it is set
pub data Allocation : Type 0 where
  invalid_buffer : Allocation
  out_of_resources : Allocation
  allocated : ℕ → MemoryMap → Allocation

-- the new owner is registered; `none` means that this does not end
abbrev pub on_registered : ℕ → Option MemoryMap → Option Allocation
on_registered p none = none
on_registered p (some m) = some (allocated p m)

-- `AllocatePool`, where the allocator gives out `malloc size` and `caller` is `find_pe_caller_id()`
unfoldable pub allocate_pool : (ℕ → ℕ) → String → Bool → ℕ → MemoryMap → Option Allocation
allocate_pool malloc caller false size m = some invalid_buffer
allocate_pool malloc caller true size m =
    let p = malloc size in
    if p == 0
    then some out_of_resources
    else on_registered p
        (register_memory (record { start = p; size = size; name = concat caller "::MALLOC" }) m)

-- `AllocatePages`
unfoldable pub allocate_pages : (ℕ → ℕ) → String → Bool → ℕ → MemoryMap → Option Allocation
allocate_pages malloc caller has_memory pages m =
    allocate_pool malloc caller has_memory (pages * 4096 % 2 ^ 64) m
