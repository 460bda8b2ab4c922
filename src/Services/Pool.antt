-- ===== src/Services/Pool.antt =====
-- stubs.cpp: `SetMem` on memory that `AllocatePool` has handed out.
use Prim.Native.String.{String}
use efiperun_mod.Prelude.{
  ℕ, ◌+◌, ◌%◌, ◌^◌, ◌≡◌, ◌≤◌, ◌<◌, refl, ap, ◌∙◌, true, false, some, arith, inl, inr, not_zero,
}
use efiperun_mod.RangeMap.Intervals.{IsFrom, within, within_iff}
use efiperun_mod.RangeMap.Erase.{overhangs}
use efiperun_mod.RangeMap.Insert.{Updates}
use efiperun_mod.Loader.Bytes.{Bytes}
use efiperun_mod.Memory.{MemoryMap, MemoryBlock, string_eq, point, block_end}
use efiperun_mod.Memory.Register.{register_memory-Updates}
use efiperun_mod.Services.{concat, memset, set_mem, allocated, allocate_pool}
use efiperun_mod.Memory.Access.{IsAnswer}
use efiperun_mod.Services.Guarded.{set_mem-IsFilled}

-- the user addresses of a block keep their order as points
abbrev pub IsUser : ℕ → ℕ → Type 0
IsUser p size = (0 < size) × (p + size < 2 ^ 63)

bounds_lem :
    (p size : ℕ)
    → IsUser p size
    → (point p ≡ p + 2 ^ 63) × (point ((size + p) % 2 ^ 64) ≡ p + size + 2 ^ 63)
unfolding point
bounds_lem p size h = (omega arith, omega arith)

owned_lem :
    (p size a n : ℕ) (w : String) (m m' : MemoryMap)
    → IsUser p size
    → IsUser a n
    → p ≤ a
    → a + n ≤ p + size
    → Updates (point p) (point ((size + p) % 2 ^ 64)) (some w) m m'
    → IsAnswer (point a) (point a + n) m' false
    → ⊥
owned_lem p size a n w m m' u v low high up (q, le, at, e) =
    let b = bounds_lem p size u in
    let c = bounds_lem a n v in
    let inside : within (point p) (point ((size + p) % 2 ^ 64)) q ≡ true =
      within_iff (point p) (point ((size + p) % 2 ^ 64)) q
        (omega (arith, b.0, c.0), ground (arith, b.1, c.0)) in
    absurd (cc (up.reads q, e, inside))

-- the block that `AllocatePool` registers
abbrev pub pool_block : ℕ → ℕ → String → MemoryBlock
pool_block p size caller = record { start = p; size = size; name = concat caller "::MALLOC" }

fits_lem :
    (p size : ℕ) (caller : String) → IsUser p size → point p < block_end (pool_block p size caller)
unfolding point block_end
fits_lem p size caller u = omega arith

set_lem :
    (p size a n value : ℕ) (caller : String) (m m' : MemoryMap) (mem : Bytes)
    → IsUser p size
    → IsUser a n
    → p ≤ a
    → a + n ≤ p + size
    → 0 < p
    → Updates
        (point p)
        (block_end (pool_block p size caller))
        (some (concat caller "::MALLOC"))
        m
        m'
    → set_mem a n value m' mem ≡ some (memset a value n mem)
unfolding block_end
set_lem p size a n value caller m m' mem u v low high pos up =
    let (mem', run, set) =
      set_mem-IsFilled a n value m' mem up.ordered (omega arith)
        (omega (arith, (bounds_lem a n v).0)) in
    elim set [
      | inl (ans, same) ↦ run ∙ ap some same
      | inr (ans, same) ↦
          absurd (owned_lem p size a n (concat caller "::MALLOC") m m' u v low high up ans)
    ]

-- On a well-formed map, where the allocator gives out a block of user memory that no registered
-- interval starts at and ends after, AllocatePool returns it, and SetMem of any part of it that is
-- not empty is not ignored.
pub allocate_pool-set_mem :
    (malloc : ℕ → ℕ) (caller : String) (size : ℕ) (m : MemoryMap)
    → IsFrom 0 m
    → 0 < malloc size
    → IsUser (malloc size) size
    → overhangs (point (malloc size)) (block_end (pool_block (malloc size) size caller)) m ≡ false
    → (m' : MemoryMap) × (allocate_pool malloc caller true size m
        ≡ some (allocated (malloc size) m'))
      × ((a n value : ℕ) (mem : Bytes)
          → 0 < n
          → malloc size ≤ a
          → a + n ≤ malloc size + size
          → set_mem a n value m' mem ≡ some (memset a value n mem))
unfolding allocate_pool
allocate_pool-set_mem malloc caller size m f pos u clear =
    let block = pool_block (malloc size) size caller in
    let (m', run, up) =
      register_memory-Updates block m f (fits_lem (malloc size) size caller u) clear in
    (
      m',
      rw (not_zero (malloc size) pos, run) refl,
      λ a n value mem h low high.
          set_lem (malloc size) size a n value caller m m' mem u (h, omega arith) low high pos up,
    )
