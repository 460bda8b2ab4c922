-- ===== src/Memory/Fresh.antt =====
-- efiperun.cpp: `register_memory` of a range that no interval meets.
use efiperun_mod.Prelude.{ℕ, ◌≡◌, ◌≤◌, ◌<◌, refl, ltb, none, some, arith, Bool-cases, inl, inr}
use efiperun_mod.RangeMap.{Map}
use efiperun_mod.RangeMap.Insert.{Updates}
use efiperun_mod.RangeMap.Replace.{erase_range_empty, insert_empty}
use efiperun_mod.Memory.{
  MemoryMap, MemoryBlock, string_eq, point, block_end, insert_block, register_memory,
}
use efiperun_mod.Memory.Register.{register_memory-Updates}
use efiperun_mod.RangeMap.Intervals.{view, IsFrom}
use efiperun_mod.RangeMap.Overhang.{overhangs-eq-false}

-- no point from `l` to below `r` has a value
abbrev pub IsFree {ℓ} : {V : Type ℓ} → ℕ → ℕ → Map V → Type ℓ
IsFree l r m = (q : ℕ) → l ≤ q → q < r → view m q ≡ none

-- Registering an empty block changes nothing.
pub register_empty :
    (block : MemoryBlock) (m : MemoryMap)
    → block_end block ≤ point block.start
    → register_memory block m ≡ some m
unfolding register_memory insert_block
register_empty block m h =
    rw
      (
        erase_range_empty (point block.start) (block_end block) m h,
        insert_empty (point block.start) (block_end block) block.name m h,
      )
      refl

-- A block of memory without owners gets its name as the owner.
pub register_free :
    (block : MemoryBlock) (m : MemoryMap)
    → IsFrom 0 m
    → IsFree (point block.start) (block_end block) m
    → (m' : MemoryMap) × (register_memory block m ≡ some m')
      × Updates (point block.start) (block_end block) (some block.name) m m'
register_free block m f free =
    let l = point block.start in
    let r = block_end block in
    elim (Bool-cases (ltb l r)) [
      | inl t ↦
          register_memory-Updates block m f (ground arith)
            (overhangs-eq-false l r m (ground arith) (free l (omega arith) (ground arith)))
      | inr t ↦ (
        m,
        register_empty block m (ground arith),
        record { ordered = f; reads = λ q. ground arith },
      )
    ]
