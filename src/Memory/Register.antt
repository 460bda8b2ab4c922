-- ===== src/Memory/Register.antt =====
-- efiperun.cpp: what `register_memory` and `lookup_memory` do to the owner of each address.
use Prim.Native.String.{String}
use efiperun_mod.Prelude.{
  ℕ, ◌+◌, ◌-◌, ◌%◌, ◌^◌, ◌≡◌, ◌≤◌, ◌<◌, refl, ap, ◌∙◌, true, false, Option, none, some, arith,
}
use efiperun_mod.RangeMap.{Place, erase_range, found_at, locate, lower_bound, insert}
use efiperun_mod.RangeMap.Intervals.{view, IsFrom}
use efiperun_mod.RangeMap.Lookup.{Holds, Located, locate-Located, view-Holds, find-found_at}
use efiperun_mod.RangeMap.Insert.{Updates, insert-IsInserted}
use efiperun_mod.RangeMap.Erase.{overhangs, erase_range-Updates}
use efiperun_mod.RangeMap.Overhang.{erase_range-HasStub, HasStub, insert-HasStub}
use efiperun_mod.RangeMap.Replace.{inserted_over}
use efiperun_mod.Memory.{
  MemoryMap, MemoryBlock, string_eq, point, address, block_end, insert_block, register_memory,
  lookup_memory, found_block,
}

point-address : (addr : ℕ) → addr < 2 ^ 64 → address (point addr) ≡ addr
unfolding point address
point-address addr h = omega arith

-- On a well-formed map, where no interval starts at the block's start and ends after its end, and
-- the block is not empty and does not wrap round, `register_memory` makes the block's name the
-- owner of exactly its addresses and keeps the map well-formed.
pub register_memory-Updates :
    (block : MemoryBlock) (m : MemoryMap)
    → IsFrom 0 m
    → point block.start < block_end block
    → overhangs (point block.start) (block_end block) m ≡ false
    → (m' : MemoryMap) × (register_memory block m ≡ some m')
      × Updates (point block.start) (block_end block) (some block.name) m m'
register_memory-Updates block m f lt h =
    let l = point block.start in
    let r = block_end block in
    let (m', run, u) = erase_range-Updates l r m f h in
    (
      (insert l r block.name m').0,
      unfold register_memory insert_block in ap (insert_block block) run,
      inserted_over l r block.name m m' (insert l r block.name m') lt u
          (insert-IsInserted l r block.name m' u.ordered),
    )

-- On a well-formed map, where an interval starts at the block's start and ends after its end, and the
-- block is not empty and does not wrap round, register_memory does not register the block: whatever
-- the block's name, it leaves the map as erase(l, r) has left it, with an empty interval at the
-- block's start.
pub register_memory-HasStub :
    (block : MemoryBlock) (m : MemoryMap)
    → IsFrom 0 m
    → point block.start < block_end block
    → overhangs (point block.start) (block_end block) m ≡ true
    → (m' : MemoryMap) × (erase_range (point block.start) (block_end block) m ≡ some m')
      × ((name : String) → register_memory (record block { name = name }) m ≡ some m')
      × HasStub (point block.start) m'
register_memory-HasStub block m f lt h =
    let l = point block.start in
    let r = block_end block in
    let (m', run, s) = erase_range-HasStub l r m f lt h in
    (
      m',
      run,
      λ name.
          (unfold register_memory insert_block block_end in
            (ap (insert_block (record block { name = name })) run
              ∙ ap (λ t. some t.0) (insert-HasStub l r name m' s))),
      s,
    )

-- What `lookup_memory` promises of the block that it returns, where the owner of the address is
-- given: the null block where it has none, else a block with the owner's name that starts where the
-- interval of the map that holds the address starts, with the address's offset from there.
abbrev pub Describes : ℕ → MemoryMap → Option String → MemoryBlock → Type 0
Describes addr m none block = (block.start ≡ 0) × (block.size ≡ 0) × (block.name ≡ "")
Describes addr m (some name) block =
    (w : Place String) × Holds (point addr) m w
    × (name ≡ w.1.value)
    × (block.name ≡ name)
    × (block.start ≡ address w.1.left)
    × ((block.start + block.size) % 2 ^ 64 ≡ addr)
    × (block.size < 2 ^ 64)

-- In a well-formed map lookup_memory describes the owner of the address, or the null block.
pub lookup_memory-Describes :
    (addr : ℕ) (m : MemoryMap)
    → addr < 2 ^ 64
    → IsFrom 0 m
    → Describes addr m (view m (point addr)) (lookup_memory addr m)
unfolding lookup_memory
lookup_memory-Describes addr m h f =
    let w = locate (point addr) (lower_bound (point addr) m) in
    rw (find-found_at (2 ^ 63) (point addr) m w refl)
      (described w (locate-Located (point addr) m f))
  where
    back :
        (l : ℕ)
        → l ≤ point addr
        → ((address l + (addr + 2 ^ 64 - address l) % 2 ^ 64) % 2 ^ 64 ≡ addr)
          × ((addr + 2 ^ 64 - address l) % 2 ^ 64 < 2 ^ 64)
    back l le = unfold address point in omega arith

    described :
        (w : Option (Place String))
        → Located (point addr) m w
        → Describes addr m (view m (point addr)) (found_block addr (found_at (2 ^ 63) w))
    described none e = rw e (unfold found_block found_at in (refl, refl, refl))
    described (some (b, e, a)) l =
        let (sum, lt) = back e.left (omega (arith, l.inside.0)) in
        rw (view-Holds (point addr) m (b, e, a) l)
          (unfold found_block found_at in ((b, e, a), l, refl, refl, refl, sum, lt))
