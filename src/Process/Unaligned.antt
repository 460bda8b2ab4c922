-- ===== src/Process/Unaligned.antt =====
-- efiperun.cpp, peloader.c: the part of the mapping before an image whose ImageBase is not a multiple
-- of the page size.
use Prim.Native.String.{String}
use efiperun_mod.Prelude.{◌+◌, ◌-◌, ◌^◌, ◌≡◌, ◌<◌, some, [], ◌∷◌, arith}
use efiperun_mod.RangeMap.Intervals.{IsFrom}
use efiperun_mod.RangeMap.Overhang.{HasStub}
use efiperun_mod.Memory.{MemoryMap, string_eq, point, block_end, register_memory}
use efiperun_mod.Memory.Fresh.{IsFree}
use efiperun_mod.Memory.Heap.{region_end, wrapped_mmap-Updates, overhangs-chunk}
use efiperun_mod.Memory.Register.{register_memory-HasStub}
use efiperun_mod.Loader.Load.{LoadInfo}
use efiperun_mod.Process.{Loaded, mmap_block, map_pages}
use efiperun_mod.Process.Pages.{map_pages_one}

-- an image that starts after its mapping does, which is user memory
abbrev pub IsUnaligned : LoadInfo → Type 0
IsUnaligned info =
    (0 < info.mmap_base)
    × (info.mmap_base < info.image_base)
    × (info.image_base < info.mmap_base + info.mmap_length)
    × (info.mmap_base + info.mmap_length < 2 ^ 63)

-- the first block ends at the image, before the mapping does
ends_lem :
    (x : Loaded)
    → IsUnaligned x.0
    → (block_end (mmap_block x) ≡ point x.0.image_base)
      × (region_end x.0.mmap_base (x.0.image_base - x.0.mmap_base) ≡ point x.0.image_base)
      × (point x.0.mmap_base < point x.0.image_base)
unfolding block_end point
ends_lem x u = (omega arith, omega arith, omega arith)

-- Over a well-formed map, where the loader's mapping is user memory that had no owner, and the image
-- starts inside it, after its start, the block IMAGE_MMAP for the part before the image is not
-- registered: after the wrapped mmap of the loader, registering that block leaves the same map
-- whatever its name, with an empty interval at the start of the mapping.
pub mmap_block-HasStub :
    (x : Loaded) (m : MemoryMap)
    → IsFrom 0 m
    → IsUnaligned x.0
    → IsFree (point x.0.mmap_base) (region_end x.0.mmap_base x.0.mmap_length) m
    → (m1 : MemoryMap) × (m2 : MemoryMap) × (map_pages ((x.0.mmap_base, x.0.mmap_length) ∷ []) m
        ≡ some m1)
      × ((name : String) → register_memory (record (mmap_block x) { name = name }) m1 ≡ some m2)
      × HasStub (point x.0.mmap_base) m2
mmap_block-HasStub x m f u free =
    let (ends, ends', lt) = ends_lem x u in
    let (m1, mapped, up, placed) =
      wrapped_mmap-Updates x.0.mmap_base x.0.mmap_length m f u.0 (omega (arith, u)) u.3 free in
    let (m2, erased, run, stub) =
      register_memory-HasStub (mmap_block x) m1 up.ordered (rw ends lt) (
        rw (ends, ← ends')
          (overhangs-chunk x.0.mmap_base x.0.mmap_length (x.0.image_base - x.0.mmap_base) m1 placed
            (omega arith) u.3)) in
    (m1, m2, map_pages_one x.0.mmap_base x.0.mmap_length m m1 mapped, run, stub)
