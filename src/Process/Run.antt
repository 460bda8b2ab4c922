-- ===== src/Process/Run.antt =====
-- efiperun.cpp: what `run_pe` registers.
use Prim.Native.String.{String}
use efiperun_mod.Prelude.{
  ℕ, ◌+◌, ◌^◌, ◌≡◌, ◌≤◌, ◌<◌, refl, ap, ◌∙◌, if◌then◌else◌, false, Option, none, some, List, [],
  ◌∷◌, arith,
}
use mathlib.Core.Path.{subst}
use efiperun_mod.RangeMap.{Map, entry, insert}
use efiperun_mod.RangeMap.Intervals.{within, view, IsFrom}
use efiperun_mod.RangeMap.Insert.{Updates, insert-IsInserted}
use efiperun_mod.RangeMap.Overhang.{overhangs-eq-false}
use efiperun_mod.RangeMap.Erase.{overhangs, erase_range-Updates}
use efiperun_mod.RangeMap.Placed.{HasEntry, overhangs-HasEntry}
use efiperun_mod.RangeMap.Replace.{inserted_over, erase_range_empty, insert_empty}
use efiperun_mod.Memory.{MemoryMap, string_eq, point, block_end, register_memory}
use efiperun_mod.Loader.Relocation.{ok, Image}
use efiperun_mod.Loader.Header.{System}
use efiperun_mod.Loader.Load.{LoadInfo, no_info, Result, load_pe}
use efiperun_mod.Loader.Load.Cleanup.{IsClean, IsPlacing, Returns, load_pe-IsClean}
use efiperun_mod.Services.{concat}
use efiperun_mod.Process.{
  Loaded, loaded_eq, World, image_end, insert_image, register_image, mmap_block, base_block,
  register_pe, enter, run_pe, map_pages,
}
use efiperun_mod.Memory.Fresh.{IsFree, register_empty}
use efiperun_mod.Memory.Register.{register_memory-Updates}
use efiperun_mod.Memory.Heap.{wrapped_mmap-Updates}
use efiperun_mod.Process.Pages.{
  map_pages_one, load_pe-IsSingle, ArePages, IsMapped, map_pages-IsMapped,
}

register_image-Updates :
    (x : Loaded) (m : Map Loaded)
    → IsFrom 0 m
    → point x.0.mmap_base < image_end x.0
    → IsFree (point x.0.mmap_base) (image_end x.0) m
    → (m' : Map Loaded) × (register_image x m ≡ some m')
      × Updates (point x.0.mmap_base) (image_end x.0) (some x) m m'
register_image-Updates x m f lt free =
    let l = point x.0.mmap_base in
    let r = image_end x.0 in
    let (m', run, u) =
      erase_range-Updates l r m f (overhangs-eq-false l r m lt (free l (omega arith) lt)) in
    (
      (insert l r x m').0,
      unfold register_image in ap (insert_image x) run,
      inserted_over l r x m m' (insert l r x m') lt u (insert-IsInserted l r x m' u.ordered),
    )

-- an image that starts where its mapping does, which is user memory
abbrev pub IsUserImage : LoadInfo → Type 0
IsUserImage info =
    (info.image_base ≡ info.mmap_base)
    × (0 < info.mmap_base)
    × (0 < info.mmap_length)
    × (info.mmap_base + info.mmap_length < 2 ^ 63)

-- `w'` is `w` with the mapping registered, in the memory map and in the map of images.
pub record IsRegistered (x : Loaded) (w w' : World) : Type 0 where
  pub memory_ordered : IsFrom 0 w'.memory
  pub images_ordered : IsFrom 0 w'.images
  pub memory_reads :
      (q : ℕ)
      → view w'.memory q ≡ (
          if within (point x.0.mmap_base) (image_end x.0) q
          then some (concat x.1 "::IMAGE_BASE")
          else view w.memory q)
  pub images_reads :
      (q : ℕ)
      → view w'.images q
        ≡ (if within (point x.0.mmap_base) (image_end x.0) q then some x else view w.images q)

-- nothing is registered for the points of the mapping
abbrev pub IsFresh : LoadInfo → World → Type 0
IsFresh info w =
    IsFree (point info.mmap_base) (image_end info) w.memory
    × IsFree (point info.mmap_base) (image_end info) w.images

abbrev pub IsOrdered : World → Type 0
IsOrdered w = IsFrom 0 w.memory × IsFrom 0 w.images

-- the blocks' bounds, as points: the first block is empty, and the second is the whole mapping
bounds :
    (x : Loaded)
    → IsUserImage x.0
    → (block_end (mmap_block x) ≤ point x.0.mmap_base)
      × (block_end (base_block x) ≡ image_end x.0)
      × (point x.0.mmap_base < image_end x.0)
unfolding block_end point
bounds x u = (omega (arith, u.0), omega (arith, u.0), omega arith)

-- the block that is the whole of the pages that `mmap` has given out does not end before them
fits_lem :
    (x : Loaded) (m : MemoryMap)
    → IsUserImage x.0
    → HasEntry (entry (point x.0.mmap_base) (image_end x.0) "JEMALLOC_HEAP") m
    → overhangs (point x.0.mmap_base) (block_end (base_block x)) m ≡ false
fits_lem x m u placed =
    let (empty, same, lt) = bounds x u in
    overhangs-HasEntry (entry (point x.0.mmap_base) (image_end x.0) "JEMALLOC_HEAP")
      (block_end (base_block x)) m placed lt
    ∙ ground (arith, same)

memory_lem :
    (x : Loaded) (m : MemoryMap)
    → IsUserImage x.0
    → IsFrom 0 m
    → HasEntry (entry (point x.0.mmap_base) (image_end x.0) "JEMALLOC_HEAP") m
    → (m' : MemoryMap) × (register_memory (mmap_block x) m ≡ some m)
      × (register_memory (base_block x) m ≡ some m')
      × Updates (point x.0.mmap_base) (image_end x.0) (some (concat x.1 "::IMAGE_BASE")) m m'
memory_lem x m u f placed =
    let (empty, same, lt) = bounds x u in
    let start : point x.0.image_base ≡ point x.0.mmap_base = ap point u.0 in
    let (m', run, up) =
      register_memory-Updates (base_block x) m f (omega (arith, start, same))
        (rw start (fits_lem x m u placed)) in
    (
      m',
      register_empty (mmap_block x) m empty,
      run,
      subst (λ r. Updates (point x.0.mmap_base) r (some (concat x.1 "::IMAGE_BASE")) m m') same
          (subst (λ l. Updates l (block_end (base_block x)) (some (concat x.1 "::IMAGE_BASE")) m m')
            start up),
    )

-- the pages first, as `load_pe` does, and then the image
pages_then-IsRegistered :
    (x : Loaded) (w : World)
    → IsUserImage x.0
    → IsOrdered w
    → IsFresh x.0 w
    → (m1 : MemoryMap) × (w' : World) × (map_pages ((x.0.mmap_base, x.0.mmap_length) ∷ []) w.memory
        ≡ some m1)
      × Updates (point x.0.mmap_base) (image_end x.0) (some "JEMALLOC_HEAP") w.memory m1
      × (register_pe x (record w { memory = m1 }) ≡ ok w')
      × IsRegistered x w w'
unfolding register_pe block_end
pages_then-IsRegistered x w u (fm, fi) (freem, freei) =
    let (m1, mapped, up1, placed) =
      wrapped_mmap-Updates x.0.mmap_base x.0.mmap_length w.memory fm u.1 u.2 u.3 freem in
    let (m2, run1, run2, up2) = memory_lem x m1 u up1.ordered placed in
    let (images, run, up) = register_image-Updates x w.images fi ((bounds x u).2) freei in
    (
      m1,
      record { memory = m2; images = images },
      map_pages_one x.0.mmap_base x.0.mmap_length w.memory m1 mapped,
      up1,
      rw (run, run1, run2) refl,
      record {
        memory_ordered = up2.ordered;
        images_ordered = up.ordered;
        memory_reads = λ q. up2.reads q ∙ ground (arith, up1.reads q);
        images_reads = up.reads;
      },
    )

clean : (file : System) (r : Result) → IsPlacing file → load_pe file ≡ ok r → IsClean r
clean file r placing loaded = subst (λ o. Returns IsClean o) loaded (load_pe-IsClean file placing)

mapped_lem :
    (info : LoadInfo) (image : Option Image) (mapped unmapped : List (ℕ × ℕ)) (m : Image)
    → image ≡ some m
    → IsClean (record { info = info; image = image; mapped = mapped; unmapped = unmapped })
    → mapped ≡ (info.mmap_base, info.mmap_length) ∷ []
mapped_lem info none mapped unmapped m e c = absurd (cc)
mapped_lem info (some k) mapped unmapped m e c = c.0

-- Where both maps are well-formed, mmap never gives out the address 0, and the file is loaded as an
-- image that starts where its mapping does, which is user memory and has nothing registered before
-- the call, the loader's mmap registers exactly the mapping as JEMALLOC_HEAP, and run_pe then
-- replaces that owner on the whole of it: in the end the mapping is the image's in the memory map
-- and in the map of images, no other point of the two maps has changed, both are well-formed, and
-- the entry point, if it is not null, is called once.
pub run_pe-IsRegistered :
    (code : ℕ → World → World) (id : String) (file : System) (w : World) (r : Result)
    (image : Image)
    → IsPlacing file
    → load_pe file ≡ ok r
    → r.image ≡ some image
    → IsUserImage r.info
    → IsOrdered w
    → IsFresh r.info w
    → (m1 : MemoryMap) × (w' : World) × (map_pages r.mapped w.memory ≡ some m1)
      × Updates (point r.info.mmap_base) (image_end r.info) (some "JEMALLOC_HEAP") w.memory m1
      × IsRegistered (r.info, id) w w'
      × (run_pe code id (some file) w ≡ ok (enter code r.info.entry_point w'))
unfolding run_pe
run_pe-IsRegistered code id file w r image placing loaded has_image u f free =
    let mapped =
      mapped_lem r.info r.image r.mapped r.unmapped image has_image (clean file r placing loaded) in
    let (m1, w', run, up, run', reg) = pages_then-IsRegistered (r.info, id) w u f free in
    (m1, w', rw mapped run, up, reg, rw (loaded, mapped, run, run') refl)

register_pe-no_info : (id : String) (w : World) → register_pe (no_info, id) w ≡ ok w
unfolding register_pe register_image point
register_pe-no_info id w =
    rw
      (
        erase_range_empty (2 ^ 63) (2 ^ 63) w.images (omega arith),
        insert_empty (2 ^ 63) (2 ^ 63) (no_info, id) w.images (omega arith),
        register_empty (mmap_block (no_info, id)) w.memory (unfold block_end point in omega arith),
        register_empty (base_block (no_info, id)) w.memory (unfold block_end point in omega arith),
      )
      refl

clean_lem :
    (info : LoadInfo) (image : Option Image) (mapped unmapped : List (ℕ × ℕ))
    → image ≡ none
    → IsClean (record { info = info; image = image; mapped = mapped; unmapped = unmapped })
    → (info ≡ no_info) × (unmapped ≡ mapped)
clean_lem info none mapped unmapped e c = c
clean_lem info (some m) mapped unmapped e c = absurd (cc)

-- Where the memory map is well-formed, mmap never gives out the address 0, load_pe ends without an
-- image, which is its answer to every error, and what it had mapped by then, if anything, was user
-- memory that had no owner, run_pe calls no code and leaves the map of images as it is. The memory
-- map stays as it is where nothing was mapped; else exactly the region mapped stays registered as
-- JEMALLOC_HEAP, though load_pe has unmapped it.
pub run_pe_failed :
    (code : ℕ → World → World) (id : String) (file : System) (w : World) (r : Result)
    → IsPlacing file
    → load_pe file ≡ ok r
    → r.image ≡ none
    → IsFrom 0 w.memory
    → ArePages r.mapped w.memory
    → (m' : MemoryMap) × IsMapped r.mapped w.memory m'
      × (r.unmapped ≡ r.mapped)
      × (run_pe code id (some file) w ≡ ok (record w { memory = m' }))
unfolding run_pe
run_pe_failed code id file w r placing loaded no_image f are_pages =
    let (blank_info, unmapped) =
      clean_lem r.info r.image r.mapped r.unmapped no_image (clean file r placing loaded) in
    let (m', run, is_mapped) =
      map_pages-IsMapped r.mapped w.memory (load_pe-IsSingle file r loaded) f are_pages in
    (
      m',
      is_mapped,
      unmapped,
      rw (loaded, run, blank_info, register_pe-no_info id (record w { memory = m' })) refl,
    )
