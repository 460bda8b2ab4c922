-- ===== src/Process/Caller.antt =====
-- efiperun.cpp: whom `find_pe_caller_id` names once `run_pe` has entered an image.
use Prim.Native.String.{String}
use efiperun_mod.Prelude.{
  ℕ, zero, suc, ◌≡◌, refl, ◌∙◌, Bool, false, ◌||◌, if◌then◌else◌, none, some, List, [], ◌∷◌,
  Bool-cases, inl, inr,
}
use efiperun_mod.RangeMap.{Map}
use efiperun_mod.RangeMap.Intervals.{within, view, IsFrom}
use efiperun_mod.RangeMap.Lookup.{lookup-view}
use efiperun_mod.Memory.{MemoryMap, string_eq, point}
use efiperun_mod.Loader.Relocation.{ok, Image}
use efiperun_mod.Loader.Header.{System}
use efiperun_mod.Loader.Load.{LoadInfo, Result, load_pe}
use efiperun_mod.Loader.Load.Cleanup.{IsPlacing}
use efiperun_mod.Process.{
  Loaded, loaded_eq, World, image_end, enter, run_pe, caller_of, find_pe_caller_id,
}
use efiperun_mod.Memory.Fresh.{IsFree}
use efiperun_mod.Process.Run.{IsUserImage, run_pe-IsRegistered}

-- one of the first `n` return addresses lies in the mapping
abbrev pub in_image : LoadInfo → ℕ → List ℕ → Bool
in_image info n [] = false
in_image info zero (ip ∷ ips) = false
in_image info (suc n) (ip ∷ ips) =
    let rest = in_image info n ips in
    within (point info.mmap_base) (image_end info) (point ip) || rest

caller_of-in_image :
    (x : Loaded) (n : ℕ) (stack : List ℕ) (images : Map Loaded)
    → IsFrom 0 images
    → ((q : ℕ)
        → view images q ≡ (if within (point x.0.mmap_base) (image_end x.0) q then some x else none))
    → caller_of n stack images ≡ (if in_image x.0 n stack then some x.1 else none)
unfolding caller_of
caller_of-in_image x n [] images f v = refl
caller_of-in_image x zero (ip ∷ ips) images f v = refl
caller_of-in_image x (suc n) (ip ∷ ips) images f v =
    let at = lookup-view (point ip) images f ∙ v (point ip) in
    elim (Bool-cases (within (point x.0.mmap_base) (image_end x.0) (point ip))) [
      | inl t ↦ rw (at, t) refl
      | inr t ↦ rw (at, t) (caller_of-in_image x n ips images f v)
    ]

-- Where the memory map is well-formed, mmap never gives out the address 0, and the file is loaded as
-- the first image, which starts where its mapping does, which is user memory and has nothing
-- registered before the call of run_pe, the image's code is entered in a state in which
-- find_pe_caller_id names the image exactly of the calls with a return address in its mapping among
-- the 80 innermost ones, and names nobody of the others.
pub find_pe_caller_id-run_pe :
    (code : ℕ → World → World) (id : String) (file : System) (memory : MemoryMap) (r : Result)
    (image : Image)
    → IsPlacing file
    → load_pe file ≡ ok r
    → r.image ≡ some image
    → IsUserImage r.info
    → IsFrom 0 memory
    → IsFree (point r.info.mmap_base) (image_end r.info) memory
    → (w' : World) × (run_pe code id (some file) (record { memory = memory; images = [] })
        ≡ ok (enter code r.info.entry_point w'))
      × ((stack : List ℕ)
          → find_pe_caller_id stack w'.images
            ≡ (if in_image r.info 80 stack then some id else none))
unfolding find_pe_caller_id view
find_pe_caller_id-run_pe code id file memory r image placing loaded has_image u f free =
    let (m1, w', mapped, up, reg, run) =
      run_pe-IsRegistered code id file (record { memory = memory; images = [] }) r image placing
        loaded has_image u (f, tt) (free, λ q lo hi. refl) in
    (
      w',
      run,
      λ stack.
          caller_of-in_image (r.info, id) 80 stack w'.images reg.images_ordered reg.images_reads,
    )
