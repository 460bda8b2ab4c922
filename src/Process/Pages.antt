-- ===== src/Process/Pages.antt =====
-- peloader.c, efiperun.cpp: what the `mmap` of `load_pe`, which is `wrapped_mmap`, registers.
use efiperun_mod.Prelude.{ℕ, ◌+◌, ◌^◌, ◌≡◌, ◌<◌, refl, some, List, [], ◌∷◌}
use mathlib.Core.Path.{subst}
use efiperun_mod.RangeMap.Intervals.{IsFrom}
use efiperun_mod.RangeMap.Insert.{Updates}
use efiperun_mod.Memory.{MemoryMap, string_eq, point}
use efiperun_mod.Memory.Fresh.{IsFree}
use efiperun_mod.Memory.Heap.{region_end, wrapped_mmap, wrapped_mmap-Updates}
use efiperun_mod.Loader.Relocation.{Outcome, ok, failed, fault, out_of_fuel}
use efiperun_mod.Loader.Header.{System}
use efiperun_mod.Loader.Load.{prepare, fill, Result, recover, load_pe}
use efiperun_mod.Process.{map_pages}

pub map_pages_one :
    (p n : ℕ) (m m' : MemoryMap)
    → wrapped_mmap (some p) n m ≡ some (some p, m')
    → map_pages ((p, n) ∷ []) m ≡ some m'
unfolding map_pages
map_pages_one p n m m' e = rw e refl

-- no region, or one
abbrev pub IsSingle : List (ℕ × ℕ) → Type 0
IsSingle [] = Unit
IsSingle (x ∷ []) = Unit
IsSingle (x ∷ y ∷ pages) = ⊥

abbrev MapsOne : Outcome Result → Type 0
MapsOne (ok r) = IsSingle r.mapped
MapsOne failed = Unit
MapsOne fault = Unit
MapsOne out_of_fuel = Unit

recover-MapsOne {ℓ} :
    {A : Type ℓ} (r : Outcome A) (e : Result) (f : A → Outcome Result)
    → IsSingle e.mapped
    → ((x : A) → MapsOne (f x))
    → MapsOne (recover r e f)
recover-MapsOne (ok x) e f h g = g x
recover-MapsOne failed e f h g = h
recover-MapsOne fault e f h g = tt
recover-MapsOne out_of_fuel e f h g = tt

load_pe-MapsOne : (s : System) → MapsOne (load_pe s)
unfolding load_pe
load_pe-MapsOne s =
    recover-MapsOne (prepare s) _ _ tt (λ p. recover-MapsOne (fill p) _ _ tt (λ x. tt))

-- load_pe maps one region at most
pub load_pe-IsSingle : (s : System) (r : Result) → load_pe s ≡ ok r → IsSingle r.mapped
load_pe-IsSingle s r e = subst MapsOne e (load_pe-MapsOne s)

-- the regions are not empty, and are user memory without an owner
abbrev pub ArePages : List (ℕ × ℕ) → MemoryMap → Type 0
ArePages [] m = Unit
ArePages ((p, n) ∷ pages) m =
    (0 < p) × (0 < n) × (p + n < 2 ^ 63) × IsFree (point p) (region_end p n) m

-- The map `m'` after the regions were mapped over `m`, which are one at most: JEMALLOC_HEAP is the
-- owner of exactly the region.
abbrev pub IsMapped : List (ℕ × ℕ) → MemoryMap → MemoryMap → Type 0
IsMapped [] m m' = m' ≡ m
IsMapped ((p, n) ∷ []) m m' = Updates (point p) (region_end p n) (some "JEMALLOC_HEAP") m m'
IsMapped (x ∷ y ∷ pages) m m' = ⊥

pub map_pages-IsMapped :
    (pages : List (ℕ × ℕ)) (m : MemoryMap)
    → IsSingle pages
    → IsFrom 0 m
    → ArePages pages m
    → (m' : MemoryMap) × (map_pages pages m ≡ some m') × IsMapped pages m m'
map_pages-IsMapped [] m one f h = (m, unfold map_pages in refl, refl)
map_pages-IsMapped ((p, n) ∷ []) m one f (pos, some_pages, user, free) =
    let (m', run, up, placed) = wrapped_mmap-Updates p n m f pos some_pages user free in
    (m', map_pages_one p n m m' run, up)
map_pages-IsMapped (x ∷ y ∷ pages) m one f h = absurd one
