-- ===== src/Process.antt =====
-- efiperun.cpp: `run_pe` and `find_pe_caller_id`, over `g_memory_map` and `g_pe_map`.
pub mod Pages
pub mod Run
pub mod Unaligned
pub mod Caller
use Prim.Native.String.{String}
use efiperun_mod.Prelude.{
  ℕ, zero, suc, ◌+◌, ◌-◌, ◌%◌, ◌^◌, ◌≡◌, ◌↔◌, refl, ap, arith, Bool, true, false, ◌&&◌, ◌==◌,
  if◌then◌else◌, Eq, &&-eq-true, ==_iff, Option, none, some, List, [], ◌∷◌,
}
use efiperun_mod.RangeMap.{Map, lookup, insert, erase_range}
use efiperun_mod.Memory.{MemoryMap, MemoryBlock, string_eq, point, register_memory}
use efiperun_mod.Loader.Relocation.{Outcome, ok, out_of_fuel, ◌>>=◌}
use efiperun_mod.Loader.Header.{System}
use efiperun_mod.Loader.Load.{LoadInfo, load_pe}
use efiperun_mod.Memory.Heap.{wrapped_mmap}
use efiperun_mod.Services.{concat}

-- `operator==` of peloader.h
abbrev pub info_equal : LoadInfo → LoadInfo → Bool
info_equal s1 s2 =
    s1.mmap_base == s2.mmap_base
    && s1.mmap_length == s2.mmap_length
    && s1.image_base == s2.image_base
    && s1.entry_point == s2.entry_point

-- `pair<loadinfo,string>`
abbrev pub Loaded : Type 0
Loaded = LoadInfo × String

abbrev pub loaded_equal : Loaded → Loaded → Bool
loaded_equal (i, a) (j, b) = info_equal i j && string_eq.equal a b

info_iff : (i j : LoadInfo) → (info_equal i j ≡ true) ↔ (i ≡ j)
info_iff i j = (
  λ h.
      let (h2, d) =
        &&-eq-true
          (i.mmap_base == j.mmap_base
            && i.mmap_length == j.mmap_length
            && i.image_base == j.image_base)
          (i.entry_point == j.entry_point) h in
      let (h1, c) =
        &&-eq-true (i.mmap_base == j.mmap_base && i.mmap_length == j.mmap_length)
          (i.image_base == j.image_base) h2 in
      let (a, b) = &&-eq-true (i.mmap_base == j.mmap_base) (i.mmap_length == j.mmap_length) h1 in
      cc (
        (==_iff i.mmap_base j.mmap_base).0 a,
        (==_iff i.mmap_length j.mmap_length).0 b,
        (==_iff i.image_base j.image_base).0 c,
        (==_iff i.entry_point j.entry_point).0 d,
      ),
  λ e. rw e (ground arith),
)

pub loaded_iff : (x y : Loaded) → (loaded_equal x y ≡ true) ↔ (x ≡ y)
loaded_iff (i, a) (j, b) = (
  λ h.
      let (e, f) = &&-eq-true (info_equal i j) (string_eq.equal a b) h in
      cc ((info_iff i j).0 e, (string_eq.equal_iff a b).0 f),
  λ e.
      rw (ap (λ x. x.0) e, ap (λ x. x.1) e, (info_iff j j).1 refl, (string_eq.equal_iff b b).1 refl)
        refl,
)

instance abbrev pub loaded_eq : Eq Loaded
loaded_eq = record { equal = loaded_equal; equal_iff = loaded_iff }

-- `g_memory_map` and `g_pe_map`
pub record World : Type 0 where
  pub memory : MemoryMap
  pub images : Map Loaded

-- `pe_info.mmap_length+(intptr_t)pe_info.mmap_base`
abbrev pub image_end : LoadInfo → ℕ
image_end info = point ((info.mmap_length + info.mmap_base) % 2 ^ 64)

abbrev pub insert_image : Loaded → Option (Map Loaded) → Option (Map Loaded)
insert_image x none = none
insert_image x (some m) = some (insert (point x.0.mmap_base) (image_end x.0) x m).0

-- `g_pe_map.erase(…)` and `g_pe_map.insert(…)`
unfoldable pub register_image : Loaded → Map Loaded → Option (Map Loaded)
register_image x m = insert_image x (erase_range (point x.0.mmap_base) (image_end x.0) m)

-- the part of the mapping before the image, and the image; the sizes are `size_t` and wrap
abbrev pub mmap_block : Loaded → MemoryBlock
mmap_block (info, id) = record {
  start = info.mmap_base;
  size = (info.image_base + 2 ^ 64 - info.mmap_base) % 2 ^ 64;
  name = concat id "::IMAGE_MMAP";
}

abbrev pub base_block : Loaded → MemoryBlock
base_block (info, id) = record {
  start = info.image_base;
  size =
      (info.mmap_length + 2 ^ 64 - (info.image_base + 2 ^ 64 - info.mmap_base) % 2 ^ 64) % 2 ^ 64;
  name = concat id "::IMAGE_BASE";
}

-- what may run out of fuel, as an outcome
abbrev pub ended {ℓ} : {A : Type ℓ} → Option A → Outcome A
ended none = out_of_fuel
ended (some x) = ok x

-- the registrations that `run_pe` makes
unfoldable pub register_pe : Loaded → World → Outcome World
register_pe x w = ended (register_image x w.images) >>= λ images.
    ended (register_memory (mmap_block x) w.memory) >>= λ before.
    ended (register_memory (base_block x) before) >>= λ memory.
    ok (record { memory = memory; images = images })

-- `if (entry) start_pe(…)`, where `code` is what a call of the image's code does
abbrev pub enter : (ℕ → World → World) → ℕ → World → World
enter code entry w = if entry == 0 then w else code entry w

-- after a call of `wrapped_mmap`
abbrev pub then_map :
    (MemoryMap → Option MemoryMap) → Option (Option ℕ × MemoryMap) → Option MemoryMap
then_map next none = none
then_map next (some (p, m)) = next m

-- `g_memory_map` once `load_pe` has returned, where `pages` are the regions that it has mapped: in
-- peloader.c `mmap` stands for `wrapped_mmap`, and `munmap` for no function of the program
unfoldable pub map_pages : List (ℕ × ℕ) → MemoryMap → Option MemoryMap
map_pages [] m = some m
map_pages ((p, length) ∷ pages) m = then_map (map_pages pages) (wrapped_mmap (some p) length m)

-- `run_pe`, where `open` gives the file or fails
unfoldable pub run_pe : (ℕ → World → World) → String → Option System → World → Outcome World
run_pe code id none w = ok w
run_pe code id (some file) w = load_pe file >>= λ r.
    ended (map_pages r.mapped w.memory) >>= λ memory.
    register_pe (r.info, id) (record w { memory = memory }) >>= λ w'.
    ok (enter code r.info.entry_point w')

-- `if (map) return map->second.c_str();`, before the next round
abbrev pub name_or : Option Loaded → Option String → Option String
name_or none next = next
name_or (some (info, id)) next = some id

-- the loop of `find_pe_caller_id` over the return addresses that `backtrace` puts into its buffer
-- of `n` entries
unfoldable pub caller_of : ℕ → List ℕ → Map Loaded → Option String
caller_of n [] images = none
caller_of zero (ip ∷ ips) images = none
caller_of (suc n) (ip ∷ ips) images = name_or (lookup (point ip) images) (caller_of n ips images)

unfoldable pub find_pe_caller_id : List ℕ → Map Loaded → Option String
find_pe_caller_id stack images = caller_of 80 stack images
