-- ===== src/Loader/Load/Cleanup.antt =====
-- peloader.c: what `load_pe` leaves mapped, whatever way it ends.
use efiperun_mod.Prelude.{
  ℕ, zero, suc, ◌+◌, ◌*◌, ◌/◌, ◌%◌, ◌≡◌, ◌<◌, refl, sym, ◌∙◌, Bool, true, false, not, ◌&&◌, ◌||◌,
  ltb, ◌==◌, if◌then◌else◌, arith, Option, none, some, List, [], ◌∷◌, Bool-cases, Option-cases, inl,
  inr,
}
use efiperun_mod.Loader.Bytes.{le}
use efiperun_mod.Loader.Relocation.{
  Outcome, ok, failed, fault, out_of_fuel, Image, in_image, read, relocate,
}
use efiperun_mod.Loader.Relocation.Extent.{Settles, Settles->>=, Settles-map, read-Settles}
use efiperun_mod.Loader.Relocation.Loop.{Relocated, relocate-Relocated}
use efiperun_mod.Loader.Header.{
  System, read_file, Header, require, has_magic, check_headers, image_base, size_of_image,
  address_of_entry_point, relocation_directory, section_headers,
}
use efiperun_mod.Loader.Sections.{copy, copy_sections}
use efiperun_mod.Loader.Steps.{after_read, after_require}
use efiperun_mod.Loader.Load.{
  region, Mapped, on_mmap, prepare, relocate_image, LoadInfo, no_info, blank, fill, Result, recover,
  load_pe,
}

-- any value will do: only the fuel is in question
abbrev Any {ℓ} : {A : Type ℓ} → A → Type 0
Any x = Unit

read-Any : (k a : ℕ) (m : Image) → Settles Any (read k a m)
read-Any k a m =
    Settles-map (λ x. x ≡ le k a m.byte) Any (read k a m) (read-Settles k a m) (λ x e. tt)

require-Any : (b : Bool) → Settles Any (require b)
require-Any true = tt
require-Any false = tt

if-Any {ℓ} : {A : Type ℓ} (b : Bool) (x : A) → Settles Any (if b then failed else ok x)
if-Any true x = tt
if-Any false x = tt

has_magic-Any : (size nt : ℕ) (m : Image) → Settles Any (has_magic size nt m)
unfolding has_magic
has_magic-Any size nt m = elim (Bool-cases (size == 224)) [
  | inl t ↦ rw t (after_read Any 2 (nt + 24) m _ (λ x e. tt))
  | inr t ↦ elim (Bool-cases (size == 240)) [
    | inl w ↦ rw (t, w) (after_read Any 2 (nt + 24) m _ (λ x e. tt))
    | inr w ↦ rw (t, w) tt
  ]
]

check_headers-Any : (m : Image) → Settles Any (check_headers m)
unfolding check_headers
check_headers-Any m = after_read Any 2 0 m _ (λ e_magic e.
    after_require Any (e_magic == 0x5a4d) _ (λ t. after_read Any 4 60 m _ (λ nt e.
      after_read Any 4 nt m _ (λ signature e. after_require Any (signature == 0x4550) _ (λ t.
        after_read Any 2 (nt + 22) m _ (λ characteristics e.
          after_require Any (characteristics / 2 % 2 == 1) _ (λ t.
            after_read Any 2 (nt + 4) m _ (λ machine e.
              after_require Any (machine == 0x14c || machine == 0x8664) _ (λ t.
                after_read Any 2 (nt + 20) m _ (λ size e.
                  after_require Any (not (ltb size 2)) _ (λ t.
                    Settles->>= Any Any (has_magic size nt m) _ (has_magic-Any size nt m)
                      (λ valid u.
                        after_require Any valid _
                          (λ t. after_read Any 2 (nt + 6) m _ (λ count e. tt))))))))))))))

-- an image over the same region
abbrev Kept : Image → Image → Type 0
Kept m m' = (m'.start ≡ m.start) × (m'.size ≡ m.size)

copy-Kept : (dst src n : ℕ) (f m : Image) → Settles (Kept m) (copy dst src n f m)
unfolding copy
copy-Kept dst src n f m = elim (Bool-cases (n == 0)) [
  | inl t ↦ rw t (refl, refl)
  | inr t ↦ elim (Bool-cases (in_image n src f && in_image n dst m)) [
    | inl i ↦ rw (t, i) (refl, refl)
    | inr i ↦ rw (t, i) tt
  ]
]

copy_sections-Kept :
    (i shdr pbase : ℕ) (f m : Image) → Settles (Kept m) (copy_sections i shdr pbase f m)
unfolding copy_sections
copy_sections-Kept zero shdr pbase f m = (refl, refl)
copy_sections-Kept (suc i) shdr pbase f m = after_read (Kept m) 4 (shdr + 12) f _ (λ va e.
    after_read (Kept m) 4 (shdr + 20) f _ (λ pointer e.
      after_require (Kept m) (va == pointer) _ (λ t.
        after_read (Kept m) 4 (shdr + 16) f _ (λ size e.
          Settles->>= (Kept m) (Kept m) (copy (pbase + va) pointer size f m) _
            (copy-Kept (pbase + va) pointer size f m)
            (λ m' k.
              Settles-map (Kept m') (Kept m) (copy_sections i (shdr + 40) pbase f m')
                (copy_sections-Kept i (shdr + 40) pbase f m') (λ x j. (j.0 ∙ k.0, j.1 ∙ k.1)))))))

directory-Any : (h : Header) (m : Image) → Settles Any (relocation_directory h m)
unfolding relocation_directory
directory-Any h m =
    after_read Any 4 (h.nt + 24 + (if h.is_64 then 112 else 96) + 5 * 8) m _ (λ va e.
      after_read Any 4 (h.nt + 24 + (if h.is_64 then 112 else 96) + 5 * 8 + 4) m _ (λ size e. tt))

entry-Any : (h : Header) (m : Image) → Settles Any (address_of_entry_point h m)
unfolding address_of_entry_point
entry-Any h m = read-Any 4 (h.nt + 24 + 16) m

relocate-Kept :
    (p : Mapped) (d : ℕ × ℕ) (m : Image)
    → Settles (Kept m) (relocate (suc d.1) p.pbase (p.pbase + d.0) (p.pbase + d.0 + d.1) m)
relocate-Kept p d m =
    Settles-map (Relocated p.pbase m) (Kept m)
      (relocate (suc d.1) p.pbase (p.pbase + d.0) (p.pbase + d.0 + d.1) m)
      (relocate-Relocated (suc d.1) p.pbase (p.pbase + d.0) (p.pbase + d.0 + d.1) m (omega arith)
        (omega arith))
      (λ x w. (w.start, w.size))

relocate_image-Kept : (p : Mapped) (m : Image) → Settles (Kept m) (relocate_image p m)
unfolding relocate_image
relocate_image-Kept p m = elim (Bool-cases (p.base == 0)) [
  | inr t ↦ rw t (refl, refl)
  | inl t ↦ rw t (
      Settles->>= Any (Kept m) (relocation_directory p.header p.pebuf) _
        (directory-Any p.header p.pebuf) (λ d u. relocate-Kept p d m))
]

-- the region that is reported is the region of the image
abbrev Filled : Mapped → LoadInfo × Image → Type 0
Filled p x =
    (x.0.mmap_base ≡ p.memptr)
    × (x.0.mmap_length ≡ p.size)
    × (x.1.start ≡ p.memptr)
    × (x.1.size ≡ p.size)

fill-Filled : (p : Mapped) → Settles (Filled p) (fill p)
unfolding fill
fill-Filled p =
    Settles->>= (Kept (blank p)) (Filled p)
      (copy_sections p.header.number_of_sections (section_headers p.header) p.pbase p.pebuf
        (blank p))
      _
      (copy_sections-Kept p.header.number_of_sections (section_headers p.header) p.pbase p.pebuf
        (blank p))
      (λ m k.
        Settles->>= (Kept m) (Filled p) (relocate_image p m) _ (relocate_image-Kept p m) (λ m' j.
          Settles->>= Any (Filled p) (address_of_entry_point p.header p.pebuf) _
            (entry-Any p.header p.pebuf) (λ e u. (refl, refl, j.0 ∙ k.0, j.1 ∙ k.1))))

read_file-Any : (s : System) → Settles Any (read_file s)
unfolding read_file
read_file-Any s = elim (Option-cases s.fstat) [
  | inl e ↦ rw e tt
  | inr (n, e) ↦ elim (Bool-cases (s.malloc n)) [
    | inr t ↦ rw (e, t) tt
    | inl t ↦ elim (Option-cases (s.read_all n)) [
      | inl r ↦ rw (e, t, r) tt
      | inr (bytes, r) ↦ rw (e, t, r) tt
    ]
  ]
]

image_base-Any : (h : Header) (m : Image) → Settles Any (image_base h m)
unfolding image_base
image_base-Any h m = elim (Bool-cases h.is_64) [
  | inl t ↦ rw t (read-Any 8 (h.nt + 24 + 24) m)
  | inr t ↦ rw t (read-Any 4 (h.nt + 24 + 28) m)
]

size_of_image-Any : (h : Header) (m : Image) → Settles Any (size_of_image h m)
unfolding size_of_image
size_of_image-Any h m = read-Any 4 (h.nt + 24 + 56) m

region-Any : (shift ib soi : ℕ) → Settles Any (region shift ib soi)
unfolding region
region-Any shift ib soi = if-Any _ _

-- `mmap` never gives out the address 0
abbrev pub IsPlacing : System → Type 0
IsPlacing s = (a l p : ℕ) → s.mmap a l ≡ some p → 0 < p

abbrev Placed : Mapped → Type 0
Placed p = 0 < p.memptr

on_mmap-Placed :
    (m : Image) (h : Header) (ib : ℕ) (r : ℕ × ℕ) (o : Option ℕ)
    → ((p : ℕ) → o ≡ some p → 0 < p)
    → Settles Placed (on_mmap m h ib r o)
on_mmap-Placed m h ib r none g = tt
on_mmap-Placed m h ib r (some p) g = g p refl

prepare-Placed : (s : System) → IsPlacing s → Settles Placed (prepare s)
unfolding prepare
prepare-Placed s placing = Settles->>= Any Placed (read_file s) _ (read_file-Any s) (λ m u.
    Settles->>= Any Placed (check_headers m) _ (check_headers-Any m) (λ h u.
      Settles->>= Any Placed (image_base h m) _ (image_base-Any h m) (λ ib u.
        Settles->>= Any Placed (size_of_image h m) _ (size_of_image-Any h m) (λ soi u.
          Settles->>= Any Placed (region s.page_shift ib soi) _ (region-Any s.page_shift ib soi)
            (λ r u. on_mmap-Placed m h ib r (s.mmap r.0 r.1) (placing r.0 r.1))))))

-- What is still mapped is the region that the `loadinfo` reports, and on an error nothing is.
abbrev pub IsClean : Result → Type 0
IsClean r = elim r.image [
  | none ↦ (r.info ≡ no_info) × (r.unmapped ≡ r.mapped)
  | some m ↦
      (r.mapped ≡ (r.info.mmap_base, r.info.mmap_length) ∷ [])
      × (r.unmapped ≡ [])
      × (m.start ≡ r.info.mmap_base)
      × (m.size ≡ r.info.mmap_length)
]

-- a value that satisfies `P`, or a fault
abbrev pub Returns {ℓ} : {A : Type ℓ} → (A → Type 0) → Outcome A → Type 0
Returns P (ok x) = P x
Returns P failed = ⊥
Returns P fault = Unit
Returns P out_of_fuel = ⊥

recover-Returns {ℓ} :
    {A : Type ℓ} (P : A → Type 0) (Q : Result → Type 0) (r : Outcome A) (e : Result)
    (f : A → Outcome Result)
    → Settles P r
    → Q e
    → ((x : A) → P x → Returns Q (f x))
    → Returns Q (recover r e f)
recover-Returns P Q (ok x) e f s q g = g x s
recover-Returns P Q failed e f s q g = q
recover-Returns P Q fault e f s q g = tt
recover-Returns P Q out_of_fuel e f s q g = s

unmap_lem :
    (p : Mapped)
    → Placed p
    → if◌then◌else◌ {A = List (ℕ × ℕ)} (p.memptr == 0) [] ((p.memptr, p.size) ∷ [])
      ≡ (p.memptr, p.size) ∷ []
unmap_lem p h = ground arith

-- Where mmap never gives out the address 0, load_pe ends, unless it faults, and returns either
-- the region of the image, which is then the one region mapped, or after any error an empty
-- loadinfo with every region it mapped unmapped.
pub load_pe-IsClean : (s : System) → IsPlacing s → Returns IsClean (load_pe s)
unfolding load_pe
load_pe-IsClean s placing =
    recover-Returns Placed IsClean (prepare s) _ _ (prepare-Placed s placing) (refl, refl)
      (λ p h.
        recover-Returns (Filled p) IsClean (fill p) _ _ (fill-Filled p) (refl, unmap_lem p h)
          (λ x f. (rw (f.0, f.1) refl, refl, f.2 ∙ sym f.0, f.3 ∙ sym f.1)))
