-- ===== src/Loader/Load.antt =====
-- peloader.c: `load_pe`, put together, and the `loadinfo` of peloader.h.
pub mod Region
pub mod Cleanup
use efiperun_mod.Prelude.{
  ℕ, suc, ◌+◌, ◌-◌, ◌*◌, ◌/◌, ◌%◌, ◌^◌, Bool, true, false, ltb, ◌==◌, if◌then◌else◌, Option, none,
  some, List, [], ◌∷◌,
}
use efiperun_mod.Loader.Relocation.{Outcome, ok, failed, fault, out_of_fuel, ◌>>=◌, Image, relocate}
use efiperun_mod.Loader.Header.{
  System, read_file, Header, check_headers, image_base, size_of_image, address_of_entry_point,
  relocation_directory, section_headers,
}
use efiperun_mod.Loader.Sections.{copy_sections}

-- `a<b` on the bit patterns of two `intptr_t`
unfoldable pub slt : ℕ → ℕ → Bool
slt a b = ltb ((a + 2 ^ 63) % 2 ^ 64) ((b + 2 ^ 63) % 2 ^ 64)

-- `x&~page_bits` and `x|page_bits`; a page size is a power of two
unfoldable pub page_start : ℕ → ℕ → ℕ
page_start page_shift x = x / 2 ^ page_shift * 2 ^ page_shift

unfoldable pub page_last : ℕ → ℕ → ℕ
page_last page_shift x = page_start page_shift x + (2 ^ page_shift - 1)

-- `base` and `size`, or "Invalid ImageBase/SizeOfImage"
unfoldable pub region : ℕ → ℕ → ℕ → Outcome (ℕ × ℕ)
region page_shift image_base size_of_image =
    let base = page_start page_shift image_base in
    let size = (page_last page_shift ((image_base + size_of_image) % 2 ^ 64) + 1) % 2 ^ 64 in
    if slt size base then failed else ok (base, (size + 2 ^ 64 - base) % 2 ^ 64)

-- the variables of `load_pe` once `mmap` has succeeded
pub record Mapped : Type 0 where
  pub pebuf : Image
  pub header : Header
  pub base : ℕ
  pub size : ℕ
  pub memptr : ℕ
  pub pbase : ℕ

-- after `mmap`, whose result is the last argument: `MAP_FAILED` is `none`
abbrev pub on_mmap : Image → Header → ℕ → ℕ × ℕ → Option ℕ → Outcome Mapped
on_mmap pebuf h image_base r none = failed
on_mmap pebuf h image_base r (some memptr) = ok (record {
  pebuf = pebuf;
  header = h;
  base = r.0;
  size = r.1;
  memptr = memptr;
  pbase = if r.0 == 0 then memptr else image_base;
})

-- up to the call of `mmap`
unfoldable pub prepare : System → Outcome Mapped
prepare s = read_file s >>= λ pebuf. check_headers pebuf >>= λ h. image_base h pebuf >>= λ ib.
    size_of_image h pebuf >>= λ soi.
    region s.page_shift ib soi >>= λ r. on_mmap pebuf h ib r (s.mmap r.0 r.1)

-- `if (!base)`: the blocks are relocated. Each takes 8 bytes of the directory or more.
unfoldable pub relocate_image : Mapped → Image → Outcome Image
relocate_image p m =
    if p.base == 0
    then (relocation_directory p.header p.pebuf >>= λ d.
        relocate (suc d.1) p.pbase (p.pbase + d.0) (p.pbase + d.0 + d.1) m)
    else ok m

pub record LoadInfo : Type 0 where
  pub mmap_base : ℕ
  pub mmap_length : ℕ
  pub image_base : ℕ
  pub entry_point : ℕ

-- `loadinfo ret={}`
abbrev pub no_info : LoadInfo
no_info = record { mmap_base = 0; mmap_length = 0; image_base = 0; entry_point = 0 }

-- an anonymous mapping holds zeros
abbrev pub blank : Mapped → Image
blank p = record { start = p.memptr; size = p.size; byte = λ q. 0 }

-- from the sections to the entry point
unfoldable pub fill : Mapped → Outcome (LoadInfo × Image)
fill p =
    copy_sections p.header.number_of_sections (section_headers p.header) p.pbase p.pebuf (blank p)
    >>= λ m. relocate_image p m >>= λ m'. address_of_entry_point p.header p.pebuf >>= λ entry. ok (
      record {
        mmap_base = p.memptr;
        mmap_length = p.size;
        image_base = p.pbase;
        entry_point = p.pbase + entry;
      },
      m',
    )

-- What `load_pe` leaves behind: the `loadinfo`, the image, and the regions it has mapped and unmapped.
pub record Result : Type 0 where
  pub info : LoadInfo
  pub image : Option Image
  pub mapped : List (ℕ × ℕ)
  pub unmapped : List (ℕ × ℕ)

-- the code at the label `error`, with what is to be unmapped
abbrev pub at_error : List (ℕ × ℕ) → List (ℕ × ℕ) → Result
at_error mapped unmapped = record {
  info = no_info;
  image = none;
  mapped = mapped;
  unmapped = unmapped;
}

-- `goto error` leads to `e`
abbrev pub recover {ℓ} : {A : Type ℓ} → Outcome A → Result → (A → Outcome Result) → Outcome Result
recover (ok x) e f = f x
recover failed e f = ok e
recover fault e f = fault
recover out_of_fuel e f = out_of_fuel

unfoldable pub load_pe : System → Outcome Result
load_pe s = recover (prepare s) (at_error [] []) (λ p.
    let all = (p.memptr, p.size) ∷ [] in
    recover (fill p) (at_error all (if p.memptr == 0 then [] else all))
      (λ x. ok (record { info = x.0; image = some x.1; mapped = all; unmapped = [] })))
