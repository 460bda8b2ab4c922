-- ===== src/Loader/Header.antt =====
-- peloader.c: the part of `load_pe` that reads the file and tests its headers. The offsets are those
-- of the structures of PeImage.h.
pub mod Valid
use efiperun_mod.Prelude.{
  ℕ, ◌+◌, ◌*◌, ◌/◌, ◌%◌, ◌^◌, Bool, true, false, not, ◌&&◌, ◌||◌, ltb, ◌==◌, if◌then◌else◌, Option,
  none, some,
}
use efiperun_mod.Loader.Bytes.{Bytes}
use efiperun_mod.Loader.Relocation.{Outcome, ok, failed, ◌>>=◌, Image, read}

-- What the system answers: the size `fstat` reports, whether `malloc` has room for it, the bytes of
-- the file when `read` returns them all, the binary logarithm of the page size, and the address
-- `mmap` of the system gives for an address and a length; the wrapper that peloader.c calls in its
-- place returns what it gave and registers it, which `map_pages` in Process does.
pub record System : Type 0 where
  pub fstat : Option ℕ
  pub malloc : ℕ → Bool
  pub read_all : ℕ → Option Bytes
  pub page_shift : ℕ
  pub mmap : ℕ → ℕ → Option ℕ

-- the file as read into `pebuf`
unfoldable pub read_file : System → Outcome Image
read_file s = elim s.fstat [
  | none ↦ failed
  | some st_size ↦
      if s.malloc st_size
      then elim (s.read_all st_size) [
        | none ↦ failed
        | some bytes ↦ ok (record { start = 0; size = st_size; byte = bytes })
      ]
      else failed
]

-- `if (!c) ERROR(…)`
abbrev pub require : Bool → Outcome {0} Unit
require true = ok tt
require false = failed

-- where the headers are: `nt`, whether `oh64` is set, and what the file header says
pub record Header : Type 0 where
  pub nt : ℕ
  pub is_64 : Bool
  pub number_of_sections : ℕ
  pub optional_size : ℕ

-- the offset of `OptionalHeader`, and of the section headers after it
abbrev pub optional : ℕ → ℕ
optional nt = nt + 24

abbrev pub section_headers : Header → ℕ
section_headers h = optional h.nt + h.optional_size

abbrev sizeof_32 : ℕ
sizeof_32 = 224

abbrev sizeof_64 : ℕ
sizeof_64 = 240

-- `oh->Magic` is read only when the size is one of the two
unfoldable pub has_magic : ℕ → ℕ → Image → Outcome Bool
has_magic size nt pebuf =
    if size == sizeof_32
    then read 2 (optional nt) pebuf >>= (λ magic. ok (magic == 0x10b))
    else if size == sizeof_64
    then read 2 (optional nt) pebuf >>= (λ magic. ok (magic == 0x20b))
    else ok false

-- the tests from "Invalid MZ signature" to "PE Optional header invalid"
unfoldable pub check_headers : Image → Outcome Header
check_headers pebuf = read 2 0 pebuf >>= λ e_magic. require (e_magic == 0x5a4d) >>= λ _.
    read 4 60 pebuf >>= λ nt. read 4 nt pebuf >>= λ signature.
    require (signature == 0x4550) >>= λ _. read 2 (nt + 22) pebuf >>= λ characteristics.
    require (characteristics / 2 % 2 == 1) >>= λ _. read 2 (nt + 4) pebuf >>= λ machine.
    require (machine == 0x14c || machine == 0x8664) >>= λ _. read 2 (nt + 20) pebuf >>= λ size.
    require (not (ltb size 2)) >>= λ _. has_magic size nt pebuf >>= λ valid. require valid >>= λ _.
    read 2 (nt + 6) pebuf >>= λ count. ok (record {
      nt = nt;
      is_64 = size == sizeof_64;
      number_of_sections = count;
      optional_size = size;
    })

-- `oh(ImageBase)`, `oh(SizeOfImage)`, `oh(AddressOfEntryPoint)`, and the entry of `oh(DataDirectory)`
-- for the relocations
unfoldable pub image_base : Header → Image → Outcome ℕ
image_base h pebuf =
    if h.is_64 then read 8 (optional h.nt + 24) pebuf else read 4 (optional h.nt + 28) pebuf

unfoldable pub size_of_image : Header → Image → Outcome ℕ
size_of_image h pebuf = read 4 (optional h.nt + 56) pebuf

unfoldable pub address_of_entry_point : Header → Image → Outcome ℕ
address_of_entry_point h pebuf = read 4 (optional h.nt + 16) pebuf

unfoldable pub relocation_directory : Header → Image → Outcome (ℕ × ℕ)
relocation_directory h pebuf =
    let entry = optional h.nt + (if h.is_64 then 112 else 96) + 5 * 8 in
    read 4 entry pebuf >>= λ virtual_address.
    read 4 (entry + 4) pebuf >>= λ size. ok (virtual_address, size)
