-- ===== src/Loader/Sections.antt =====
-- peloader.c: the loop of `load_pe` that copies the sections into the mapping.
pub mod Layout
use efiperun_mod.Prelude.{
  ℕ, zero, suc, ◌+◌, ◌-◌, ◌*◌, ◌≡◌, ◌≤◌, ◌<◌, refl, ap, ◌∙◌, Bool, true, false, ◌&&◌, ◌||◌, leb,
  ltb, ◌==◌, if◌then◌else◌, arith, Bool-cases, inl, inr, List, [], ◌∷◌,
}
use efiperun_mod.Loader.Bytes.{Bytes, le}
use efiperun_mod.Loader.Relocation.{
  Outcome, ok, failed, fault, out_of_fuel, Image, in_image, read, ◌>>=◌,
}
use efiperun_mod.Loader.Header.{require}

-- `memcpy(dst, src, n)` from `src` of `pebuf` to `dst` of the mapping; no byte is touched when `n` is 0
unfoldable pub copy : ℕ → ℕ → ℕ → Image → Image → Outcome Image
copy dst src n pebuf m =
    if n == 0
    then ok m
    else if in_image n src pebuf && in_image n dst m
    then ok (record m {
      byte = λ q. if leb dst q && ltb q (dst + n) then pebuf.byte (src + (q - dst)) else m.byte q;
    })
    else fault

-- the loop, from the section header at `shdr` on
unfoldable pub copy_sections : ℕ → ℕ → ℕ → Image → Image → Outcome Image
copy_sections zero shdr pbase pebuf m = ok m
copy_sections (suc i) shdr pbase pebuf m = read 4 (shdr + 12) pebuf >>= λ virtual_address.
    read 4 (shdr + 20) pebuf >>= λ pointer. require (virtual_address == pointer) >>= λ _.
    read 4 (shdr + 16) pebuf >>= λ size.
    copy (pbase + virtual_address) pointer size pebuf m >>= λ m'.
    copy_sections i (shdr + 40) pbase pebuf m'
