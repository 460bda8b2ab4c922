-- ===== src/Loader/Relocation.antt =====
-- peloader.c: `LdrProcessRelocationBlock`, and the loop of `load_pe` over the relocation blocks.
pub mod Fixups
pub mod Extent
pub mod Blocks
pub mod Loop
use efiperun_mod.Prelude.{
  ℕ, zero, suc, ◌+◌, ◌-◌, ◌*◌, ◌/◌, ◌%◌, ◌^◌, Bool, true, false, ◌&&◌, leb, ltb, ◌==◌,
  if◌then◌else◌,
}
use efiperun_mod.Loader.Bytes.{Bytes, le, set_le}

-- How a part of the loader ends: with a value, at the label `error`, with an access outside the
-- mapping or the file, which is undefined, or by running out of the model's fuel.
pub data Outcome {ℓ} (A : Type ℓ) : Type ℓ where
  ok : A → Outcome A
  failed : Outcome A
  fault : Outcome A
  out_of_fuel : Outcome A

infixl 5 ◌>>=◌
abbrev pub ◌>>=◌ {ℓ κ} : {A : Type ℓ} {B : Type κ} → Outcome A → (A → Outcome B) → Outcome B
ok a >>= f = f a
failed >>= f = failed
fault >>= f = fault
out_of_fuel >>= f = out_of_fuel

-- the mapping that holds the image
pub record Image : Type 0 where
  pub start : ℕ
  pub size : ℕ
  pub byte : Bytes

-- whether `k` bytes at `a` lie in the mapping
unfoldable pub in_image : ℕ → ℕ → Image → Bool
in_image k a m = leb m.start a && leb (a + k) (m.start + m.size)

unfoldable pub read : ℕ → ℕ → Image → Outcome ℕ
read k a m = if in_image k a m then ok (le k a m.byte) else fault

-- `*(T *)a += d`, where `T` has `k` bytes
unfoldable pub add_to : ℕ → ℕ → ℕ → Image → Outcome Image
add_to k a d m =
    if in_image k a m
    then ok (record m { byte = set_le k a ((le k a m.byte + d) % 256 ^ k) m.byte })
    else fault

-- `HIWORD` and `LOWORD`; `DWORD_PTR` has 32 bits
unfoldable pub hiword : ℕ → ℕ
hiword l = l % 2 ^ 32 / 2 ^ 16

unfoldable pub loword : ℕ → ℕ
loword l = l % 2 ^ 16

-- The body of the loop, for one entry: the offset is its low 12 bits, the type its high 4. `delta`
-- is an `intptr_t`, as its bit pattern.
unfoldable pub fixup : ℕ → ℕ → ℕ → Image → Outcome Image
fixup page reloc delta m =
    let offset = reloc % 4096 in
    let type = reloc / 4096 in
    if type == 0
    then ok m
    else if type == 1
    then add_to 2 (page + offset) (hiword delta) m
    else if type == 2
    then add_to 2 (page + offset) (loword delta) m
    else if type == 3
    then add_to 4 (page + offset) delta m
    else if type == 10
    then add_to 8 (page + offset) delta m
    else failed

-- `LdrProcessRelocationBlock`: `NULL` is `failed`, else the address after the entries
unfoldable pub process_block : ℕ → ℕ → ℕ → ℕ → Image → Outcome (ℕ × Image)
process_block page zero relocs delta m = ok (relocs, m)
process_block page (suc count) relocs delta m = read 2 relocs m >>= λ reloc.
    fixup page reloc delta m >>= λ m'. process_block page count (relocs + 2) delta m'

-- `(rel->SizeOfBlock-sizeof(*rel))/sizeof(USHORT)`, a `size_t`, as the `UINT` that is passed
unfoldable pub entry_count : ℕ → ℕ
entry_count size_of_block = (size_of_block + 2 ^ 64 - 8) % 2 ^ 64 / 2 % 2 ^ 32

-- one round of the loop in `load_pe`, at a block whose size is not 0
unfoldable pub relocate_block : ℕ → ℕ → ℕ → Image → Outcome (ℕ × Image)
relocate_block pbase rel size_of_block m = read 4 rel m >>= λ virtual_address.
    if leb (m.start + m.size - pbase) virtual_address
    then failed
    else process_block (pbase + virtual_address) (entry_count size_of_block) (rel + 8) pbase m

-- The loop: `rel<end-1` compares with the block before `end`.
unfoldable pub relocate : ℕ → ℕ → ℕ → ℕ → Image → Outcome Image
relocate zero pbase rel end m = out_of_fuel
relocate (suc fuel) pbase rel end m =
    if ltb (rel + 8) end
    then (read 4 (rel + 4) m >>= λ size_of_block.
        if size_of_block == 0
        then ok m
        else (relocate_block pbase rel size_of_block m >>= λ next.
            relocate fuel pbase next.0 end next.1))
    else ok m
