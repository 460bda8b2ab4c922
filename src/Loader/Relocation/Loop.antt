-- ===== src/Loader/Relocation/Loop.antt =====
-- peloader.c: the loop of `load_pe` over the relocation blocks.
use efiperun_mod.Prelude.{
  ℕ, zero, suc, ◌+◌, ◌-◌, ◌*◌, ◌≡◌, ◌≤◌, ◌<◌, ◌∙◌, leb, ltb, ◌==◌, arith, Bool-cases, inl, inr,
}
use efiperun_mod.Loader.Bytes.{le}
use efiperun_mod.Loader.Relocation.{
  Image, read, process_block, relocate, relocate_block, entry_count,
}
use efiperun_mod.Loader.Relocation.Extent.{
  Within, Settles, Settles->>=, Settles-map, Within-refl, read-Settles,
}
use efiperun_mod.Loader.Relocation.Blocks.{Processed, process_block-Processed}

-- what the loop over the blocks does: it changes bytes of the mapping from `pbase` on
abbrev pub Relocated : ℕ → Image → Image → Type 0
Relocated pbase m m' = Within pbase (m.start + m.size) m m'

Processed-Relocated :
    (page pbase : ℕ) (m m' : Image)
    → pbase ≤ page
    → Within page (page + 4103) m m'
    → Relocated pbase m m'
Processed-Relocated page pbase m m' l w = record {
  start = w.start;
  size = w.size;
  below = λ q s. w.below q (omega arith);
  above = λ q s. w.outside q (inr s);
  outside = w.outside;
}

Relocated-trans :
    {pbase : ℕ} {m n o : Image} → Relocated pbase m n → Relocated pbase n o → Relocated pbase m o
Relocated-trans v w = record {
  start = w.start ∙ v.start;
  size = w.size ∙ v.size;
  below = λ q s. w.below q s ∙ v.below q s;
  above = λ q s. w.above q (rw (v.start, v.size) s) ∙ v.above q s;
  outside = λ q s. w.outside q (rw (v.start, v.size) s) ∙ v.outside q s;
}

abbrev pub IsRound : ℕ → ℕ → ℕ → Image → ℕ × Image → Type 0
IsRound pbase rel size_of_block m x =
    (x.0 ≡ rel + 8 + 2 * entry_count size_of_block) × Relocated pbase m x.1

relocate_block-IsRound :
    (pbase rel size_of_block : ℕ) (m : Image)
    → Settles (IsRound pbase rel size_of_block m) (relocate_block pbase rel size_of_block m)
unfolding relocate_block
relocate_block-IsRound pbase rel size_of_block m =
    Settles->>= (λ x. x ≡ le 4 rel m.byte) (IsRound pbase rel size_of_block m) (read 4 rel m) _
      (read-Settles 4 rel m)
      (λ va e. elim (Bool-cases (leb (m.start + m.size - pbase) va)) [
        | inl t ↦ rw t tt
        | inr t ↦ rw t (
            Settles-map (Processed (pbase + va) (entry_count size_of_block) (rel + 8) m)
              (IsRound pbase rel size_of_block m)
              (process_block (pbase + va) (entry_count size_of_block) (rel + 8) pbase m)
              (process_block-Processed (pbase + va) (entry_count size_of_block) (rel + 8) pbase m)
              (λ x p. (p.0, Processed-Relocated (pbase + va) pbase m x.1 (omega arith) p.1)))
      ])

-- With fuel for every 8 bytes of the directory the loop over the relocation blocks ends, and
-- where it neither fails nor faults it has changed bytes of the mapping from pbase on only.
pub relocate-Relocated :
    (fuel pbase rel end : ℕ) (m : Image)
    → 0 < fuel
    → end ≤ rel + 8 * fuel
    → Settles (Relocated pbase m) (relocate fuel pbase rel end m)
unfolding relocate
relocate-Relocated zero pbase rel end m p h = omega arith
relocate-Relocated (suc fuel) pbase rel end m p h = elim (Bool-cases (ltb (rel + 8) end)) [
  | inr t ↦ rw t (Within-refl pbase (m.start + m.size) m)
  | inl t ↦ rw t (
      Settles->>= (λ x. x ≡ le 4 (rel + 4) m.byte) (Relocated pbase m) (read 4 (rel + 4) m) _
        (read-Settles 4 (rel + 4) m)
        (λ size e. elim (Bool-cases (size == 0)) [
          | inl z ↦ rw z (Within-refl pbase (m.start + m.size) m)
          | inr z ↦ rw z (
              Settles->>= (IsRound pbase rel size m) (Relocated pbase m)
                (relocate_block pbase rel size m) _ (relocate_block-IsRound pbase rel size m)
                (λ next r.
                  Settles-map (Relocated pbase next.1) (Relocated pbase m)
                    (relocate fuel pbase next.0 end next.1)
                    (relocate-Relocated fuel pbase next.0 end next.1 (ground arith)
                      (omega (arith, r.0)))
                    (λ x w. Relocated-trans r.1 w)))
        ]))
]
