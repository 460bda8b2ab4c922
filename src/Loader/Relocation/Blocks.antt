-- ===== src/Loader/Relocation/Blocks.antt =====
-- peloader.c: `LdrProcessRelocationBlock` over the entries of a block.
use efiperun_mod.Prelude.{
  ℕ, zero, suc, ◌+◌, ◌*◌, ◌≡◌, ◌≤◌, refl, ap, ◌∙◌, true, arith, List, [], ◌∷◌, ◌⊎◌, inl, inr,
}
use efiperun_mod.Loader.Bytes.{le}
use efiperun_mod.Loader.Relocation.{
  Outcome, ok, failed, fault, out_of_fuel, Image, in_image, read, fixup, process_block, ◌>>=◌,
}
use efiperun_mod.Loader.Relocation.Extent.{
  Within, Settles, Settles->>=, Settles-map, Within-refl, read-Settles, Within-trans, fixup-Within,
}

-- what `process_block` returns: the address after the entries, and an image changed within the page
abbrev pub Processed : ℕ → ℕ → ℕ → Image → ℕ × Image → Type 0
Processed page count relocs m x = (x.0 ≡ relocs + 2 * count) × Within page (page + 4103) m x.1

-- LdrProcessRelocationBlock, where it neither fails nor faults, returns the address after its
-- entries and changes bytes of the mapping from page up to page + 4103 only.
pub process_block-Processed :
    (page count relocs delta : ℕ) (m : Image)
    → Settles (Processed page count relocs m) (process_block page count relocs delta m)
unfolding process_block
process_block-Processed page zero relocs delta m = (omega arith, Within-refl page (page + 4103) m)
process_block-Processed page (suc count) relocs delta m =
    Settles->>= (λ x. x ≡ le 2 relocs m.byte) (Processed page (suc count) relocs m)
      (read 2 relocs m) _ (read-Settles 2 relocs m)
      (λ reloc e.
        Settles->>= (Within page (page + 4103) m) (Processed page (suc count) relocs m)
          (fixup page reloc delta m) _ (fixup-Within page reloc delta m)
          (λ m' w.
            Settles-map (Processed page count (relocs + 2) m') (Processed page (suc count) relocs m)
              (process_block page count (relocs + 2) delta m')
              (process_block-Processed page count (relocs + 2) delta m')
              (λ x p. (p.0 ∙ omega arith, Within-trans w p.1))))

-- The block's entries as they stand in `m`, and the fixups of a list of entries, in order.
abbrev pub entry_words : ℕ → ℕ → Image → List ℕ
entry_words zero relocs m = []
entry_words (suc count) relocs m = le 2 relocs m.byte ∷ entry_words count (relocs + 2) m

abbrev pub fixups : ℕ → ℕ → List ℕ → Image → Outcome Image
fixups page delta [] m = ok m
fixups page delta (e ∷ es) m = fixup page e delta m >>= fixups page delta es

-- the table is in the mapping, and no fixup of the page reaches it
abbrev pub IsApart : ℕ → ℕ → ℕ → Image → Type 0
IsApart page count relocs m =
    (in_image (2 * count) relocs m ≡ true) × ((relocs + 2 * count ≤ page) ⊎ (page + 4103 ≤ relocs))

Within-le :
    (low high k a : ℕ) (m m' : Image)
    → (a + k ≤ low) ⊎ (high ≤ a)
    → Within low high m m'
    → le k a m'.byte ≡ le k a m.byte
unfolding le
Within-le low high zero a m m' c w = refl
Within-le low high (suc k) a m m' (inl h) w =
    rw (w.below a (omega arith), Within-le low high k (suc a) m m' (inl (omega arith)) w) refl
Within-le low high (suc k) a m m' (inr h) w =
    rw (w.above a h, Within-le low high k (suc a) m m' (inr (omega arith)) w) refl

Within-entry_words :
    (page count relocs : ℕ) (m m' : Image)
    → (relocs + 2 * count ≤ page) ⊎ (page + 4103 ≤ relocs)
    → Within page (page + 4103) m m'
    → entry_words count relocs m' ≡ entry_words count relocs m
Within-entry_words page zero relocs m m' c w = refl
Within-entry_words page (suc count) relocs m m' (inl h) w =
    rw
      (
        Within-le page (page + 4103) 2 relocs m m' (inl (omega arith)) w,
        Within-entry_words page count (relocs + 2) m m' (inl (omega arith)) w,
      )
      refl
Within-entry_words page (suc count) relocs m m' (inr h) w =
    rw
      (
        Within-le page (page + 4103) 2 relocs m m' (inr h) w,
        Within-entry_words page count (relocs + 2) m m' (inr (omega arith)) w,
      )
      refl

in_image-tail :
    (count relocs : ℕ) (m m' : Image)
    → m'.start ≡ m.start
    → m'.size ≡ m.size
    → in_image (2 * suc count) relocs m ≡ true
    → in_image (2 * count) (relocs + 2) m' ≡ true
unfolding in_image
in_image-tail count relocs m m' s z i = rw (s, z) (ground arith)

in_image-head :
    (count relocs : ℕ) (m : Image)
    → in_image (2 * suc count) relocs m ≡ true
    → in_image 2 relocs m ≡ true
unfolding in_image
in_image-head count relocs m i = ground arith

IsApart-tail :
    (page count relocs : ℕ) (m m' : Image)
    → IsApart page (suc count) relocs m
    → Within page (page + 4103) m m'
    → IsApart page count (relocs + 2) m'
IsApart-tail page count relocs m m' (i, inl h) w =
    (in_image-tail count relocs m m' w.start w.size i, inl (omega arith))
IsApart-tail page count relocs m m' (i, inr h) w =
    (in_image-tail count relocs m m' w.start w.size i, inr (omega arith))

read-ok : (k a : ℕ) (m : Image) → in_image k a m ≡ true → read k a m ≡ ok (le k a m.byte)
unfolding read
read-ok k a m i = rw i refl

Settles-assoc {ℓ κ μ} :
    {A : Type ℓ} {B : Type κ} {C : Type μ} (P : A → Type 0) (r : Outcome A) (f : A → Outcome C)
    (g : A → Outcome B) (h : B → Outcome C)
    → Settles P r
    → ((x : A) → P x → f x ≡ (g x >>= h))
    → (r >>= f) ≡ (r >>= g >>= h)
Settles-assoc P (ok x) f g h s e = e x s
Settles-assoc P failed f g h s e = refl
Settles-assoc P fault f g h s e = refl
Settles-assoc P out_of_fuel f g h s e = refl

-- On a table of entries inside the mapping that no fixup of the page can reach,
-- LdrProcessRelocationBlock applies the entries as they stood at the start, in their order, and
-- returns the address after the table.
pub process_block-fixups :
    (page count relocs delta : ℕ) (m : Image)
    → IsApart page count relocs m
    → process_block page count relocs delta m
      ≡ (fixups page delta (entry_words count relocs m) m >>= λ m'. ok (relocs + 2 * count, m'))
unfolding process_block
process_block-fixups page zero relocs delta m a = ap (λ x. ok (x, m)) (omega arith)
process_block-fixups page (suc count) relocs delta m a =
    let e = le 2 relocs m.byte in
    rw (read-ok 2 relocs m (in_image-head count relocs m a.0)) (
      Settles-assoc (Within page (page + 4103) m) (fixup page e delta m) _ _ _
        (fixup-Within page e delta m)
        (λ m' w.
          process_block-fixups page count (relocs + 2) delta m'
            (IsApart-tail page count relocs m m' a w)
          ∙ rw
              (Within-entry_words page count (relocs + 2) m m'
                (IsApart-tail page count relocs m m' a w).1 w)
              (ap
                (λ n.
                  fixups page delta (entry_words count (relocs + 2) m) m' >>= λ m''. ok (n, m''))
                (omega arith))))
