-- ===== src/Loader/Sections/Layout.antt =====
-- peloader.c: where the loop over the section headers puts the bytes of the file.
use efiperun_mod.Prelude.{
  ℕ, zero, suc, ◌+◌, ◌-◌, ◌≡◌, refl, ap, ◌∙◌, Bool, true, false, ◌&&◌, ◌||◌, leb, ltb, ◌==◌,
  if◌then◌else◌, arith, Bool-cases, inl, inr, ==_iff,
}
use efiperun_mod.Loader.Bytes.{le}
use efiperun_mod.Loader.Relocation.{Image, in_image}
use efiperun_mod.Loader.Relocation.Extent.{Settles, Settles->>=, Settles-map}
use efiperun_mod.Loader.Steps.{after_read, after_require}
use efiperun_mod.Loader.Sections.{copy, copy_sections}

abbrev pub within : ℕ → ℕ → ℕ → Bool
within dst n q = leb dst q && ltb q (dst + n)

-- whether the section whose header is at `shdr` has the address `q`
abbrev pub in_section : ℕ → ℕ → Image → ℕ → Bool
in_section shdr pbase f q = within (pbase + le 4 (shdr + 12) f.byte) (le 4 (shdr + 16) f.byte) q

-- whether one of `i` sections has the address `q`
abbrev pub in_sections : ℕ → ℕ → ℕ → Image → ℕ → Bool
in_sections zero shdr pbase f q = false
in_sections (suc i) shdr pbase f q =
    in_section shdr pbase f q || in_sections i (shdr + 40) pbase f q

-- The sections hold the bytes of the file at the same distance from its start, the rest is `m`'s.
abbrev pub IsLaidOut : (ℕ → Bool) → ℕ → Image → Image → Image → Type 0
IsLaidOut taken pbase f m m' =
    (q : ℕ) → m'.byte q ≡ (if taken q then f.byte (q - pbase) else m.byte q)

same_byte :
    (pbase va src n q : ℕ) (f : Image)
    → va ≡ src
    → within (pbase + va) n q ≡ true
    → f.byte (src + (q - (pbase + va))) ≡ f.byte (q - pbase)
same_byte pbase va src n q f e w = ap f.byte (ground arith)

copy-IsLaidOut :
    (pbase va src n : ℕ) (f m : Image)
    → va ≡ src
    → Settles (IsLaidOut (within (pbase + va) n) pbase f m) (copy (pbase + va) src n f m)
unfolding copy
copy-IsLaidOut pbase va src n f m e = elim (Bool-cases (n == 0)) [
  | inl t ↦ rw t (λ q. ground arith)
  | inr t ↦ elim (Bool-cases (in_image n src f && in_image n (pbase + va) m)) [
    | inl i ↦
        rw (t, i)
          (λ q. elim (Bool-cases (within (pbase + va) n q)) [
            | inl w ↦ rw w (same_byte pbase va src n q f e w)
            | inr w ↦ rw w refl
          ])
    | inr i ↦ rw (t, i) tt
  ]
]

overlaid {ℓ} :
    {A : Type ℓ} (a b : Bool) (x y : A)
    → (if b then x else (if a then x else y)) ≡ (if a || b then x else y)
overlaid true true x y = refl
overlaid true false x y = refl
overlaid false b x y = refl

-- Where the loop over the section headers neither fails nor faults, every address in a section
-- holds the byte of the file at its distance from pbase, whichever sections overlap, and every
-- other byte is unchanged.
pub copy_sections-IsLaidOut :
    (i shdr pbase : ℕ) (f m : Image)
    → Settles (IsLaidOut (in_sections i shdr pbase f) pbase f m) (copy_sections i shdr pbase f m)
unfolding copy_sections
copy_sections-IsLaidOut zero shdr pbase f m = λ q. refl
copy_sections-IsLaidOut (suc i) shdr pbase f m =
    let Q : Image → Type 0 = IsLaidOut (in_sections (suc i) shdr pbase f) pbase f m in
    after_read Q 4 (shdr + 12) f _ (λ va e. after_read Q 4 (shdr + 20) f _ (λ pointer p.
      after_require Q (va == pointer) _ (λ t. after_read Q 4 (shdr + 16) f _ (λ size s.
        Settles->>= (IsLaidOut (within (pbase + va) size) pbase f m) Q
          (copy (pbase + va) pointer size f m) _
          (copy-IsLaidOut pbase va pointer size f m ((==_iff va pointer).0 t))
          (λ m' l.
            Settles-map (IsLaidOut (in_sections i (shdr + 40) pbase f) pbase f m') Q
              (copy_sections i (shdr + 40) pbase f m')
              (copy_sections-IsLaidOut i (shdr + 40) pbase f m')
              (λ m'' l' q.
                l' q ∙ rw (l q, ← e, ← s) (overlaid (within (pbase + va) size q) _ _ _)))))))
