-- ===== src/Loader/Relocation/Extent.antt =====
-- peloader.c: how far one relocation entry reaches, whatever way it ends.
use efiperun_mod.Prelude.{
  ℕ, ◌+◌, ◌/◌, ◌%◌, ◌≡◌, ◌≤◌, ◌<◌, refl, ◌∙◌, true, ◌==◌, arith, Bool-cases, ◌⊎◌, inl, inr,
}
use efiperun_mod.Loader.Bytes.{le}
use efiperun_mod.Loader.Relocation.{
  Outcome, ok, failed, fault, out_of_fuel, Image, in_image, read, fixup, ◌>>=◌,
}
use efiperun_mod.Loader.Relocation.Fixups.{
  width, amount, is_known, Moves, Added, IsFixed, fixup-IsFixed,
}

-- `m'` differs from `m` at most in the bytes of the mapping from `low` up to `high`
pub record Within (low high : ℕ) (m m' : Image) : Type 0 where
  pub start : m'.start ≡ m.start
  pub size : m'.size ≡ m.size
  pub below : (q : ℕ) → q < low → m'.byte q ≡ m.byte q
  pub above : (q : ℕ) → high ≤ q → m'.byte q ≡ m.byte q
  pub outside : (q : ℕ) → (q < m.start) ⊎ (m.start + m.size ≤ q) → m'.byte q ≡ m.byte q

-- an error, a fault, or an image that satisfies `P`; the fuel does not run out
abbrev pub Settles {ℓ} : {A : Type ℓ} → (A → Type 0) → Outcome A → Type 0
Settles P (ok x) = P x
Settles P failed = Unit
Settles P fault = Unit
Settles P out_of_fuel = ⊥

pub Settles->>= {ℓ κ} :
    {A : Type ℓ} {B : Type κ} (P : A → Type 0) (Q : B → Type 0) (r : Outcome A) (f : A → Outcome B)
    → Settles P r
    → ((x : A) → P x → Settles Q (f x))
    → Settles Q (r >>= f)
Settles->>= P Q (ok x) f s g = g x s
Settles->>= P Q failed f s g = tt
Settles->>= P Q fault f s g = tt
Settles->>= P Q out_of_fuel f s g = s

pub Settles-map {ℓ} :
    {A : Type ℓ} (P Q : A → Type 0) (r : Outcome A)
    → Settles P r
    → ((x : A) → P x → Q x)
    → Settles Q r
Settles-map P Q (ok x) s g = g x s
Settles-map P Q failed s g = tt
Settles-map P Q fault s g = tt
Settles-map P Q out_of_fuel s g = s

outside-Moves :
    (k a d : ℕ) (m m' : Image)
    → in_image k a m ≡ true
    → Moves k a d m m'
    → (q : ℕ) → (q < m.start) ⊎ (m.start + m.size ≤ q)
    → m'.byte q ≡ m.byte q
unfolding in_image
outside-Moves k a d m m' i w q (inl s) = w.below q (ground arith)
outside-Moves k a d m m' i w q (inr s) = w.above q (ground arith)

Added-Within :
    (low high k a d : ℕ) (m : Image) (r : Outcome Image)
    → low ≤ a
    → a + k ≤ high
    → Added k a d m r
    → Settles (Within low high m) r
Added-Within low high k a d m (ok m') l h (i, w) = record {
  start = w.start;
  size = w.size;
  below = λ q s. w.below q (omega arith);
  above = λ q s. w.above q (omega arith);
  outside = λ q s. outside-Moves k a d m m' i w q s;
}
Added-Within low high k a d m failed l h i = tt
Added-Within low high k a d m fault l h i = tt
Added-Within low high k a d m out_of_fuel l h i = i

width-le : (type : ℕ) → width type ≤ 8
width-le type = ground arith

pub Within-refl : (low high : ℕ) (m : Image) → Within low high m m
Within-refl low high m = record {
  start = refl;
  size = refl;
  below = λ q s. refl;
  above = λ q s. refl;
  outside = λ q s. refl;
}

IsFixed-Within :
    (page reloc delta : ℕ) (m : Image) (r : Outcome Image)
    → IsFixed page reloc delta m r
    → Settles (Within page (page + 4103) m) r
IsFixed-Within page reloc delta m r fixed = elim (Bool-cases (is_known (reloc / 4096))) [
  | inl t ↦ elim (Bool-cases (reloc / 4096 == 0)) [
    | inl z ↦ let e = rw (t, z) at fixed in rw e (Within-refl page (page + 4103) m)
    | inr n ↦
        Added-Within page (page + 4103) (width (reloc / 4096)) (page + reloc % 4096)
          (amount (reloc / 4096) delta) m r (omega arith) (omega (arith, width-le (reloc / 4096)))
          (rw (t, n) at fixed)
  ]
  | inr t ↦ let e = rw t at fixed in rw e tt
]

pub fixup-Within :
    (page reloc delta : ℕ) (m : Image)
    → Settles (Within page (page + 4103) m) (fixup page reloc delta m)
fixup-Within page reloc delta m =
    IsFixed-Within page reloc delta m (fixup page reloc delta m) (fixup-IsFixed page reloc delta m)

pub read-Settles : (k a : ℕ) (m : Image) → Settles (λ x. x ≡ le k a m.byte) (read k a m)
unfolding read
read-Settles k a m = elim (Bool-cases (in_image k a m)) [ inl t ↦ rw t refl | inr t ↦ rw t tt ]

pub Within-trans :
    {low high : ℕ} {m n o : Image} → Within low high m n → Within low high n o → Within low high m o
Within-trans v w = record {
  start = w.start ∙ v.start;
  size = w.size ∙ v.size;
  below = λ q s. w.below q s ∙ v.below q s;
  above = λ q s. w.above q s ∙ v.above q s;
  outside = λ q s. w.outside q (rw (v.start, v.size) s) ∙ v.outside q s;
}
