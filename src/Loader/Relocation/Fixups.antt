-- ===== src/Loader/Relocation/Fixups.antt =====
-- peloader.c: what one relocation entry does to the image, on every branch.
use efiperun_mod.Prelude.{
  ℕ, ◌+◌, ◌/◌, ◌%◌, ◌^◌, ◌≡◌, ◌≤◌, ◌<◌, refl, ◌∙◌, Bool, true, false, ◌||◌, ◌==◌, if◌then◌else◌,
  arith, Bool-cases, inl, inr,
}
use efiperun_mod.Loader.Bytes.{le, le-set_le, set_le_below, set_le_above}
use efiperun_mod.Loader.Relocation.{
  Outcome, ok, failed, fault, out_of_fuel, Image, in_image, add_to, fixup, hiword, loword,
}

-- The base relocation types as the PE format describes them: how many bytes of the target each
-- changes, and by how much.
abbrev pub width : ℕ → ℕ
width type =
    if type == 1
    then 2
    else if type == 2
    then 2
    else if type == 3
    then 4
    else if type == 10
    then 8
    else 0

abbrev pub amount : ℕ → ℕ → ℕ
amount type delta = if type == 1 then delta / 2 ^ 16 else delta

abbrev pub is_known : ℕ → Bool
is_known type = type == 0 || type == 1 || type == 2 || type == 3 || type == 10

-- `m'` is `m` with the word of `k` bytes at `a` moved by `d`
pub record Moves (k a d : ℕ) (m m' : Image) : Type 0 where
  pub start : m'.start ≡ m.start
  pub size : m'.size ≡ m.size
  pub word : le k a m'.byte ≡ (le k a m.byte + d) % 256 ^ k
  pub below : (q : ℕ) → q < a → m'.byte q ≡ m.byte q
  pub above : (q : ℕ) → a + k ≤ q → m'.byte q ≡ m.byte q

abbrev pub Added : ℕ → ℕ → ℕ → Image → Outcome Image → Type 0
Added k a d m (ok m') = (in_image k a m ≡ true) × Moves k a d m m'
Added k a d m failed = ⊥
Added k a d m fault = in_image k a m ≡ false
Added k a d m out_of_fuel = ⊥

pub add_to-Added : (k a d : ℕ) (m : Image) → 0 < 256 ^ k → Added k a d m (add_to k a d m)
add_to-Added k a d m pos = elim (Bool-cases (in_image k a m)) [
  | inl t ↦
      let v = (le k a m.byte + d) % 256 ^ k in
      unfold add_to in
      (rw t (
        t,
        record {
          start = refl;
          size = refl;
          word = le-set_le k a v m.byte (omega arith);
          below = λ q h. set_le_below k a v q m.byte h;
          above = λ q h. set_le_above k a v q m.byte h;
        },
      ))
  | inr t ↦ unfold add_to in rw t t
]

-- What an entry promises: an unknown type is an error; type 0 changes nothing; any other moves the
-- word it names, or faults when that word is not inside the mapping.
abbrev pub IsFixed : ℕ → ℕ → ℕ → Image → Outcome Image → Type 0
IsFixed page reloc delta m r =
    if is_known (reloc / 4096)
    then (if reloc / 4096 == 0
        then r ≡ ok m
        else Added (width (reloc / 4096)) (page + reloc % 4096) (amount (reloc / 4096) delta) m r)
    else r ≡ failed

moves_modulo :
    (k a d e : ℕ) (m : Image) (r : Outcome Image)
    → ((x : ℕ) → (x + d) % 256 ^ k ≡ (x + e) % 256 ^ k)
    → Added k a d m r
    → Added k a e m r
moves_modulo k a d e m (ok m') same (i, w) = (
  i,
  record {
    start = w.start;
    size = w.size;
    word = w.word ∙ same (le k a m.byte);
    below = w.below;
    above = w.above;
  },
)
moves_modulo k a d e m failed same i = elim i [ ]
moves_modulo k a d e m fault same i = i
moves_modulo k a d e m out_of_fuel same i = elim i [ ]

-- An entry of type 0 changes nothing, an entry of an unknown type is an error, and an entry of
-- type HIGH, LOW, HIGHLOW or DIR64 adds delta, its high half for HIGH, to the word of 2, 2, 4 or
-- 8 bytes at its offset, modulo the width, and changes no other byte; it faults exactly where
-- that word is not inside the mapping.
pub fixup-IsFixed :
    (page reloc delta : ℕ) (m : Image) → IsFixed page reloc delta m (fixup page reloc delta m)
unfolding fixup
fixup-IsFixed page reloc delta m = elim (Bool-cases (reloc / 4096 == 0)) [
  | inl t ↦ rw t refl
  | inr z ↦ elim (Bool-cases (reloc / 4096 == 1)) [
    | inl t ↦
        rw (z, t)
          (moves_modulo 2 (page + reloc % 4096) (hiword delta) (delta / 2 ^ 16) m
            (add_to 2 (page + reloc % 4096) (hiword delta) m) (λ x. unfold hiword in omega arith)
            (add_to-Added 2 (page + reloc % 4096) (hiword delta) m (omega arith)))
    | inr o ↦ elim (Bool-cases (reloc / 4096 == 2)) [
      | inl t ↦
          rw (z, o, t)
            (moves_modulo 2 (page + reloc % 4096) (loword delta) delta m
              (add_to 2 (page + reloc % 4096) (loword delta) m) (λ x. unfold loword in omega arith)
              (add_to-Added 2 (page + reloc % 4096) (loword delta) m (omega arith)))
      | inr w ↦ elim (Bool-cases (reloc / 4096 == 3)) [
        | inl t ↦ rw (z, o, w, t) (add_to-Added 4 (page + reloc % 4096) delta m (omega arith))
        | inr h ↦ elim (Bool-cases (reloc / 4096 == 10)) [
          | inl t ↦ rw (z, o, w, h, t) (add_to-Added 8 (page + reloc % 4096) delta m (omega arith))
          | inr n ↦ rw (z, o, w, h, n) refl
        ]
      ]
    ]
  ]
]
