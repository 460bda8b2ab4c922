-- ===== src/Hooks/Pages.antt =====
-- efihooks.hpp: which pages `get_func` makes executable.
use efiperun_mod.Prelude.{
  ℕ, suc, ◌+◌, ◌-◌, ◌*◌, ◌/◌, ◌≡◌, ◌≤◌, ◌<◌, ap, Bool, true, false, ◌==◌, ◌||◌, if◌then◌else◌, List,
  [], ◌∷◌, arith, Bool-cases, ◌⊎◌, inl, inr, ==_iff,
}
use native.Mathlib.Decide.{dec_lt}
use native.Mathlib.Nat.{mul-le-mul_right, suc-mul, div-add-mod', mod-lt}
use efiperun_mod.Hooks.{op1_at, op3_at, page_of, get_func}

-- whether a page is in the list
abbrev pub is_listed : ℕ → List ℕ → Bool
is_listed page [] = false
is_listed page (p ∷ ps) = page == p || is_listed page ps

page_of_bounds :
    (page_size q : ℕ)
    → 0 < page_size
    → (page_of page_size q ≤ q) × (q < page_of page_size q + page_size)
unfolding page_of
page_of_bounds page_size q h =
    (omega (arith, div-add-mod' q page_size), omega (arith, div-add-mod' q page_size, mod-lt q h))

-- how many pages after `a`'s the page of `b` is
div_lem : (p a b : ℕ) → 0 < p → a < b + p → a / p ≤ suc (b / p)
div_lem p a b h l = elim (dec_lt (suc (b / p)) (a / p)) [
  | yes w ↦ absurd (
      omega (
        arith,
        div-add-mod' a p,
        div-add-mod' b p,
        mod-lt b h,
        mul-le-mul_right p w,
        suc-mul (suc (b / p)) p,
        suc-mul (b / p) p,
      ))
  | no w ↦ omega arith
]

mono_lem : (p a b : ℕ) → 0 < p → a ≤ b → a / p ≤ b / p
mono_lem p a b h l = elim (dec_lt (b / p) (a / p)) [
  | yes w ↦ absurd (
      omega (
        arith,
        div-add-mod' a p,
        div-add-mod' b p,
        mod-lt b h,
        mul-le-mul_right p w,
        suc-mul (b / p) p,
      ))
  | no w ↦ omega arith
]

between_lem :
    (p a b q : ℕ)
    → 0 < p
    → a ≤ q
    → q ≤ b
    → b < a + p
    → (page_of p q ≡ page_of p a) ⊎ (page_of p q ≡ page_of p b)
unfolding page_of
between_lem p a b q h l u w = elim (dec_lt (a / p) (q / p)) [
  | yes x ↦ inr (ap (λ n. n * p) (omega (arith, div_lem p b a h w, mono_lem p q b h u)))
  | no x ↦ inl (ap (λ n. n * p) (omega (arith, mono_lem p a q h l)))
]

pages_lem :
    (x p1 p2 : ℕ)
    → (x ≡ p1) ⊎ (x ≡ p2)
    → is_listed x (if p2 == p1 then p1 ∷ [] else (p1 ∷ p2 ∷ [])) ≡ true
pages_lem x p1 p2 c = elim (Bool-cases (p2 == p1)) [
  | inl t ↦ rw t (ground (arith, (==_iff p2 p1).0 t))
  | inr t ↦ rw t (ground arith)
]

-- Every byte of a hook's code lies on a page that get_func makes executable, on pages of at least
-- as many bytes as the code has.
pub get_func-is_listed :
    (page_size size this q : ℕ)
    → 19 ≤ page_size
    → op1_at size this ≤ q
    → q < op1_at size this + 19
    → is_listed (page_of page_size q) (get_func page_size size this).1 ≡ true
unfolding get_func
get_func-is_listed page_size size this q h l u =
    pages_lem (page_of page_size q) (page_of page_size (op1_at size this))
      (page_of page_size (op3_at size this + 2 - 1))
      (between_lem page_size (op1_at size this) (op3_at size this + 2 - 1) q (omega arith) l
        (omega arith) (omega arith))
