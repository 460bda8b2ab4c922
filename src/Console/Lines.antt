-- ===== src/Console/Lines.antt =====
-- efihooks.cpp: the output of `char16_print`, line by line.
use efiperun_mod.Prelude.{
  ℕ, ◌≡◌, refl, sym, ap, ◌∙◌, Bool, true, false, ◌&&◌, ◌||◌, ltb, leb, ◌==◌, if◌then◌else◌, List,
  [], ◌∷◌, ◌++◌, arith, Bool-cases, inl, inr,
}
use mathlib.Core.List.{append_assoc}
use efiperun_mod.Console.{print_byte, print_bytes, encode, print_chars, char16_print}

-- the bytes that are printed: line feeds and printable ASCII
abbrev pub is_kept : ℕ → Bool
is_kept b = b == 10 || ltb 31 b && ltb b 128

abbrev pub kept : List ℕ → List ℕ
kept [] = []
kept (b ∷ bs) = let rest = kept bs in if is_kept b then b ∷ rest else rest

-- a text's first line, and the lines after it
abbrev pub first_line : List ℕ → List ℕ
first_line [] = []
first_line (b ∷ bs) = let rest = first_line bs in if b == 10 then [] else b ∷ rest

abbrev pub other_lines : List ℕ → List (List ℕ)
other_lines [] = []
other_lines (b ∷ bs) = let rest = other_lines bs in if b == 10 then first_line bs ∷ rest else rest

-- lines, each with the prefix before it and a line feed behind it
abbrev pub prefixed : List ℕ → List (List ℕ) → List ℕ
prefixed prefix [] = []
prefixed prefix (l ∷ ls) = prefix ++ (l ++ (10 ∷ prefixed prefix ls))

print_bytes-append :
    (prefix a b : List ℕ)
    → print_bytes prefix (a ++ b) ≡ print_bytes prefix a ++ print_bytes prefix b
unfolding print_bytes
print_bytes-append prefix [] b = refl
print_bytes-append prefix (x ∷ a) b =
    rw (print_bytes-append prefix a b)
      (sym (append_assoc (print_byte prefix x) (print_bytes prefix a) (print_bytes prefix b)))

print_chars-encode {ℓ} :
    {S : Type ℓ} (wcrtomb : S → ℕ → List ℕ × S) (prefix : List ℕ) (state : S) (s : List ℕ)
    → print_chars wcrtomb prefix state s ≡ print_bytes prefix (encode wcrtomb state s)
unfolding print_chars
print_chars-encode wcrtomb prefix state [] = unfold print_bytes in refl
print_chars-encode wcrtomb prefix state (c ∷ s) =
    rw (print_chars-encode wcrtomb prefix (wcrtomb state c).1 s)
      (sym (print_bytes-append prefix (wcrtomb state c).0 (encode wcrtomb (wcrtomb state c).1 s)))

kept_other : (b : ℕ) → (b == 10) ≡ false → (leb 128 b || ltb b 32) ≡ false → is_kept b ≡ true
kept_other b h k = ground arith

not_kept : (b : ℕ) → (b == 10) ≡ false → (leb 128 b || ltb b 32) ≡ true → is_kept b ≡ false
not_kept b h k = ground arith

print_bytes_lines :
    (prefix bs : List ℕ)
    → print_bytes prefix bs ++ (10 ∷ [])
      ≡ first_line (kept bs) ++ (10 ∷ prefixed prefix (other_lines (kept bs)))
unfolding print_bytes print_byte
print_bytes_lines prefix [] = refl
print_bytes_lines prefix (b ∷ bs) =
    let ih = print_bytes_lines prefix bs in
    elim (Bool-cases (b == 10)) [
      | inl t ↦
          rw (t, t)
            (ap (λ l. 10 ∷ l)
              (append_assoc prefix (print_bytes prefix bs) (10 ∷ []) ∙ ap (λ l. prefix ++ l) ih))
      | inr t ↦ elim (Bool-cases (leb 128 b || ltb b 32)) [
        | inl d ↦ rw (not_kept b t d, t, d) ih
        | inr d ↦ rw (kept_other b t d, t, d) (ap (λ l. b ∷ l) ih)
      ]
    ]

small_lem : (n : ℕ) → leb n 16 ≡ true → ltb 16 n ≡ false
small_lem n h = ground arith

large_lem : (n : ℕ) → leb n 16 ≡ false → ltb 16 n ≡ true
large_lem n h = ground arith

-- Where MB_CUR_MAX is at most 16, char16_print returns, and prints the lines of the string's bytes
-- with the prefix before each and a line feed behind it, control characters and bytes from 128 on
-- left out; an empty string is one line. Where MB_CUR_MAX is more, it prints the prefix and exits.
pub char16_print-prefixed {ℓ} :
    {S : Type ℓ} (wcrtomb : S → ℕ → List ℕ × S) (mb_cur_max : ℕ) (start : S) (prefix s : List ℕ)
    → let text = kept (encode wcrtomb start s) in
      char16_print wcrtomb mb_cur_max start prefix s ≡ (
        if leb mb_cur_max 16
        then (prefixed prefix (first_line text ∷ other_lines text), true)
        else (prefix, false))
unfolding char16_print
char16_print-prefixed wcrtomb mb_cur_max start prefix s = elim (Bool-cases (leb mb_cur_max 16)) [
  | inl t ↦
      rw (t, small_lem mb_cur_max t, print_chars-encode wcrtomb prefix start s)
        (ap (λ l. (prefix ++ l, true)) (print_bytes_lines prefix (encode wcrtomb start s)))
  | inr t ↦ rw (t, large_lem mb_cur_max t) refl
]
