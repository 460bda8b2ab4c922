-- ===== src/Console.antt =====
-- efihooks.cpp: `char16_print`, which prints a string with a prefix before each line.
pub mod Lines
use efiperun_mod.Prelude.{
  ℕ, ◌+◌, Bool, true, false, ◌||◌, ltb, leb, ◌==◌, if◌then◌else◌, List, [], ◌∷◌, ◌++◌,
}

-- the body of the loop over the bytes of one character; a `char` is signed
unfoldable pub print_byte : List ℕ → ℕ → List ℕ
print_byte prefix b =
    if b == 10 then (10 ∷ prefix) else (if leb 128 b || ltb b 32 then [] else (b ∷ []))

unfoldable pub print_bytes : List ℕ → List ℕ → List ℕ
print_bytes prefix [] = []
print_bytes prefix (b ∷ bs) = print_byte prefix b ++ print_bytes prefix bs

-- the bytes that `wcrtomb` gives for the characters, from a conversion state on; a character that
-- has no bytes, or is an error, has none
abbrev pub encode {ℓ} : {S : Type ℓ} → (S → ℕ → List ℕ × S) → S → List ℕ → List ℕ
encode wcrtomb state [] = []
encode wcrtomb state (c ∷ s) =
    let (bytes, state') = wcrtomb state c in bytes ++ encode wcrtomb state' s

-- the loop over the characters
unfoldable pub print_chars {ℓ} : {S : Type ℓ} → (S → ℕ → List ℕ × S) → List ℕ → S → List ℕ → List ℕ
print_chars wcrtomb prefix state [] = []
print_chars wcrtomb prefix state (c ∷ s) =
    let (bytes, state') = wcrtomb state c in
    print_bytes prefix bytes ++ print_chars wcrtomb prefix state' s

-- `char16_print`: what goes to `stdout`, and whether it returns
unfoldable pub char16_print {ℓ} :
    {S : Type ℓ} → (S → ℕ → List ℕ × S) → ℕ → S → List ℕ → List ℕ → List ℕ × Bool
char16_print wcrtomb mb_cur_max start prefix s =
    if ltb 16 mb_cur_max
    then (prefix, false)
    else (prefix ++ (print_chars wcrtomb prefix start s ++ (10 ∷ [])), true)
