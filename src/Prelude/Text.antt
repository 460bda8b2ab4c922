-- ===== src/Prelude/Text.antt =====
-- C strings as lists of character codes, `snprintf` into a buffer, and hexadecimal digits.
use Prim.Native.Nat.{ℕ, zero, suc, ◌+◌, ◌-◌, ◌*◌, ◌/◌, ◌%◌, ◌^◌, ◌<◌, ◌≤◌}
use Prim.Native.Char.{code}
use Prim.Native.String.{String}
use mathlib.Core.Path.{◌≡◌, refl, ap, ◌∙◌}
use mathlib.Core.List.{List, [], ◌∷◌, ◌++◌}
use native.Mathlib.Omega.{arith}
use native.Mathlib.Nat.{pow-suc}
use efiperun_mod.Prelude.Tests.{ltb, if◌then◌else◌}
use efiperun_mod.Prelude.Lists.{length, length-append}

-- the character codes of a text
abbrev pub codes : String → List ℕ
codes String.[] = []
codes (String.◌∷◌ c s) = code c ∷ codes s

module _ {ℓ} {A : Type ℓ} where
  abbrev pub take : ℕ → List A → List A
  take zero xs = []
  take (suc n) [] = []
  take (suc n) (x ∷ xs) = x ∷ take n xs

  pub take-eq_self : (n : ℕ) (xs : List A) → length xs ≤ n → take n xs ≡ xs
  take-eq_self zero [] h = refl
  take-eq_self zero (x ∷ xs) h = elim h [ ]
  take-eq_self (suc n) [] h = refl
  take-eq_self (suc n) (x ∷ xs) h = ap (λ t. x ∷ t) (take-eq_self n xs (omega arith))

-- `snprintf(str, size, …)`: at most `size - 1` characters of the text are kept
abbrev pub snprintf : ℕ → List ℕ → List ℕ
snprintf size text = take (size - 1) text

-- a digit of `%x`
unfoldable pub hex_digit : ℕ → ℕ
hex_digit d = if ltb d 10 then b'0' + d else b'a' + (d - 10)

-- the last `k` digits: `%0kx` of a number below `16 ^ k`
unfoldable pub hex : ℕ → ℕ → List ℕ
unfolding hex_digit
hex zero n = []
hex (suc k) n = hex k (n / 16) ++ (hex_digit (n % 16) ∷ [])

-- the number that hexadecimal digits stand for
unfoldable pub digit_value : ℕ → ℕ
digit_value c = if ltb c b'a' then c - b'0' else c - b'a' + 10

unfoldable pub unhex : ℕ → List ℕ → ℕ
unfolding digit_value
unhex acc [] = acc
unhex acc (c ∷ s) = unhex (acc * 16 + digit_value c) s

pub length-hex : (k n : ℕ) → length (hex k n) ≡ k
unfolding hex
length-hex zero n = refl
length-hex (suc k) n =
    length-append (hex k (n / 16)) (hex_digit (n % 16) ∷ []) ∙ omega (arith, length-hex k (n / 16))

digit_value-hex_digit : (d : ℕ) → d < 16 → digit_value (hex_digit d) ≡ d
unfolding digit_value hex_digit
digit_value-hex_digit d h = ground arith

unhex-append : (acc : ℕ) (s t : List ℕ) → unhex acc (s ++ t) ≡ unhex (unhex acc s) t
unfolding unhex
unhex-append acc [] t = refl
unhex-append acc (c ∷ s) t = unhex-append (acc * 16 + digit_value c) s t

unhex-hex_step : (k n : ℕ) → unhex 0 (hex k (n / 16)) ≡ n / 16 → unhex 0 (hex (suc k) n) ≡ n
unhex-hex_step k n ih =
    let split : unhex 0 (hex (suc k) n)
        ≡ unhex (unhex 0 (hex k (n / 16))) (hex_digit (n % 16) ∷ []) =
      unfold hex in unhex-append 0 (hex k (n / 16)) (hex_digit (n % 16) ∷ []) in
    let last : unhex (n / 16) (hex_digit (n % 16) ∷ []) ≡ n =
      unfold unhex in omega (arith, digit_value-hex_digit (n % 16) (omega arith)) in
    split ∙ rw ih last

-- printing a number that fits into `k` digits and reading it back
pub unhex-hex : (k n : ℕ) → n < 16 ^ k → unhex 0 (hex k n) ≡ n
unhex-hex zero n h = unfold unhex hex in omega arith
unhex-hex (suc k) n h = unhex-hex_step k n (unhex-hex k (n / 16) (omega (arith, pow-suc 16 k)))
