-- ===== src/Directory.antt =====
-- vast/filesystem.cpp: the iterator of `directory`.
pub mod Walk
use efiperun_mod.Prelude.{
  ℕ, zero, suc, Bool, true, false, ◌&&◌, ◌||◌, ◌==◌, if◌then◌else◌, Option, none, some, List, [],
  ◌∷◌, ◌++◌, length,
}

-- `d[0] == '.' && d[1] == '\0'`, and the same for two dots, on a name without its terminator
abbrev pub is_dot : List ℕ → Bool
is_dot (c ∷ []) = c == b'.'
is_dot (c ∷ d ∷ []) = c == b'.' && d == b'.'
is_dot s = false

-- The iterator: `none` where `dir_` is null, else `current_`, and what `readdir` will still give.
abbrev pub Iterator : Type 0
Iterator = Option (List ℕ × List (List ℕ))

-- `increment`, on what `readdir` gives until it gives a null pointer
unfoldable pub increment : List ℕ → List (List ℕ) → Iterator
increment path [] = none
increment path (d ∷ entries) =
    let next = increment path entries in
    if is_dot d then next else some (path ++ (b'/' ∷ d), entries)

-- `begin`, on the result of `opendir`
unfoldable pub begin : List ℕ → Option (List (List ℕ)) → Iterator
begin path none = none
begin path (some entries) = increment path entries

-- `equals`, of iterators over one directory
abbrev pub equals : Iterator → Iterator → Bool
equals none none = true
equals none (some j) = false
equals (some i) none = false
equals (some i) (some j) = true

-- `for (auto& file : directory(path))`, with what the body does to a state; out of fuel, `none`
unfoldable pub for_each {ℓ} : {S : Type ℓ} → ℕ → (List ℕ → S → S) → List ℕ → Iterator → S → Option S
for_each zero body path it s = none
for_each (suc fuel) body path it s = elim it [
  | none ↦ some s
  | some (file, entries) ↦ for_each fuel body path (increment path entries) (body file s)
]
