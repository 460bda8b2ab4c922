-- ===== src/Directory/Walk.antt =====
-- vast/filesystem.cpp: what a loop over a directory visits.
use efiperun_mod.Prelude.{
  ℕ, zero, suc, ◌≡◌, ◌<◌, ◌≤◌, refl, if◌then◌else◌, none, some, List, [], ◌∷◌, ◌++◌, length, arith,
  Bool-cases, inl, inr,
}
use efiperun_mod.Directory.{is_dot, Iterator, increment, begin, for_each}

-- the paths of the entries but `.` and `..`, in the order of `readdir`
abbrev pub paths : List ℕ → List (List ℕ) → List (List ℕ)
paths path [] = []
paths path (d ∷ entries) =
    let rest = paths path entries in if is_dot d then rest else (path ++ (b'/' ∷ d)) ∷ rest

abbrev pub visit {ℓ} : {S : Type ℓ} → (List ℕ → S → S) → List (List ℕ) → S → S
visit body [] s = s
visit body (f ∷ fs) s = visit body fs (body f s)

-- an iterator stands before the paths of its entries
abbrev pub IsBefore : List ℕ → Iterator → List (List ℕ) → ℕ → Type 0
IsBefore path none ps n = ps ≡ []
IsBefore path (some (file, rest)) ps n = (ps ≡ file ∷ paths path rest) × (suc (length rest) < n)

wider :
    (path : List ℕ) (it : Iterator) (ps : List (List ℕ)) (n k : ℕ)
    → n ≤ k
    → IsBefore path it ps n
    → IsBefore path it ps k
wider path none ps n k h b = b
wider path (some (file, rest)) ps n k h (b, l) = (b, omega arith)

increment-IsBefore :
    (path : List ℕ) (entries : List (List ℕ))
    → IsBefore path (increment path entries) (paths path entries) (suc (length entries))
unfolding increment
increment-IsBefore path [] = refl
increment-IsBefore path (d ∷ entries) = elim (Bool-cases (is_dot d)) [
  | inl t ↦ rw t (
      wider path (increment path entries) (paths path entries) (suc (length entries))
        (suc (suc (length entries))) (omega arith) (increment-IsBefore path entries))
  | inr t ↦ rw t (refl, omega arith)
]

module _ {ℓ} {S : Type ℓ} (body : List ℕ → S → S) (path : List ℕ) where
  for_each-visit :
      (fuel : ℕ) (it : Iterator) (ps : List (List ℕ)) (s : S)
      → IsBefore path it ps fuel
      → 0 < fuel
      → for_each fuel body path it s ≡ some (visit body ps s)
  unfolding for_each
  for_each-visit zero it ps s b h = absurd (omega arith)
  for_each-visit (suc fuel) none ps s b h = rw b refl
  for_each-visit (suc fuel) (some (file, rest)) ps s (b, l) h = rw b (
      for_each-visit fuel (increment path rest) (paths path rest) (body file s)
        (wider path (increment path rest) (paths path rest) (suc (length rest)) fuel (omega arith)
          (increment-IsBefore path rest))
        (omega arith))

  -- The loop over a directory ends, and visits the entries but `.` and `..`, each once and in the
  -- order of readdir, under the directory's path.
  pub for_each-paths :
      (entries : List (List ℕ)) (s : S)
      → for_each (suc (length entries)) body path (begin path (some entries)) s
        ≡ some (visit body (paths path entries) s)
  unfolding begin
  for_each-paths entries s =
      for_each-visit (suc (length entries)) (increment path entries) (paths path entries) s
        (increment-IsBefore path entries) (omega arith)
