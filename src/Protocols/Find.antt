-- ===== src/Protocols/Find.antt =====
-- efihooks.cpp: `find_protocol` against the cases of its comment.
use efiperun_mod.Prelude.{
  ℕ, ◌<◌, ◌≡◌, refl, sym, ap, Bool, true, false, ◌||◌, ◌==◌, if◌then◌else◌, Option, none, some,
  List, [], ◌∷◌, arith, Bool-cases, ◌⊎◌, inl, inr, if_same, not_zero,
}
use mathlib.Core.Bool.{true≢false}
use efiperun_mod.Protocols.{returned, scanned, scan, after_scan, find_protocol}
use efiperun_mod.Protocols.Multi.{MultiMap}

-- no element has a null interface
abbrev pub HasInterfaces : List (ℕ × ℕ) → Type 0
HasInterfaces [] = Unit
HasInterfaces ((h, i) ∷ l) = (0 < i) × HasInterfaces l

-- whether an element has the handle, and the interfaces of the first and the last that do
abbrev pub has_handle : ℕ → List (ℕ × ℕ) → Bool
has_handle handle [] = false
has_handle handle ((h, i) ∷ l) = (h == handle) || has_handle handle l

abbrev pub first_of : ℕ → List (ℕ × ℕ) → ℕ
first_of handle [] = 0
first_of handle ((h, i) ∷ l) = let rest = first_of handle l in if h == handle then i else rest

abbrev pub last_of : ℕ → ℕ → List (ℕ × ℕ) → ℕ
last_of handle default [] = default
last_of handle default ((h, i) ∷ l) = last_of handle (if h == handle then i else default) l

abbrev pub first_or : ℕ → List (ℕ × ℕ) → ℕ
first_or default [] = default
first_or default ((h, i) ∷ l) = i

chosen_lem :
    (f i rest : ℕ)
    → 0 < i
    → (if (if f == 0 then i else f) == 0 then rest else (if f == 0 then i else f))
      ≡ (if f == 0 then i else f)
chosen_lem f i rest h = ground arith

-- the loop ends early exactly at an element with the handle
scan_lem :
    (handle n f : ℕ) (l : List (ℕ × ℕ))
    → HasInterfaces l
    → scan handle n f l ≡ (
        if has_handle handle l
        then returned (first_of handle l)
        else scanned (last_of 0 n l) (if f == 0 then first_or 0 l else f))
unfolding scan
scan_lem handle n f [] u = ap (scanned n) (ground arith)
scan_lem handle n f ((h, i) ∷ l) (pos, u) = elim (Bool-cases (h == handle)) [
  | inl t ↦ rw t refl
  | inr t ↦
      rw (t, scan_lem handle (if h == 0 then i else n) (if f == 0 then i else f) l u)
        (ap
          (λ x.
            if has_handle handle l
            then returned (first_of handle l)
            else scanned (last_of 0 (if h == 0 then i else n) l) x)
          (chosen_lem f i (first_or 0 l) pos))
]

-- The comment in `find_protocol`: the interface that it names, if one of its cases applies.
abbrev pub documented : ℕ → List (ℕ × ℕ) → Option ℕ
documented handle [] = none
documented handle (e ∷ l) = some (
    if has_handle handle (e ∷ l)
    then first_of handle (e ∷ l)
    else (if has_handle 0 (e ∷ l) then last_of 0 0 (e ∷ l) else first_or 0 (e ∷ l)))

last_of-default : (d : ℕ) (l : List (ℕ × ℕ)) → has_handle 0 l ≡ false → last_of 0 d l ≡ d
last_of-default d [] e = refl
last_of-default d ((h, i) ∷ l) e = elim (Bool-cases (h == 0)) [
  | inl t ↦ absurd (true≢false (rw t at e))
  | inr t ↦ rw t (last_of-default d l (rw t at e))
]

last_of_pos :
    (d : ℕ) (l : List (ℕ × ℕ))
    → HasInterfaces l
    → (has_handle 0 l ≡ true) ⊎ (0 < d)
    → 0 < last_of 0 d l
last_of_pos d [] u (inl c) = absurd (true≢false (sym c))
last_of_pos d [] u (inr c) = c
last_of_pos d ((h, i) ∷ l) (pos, u) c = elim (Bool-cases (h == 0)) [
  | inl t ↦ rw t (last_of_pos i l u (inr pos))
  | inr t ↦ rw t (last_of_pos d l u (elim c [ inl a ↦ inl (rw t at a) | inr b ↦ inr b ]))
]

-- every element has a null interface
abbrev pub HasOnlyNull : List (ℕ × ℕ) → Type 0
HasOnlyNull [] = Unit
HasOnlyNull ((h, i) ∷ l) = (i ≡ 0) × HasOnlyNull l

scan_null :
    (handle : ℕ) (l : List (ℕ × ℕ))
    → HasOnlyNull l
    → has_handle handle l ≡ false
    → scan handle 0 0 l ≡ scanned 0 0
unfolding scan
scan_null handle [] u n = refl
scan_null handle ((h, i) ∷ l) (z, u) n = elim (Bool-cases (h == handle)) [
  | inl t ↦ absurd (true≢false (rw t at n))
  | inr t ↦ rw (t, z, if_same {A = ℕ} (h == 0) 0) (scan_null handle l u (rw t at n))
]

module _ {K : Type 0} (g : MultiMap K (ℕ × ℕ)) where
  -- a new dummy where the comment names no interface
  abbrev pub answer : K → ℕ → g.Store → Option ℕ → ℕ × g.Store
  answer guid dummy m (some intf) = (intf, m)
  answer guid dummy m none = (dummy, g.emplace guid (0, dummy) m)

  after_scan-null :
      (guid : K) (dummy n f : ℕ) (m : g.Store)
      → 0 < n
      → after_scan g guid dummy m (scanned n f) ≡ (n, m)
  after_scan-null guid dummy n f m h = rw (not_zero n h) refl

  after_scan-first :
      (guid : K) (dummy f : ℕ) (m : g.Store)
      → 0 < f
      → after_scan g guid dummy m (scanned 0 f) ≡ (f, m)
  after_scan-first guid dummy f m h = rw (not_zero f h) refl

  after_scan-answer :
      (guid : K) (handle dummy : ℕ) (m : g.Store) (l : List (ℕ × ℕ))
      → HasInterfaces l
      → after_scan g guid dummy m (scan handle 0 0 l) ≡ answer guid dummy m (documented handle l)
  after_scan-answer guid handle dummy m [] u = unfold scan in refl
  after_scan-answer guid handle dummy m (e ∷ l) u = elim (Bool-cases (has_handle handle (e ∷ l))) [
    | inl t ↦ rw (scan_lem handle 0 0 (e ∷ l) u, t) refl
    | inr t ↦ elim (Bool-cases (has_handle 0 (e ∷ l))) [
      | inl z ↦
          rw (scan_lem handle 0 0 (e ∷ l) u, t, z)
            (after_scan-null guid dummy (last_of 0 0 (e ∷ l)) (first_or 0 (e ∷ l)) m
              (last_of_pos 0 (e ∷ l) u (inl z)))
      | inr z ↦
          rw (scan_lem handle 0 0 (e ∷ l) u, t, z, last_of-default 0 (e ∷ l) z)
            (after_scan-first guid dummy e.1 m u.0)
    ]
  ]

  -- Where no interface under the GUID is NULL, find_protocol returns what its comment says: the
  -- first interface of the handle, else the last one under the NULL handle, else the first one
  -- of all, and leaves the database as it is; with none it returns a new dummy and enters it
  -- under the NULL handle.
  pub find_protocol-documented :
      (guid : K) (handle dummy : ℕ) (m : g.Store)
      → HasInterfaces (g.equal_range guid m)
      → find_protocol g guid handle dummy m
        ≡ answer guid dummy m (documented handle (g.equal_range guid m))
  unfolding find_protocol
  find_protocol-documented guid handle dummy m u =
      after_scan-answer guid handle dummy m (g.equal_range guid m) u

  -- Where every interface under the GUID is NULL and none is the handle's, find_protocol makes a
  -- new dummy although there are interfaces under the GUID.
  pub find_protocol-null :
      (guid : K) (handle dummy : ℕ) (m : g.Store)
      → HasOnlyNull (g.equal_range guid m)
      → has_handle handle (g.equal_range guid m) ≡ false
      → find_protocol g guid handle dummy m ≡ (dummy, g.emplace guid (0, dummy) m)
  unfolding find_protocol
  find_protocol-null guid handle dummy m u n = rw (scan_null handle (g.equal_range guid m) u n) refl
