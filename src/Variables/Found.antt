-- ===== src/Variables/Found.antt =====
-- efihooks.cpp: which name `get_variable` finds a variable under that `set_variable` has stored.
use efiperun_mod.Prelude.{
  ℕ, ◌*◌, ◌/◌, ◌%◌, ◌^◌, ◌≡◌, ◌≢◌, ◌<◌, refl, ap, ◌∙◌, true, false, ◌&&◌, ◌==◌, if◌then◌else◌, none,
  some, List, [], ◌∷◌, ◌++◌, length, arith, Bool-cases, inl, inr, ==_iff, &&-eq-true,
}
use efiperun_mod.Prelude.Text.{take, take-eq_self}
use efiperun_mod.Protocols.Multi.{MultiMap}
use efiperun_mod.Variables.{
  Variable, same_chars, char_length, is_name, find_name, get_variable, set_variable,
}

-- an element whose neighbours are not found is found where its own name fits
find_name-inserted :
    (behind : Variable → List ℕ) (name : List ℕ) (v : Variable) (pre post : List Variable)
    → find_name behind name (pre ++ post) ≡ none
    → find_name behind name (pre ++ (v ∷ post))
      ≡ (if is_name (v.0 ++ behind v) name then some v.1 else none)
find_name-inserted behind name v [] post e = rw e refl
find_name-inserted behind name v (u ∷ pre) post e =
    elim (Bool-cases (is_name (u.0 ++ behind u) name)) [
      | inl t ↦ let found = rw t at e in absurd (cc)
      | inr t ↦ rw t (find_name-inserted behind name v pre post (rw t at e))
    ]

same_chars-eq : (a b : List ℕ) → length a ≡ length b → same_chars (length b) a b ≡ true → a ≡ b
same_chars-eq [] [] e h = refl
same_chars-eq [] (y ∷ b) e h = absurd (omega arith)
same_chars-eq (x ∷ a) [] e h = absurd (omega arith)
same_chars-eq (x ∷ a) (y ∷ b) e h =
    let (x_y, rest) = &&-eq-true (x == y) (same_chars (length b) a b) h in
    let tails = same_chars-eq a b (omega arith) rest in cc ((==_iff x y).0 x_y, tails)

same_chars_self : (a : List ℕ) → same_chars (length a) a a ≡ true
same_chars_self [] = refl
same_chars_self (x ∷ a) = ground (arith, same_chars_self a)

short_length : (a : List ℕ) → length a < 2 ^ 32 → char_length a ≡ length a
short_length a h = omega arith

is_name-short :
    (a b : List ℕ)
    → length a < 2 ^ 32
    → length b < 2 ^ 32
    → is_name a b ≡ (length a == length b && same_chars (length b) a b)
is_name-short a b h k = rw (short_length a h, short_length b k) refl

is_name-eq : (a b : List ℕ) → length a < 2 ^ 32 → length b < 2 ^ 32 → is_name a b ≡ true → a ≡ b
is_name-eq a b h k e =
    let (l, r) = &&-eq-true _ _ (rw (is_name-short a b h k) at e) in
    same_chars-eq a b ((==_iff (length a) (length b)).0 l) r

is_name_self : (a : List ℕ) → length a < 2 ^ 32 → is_name a a ≡ true
is_name_self a h =
    rw (is_name-short a a h h, (==_iff (length a) (length a)).1 refl) (same_chars_self a)

is_name_other : (a b : List ℕ) → length a < 2 ^ 32 → length b < 2 ^ 32 → a ≢ b → is_name a b ≡ false
is_name_other a b h k n = elim (Bool-cases (is_name a b)) [
  | inl t ↦ absurd (n (is_name-eq a b h k t))
  | inr t ↦ t
]

take_whole :
    (name : List ℕ) → length name < 2 ^ 31 → take (length name * 2 % 2 ^ 32 / 2) name ≡ name
take_whole name h = take-eq_self (length name * 2 % 2 ^ 32 / 2) name (omega arith)

-- what the characters of a stored name read as, with those behind its allocation
abbrev pub read_name : (Variable → List ℕ) → Variable → List ℕ
read_name behind v = v.0 ++ behind v

module _ {K : Type 0} (g : MultiMap K Variable) (behind : Variable → List ℕ) (guid : K)
    (name wanted contents : List ℕ) (attributes : ℕ) (m : g.Store) where
  -- the variable that is stored
  abbrev pub stored : Variable
  stored = (name, record { contents = contents; attributes = attributes })

  set_variable_lem :
      length name < 2 ^ 31
      → set_variable g guid name contents attributes m ≡ g.emplace guid stored m
  unfolding set_variable
  set_variable_lem h =
      ap (λ x. g.emplace guid (x, record { contents = contents; attributes = attributes }) m)
        (take_whole name h)

  get_variable_lem :
      length name < 2 ^ 31
      → get_variable g behind guid wanted m ≡ none
      → get_variable g behind guid wanted (set_variable g guid name contents attributes m)
        ≡ (if is_name (read_name behind stored) wanted then some stored.1 else none)
  unfolding get_variable
  get_variable_lem h e =
      let (pre, post, before, after) = g.range_emplace guid stored m in
      rw (set_variable_lem h, after)
        (find_name-inserted behind wanted stored pre post (rw before at e))

  -- Where nothing was found under a name before, a variable that set_variable has stored is found
  -- under it, with its data and attributes, exactly if the stored characters, read on behind their
  -- allocation up to the next zero, are the name; the name stored has fewer than 2 ^ 31 characters,
  -- and the two compared have fewer than 2 ^ 32.
  pub get_variable-set_variable :
      length name < 2 ^ 31
      → length wanted < 2 ^ 32
      → length (read_name behind stored) < 2 ^ 32
      → get_variable g behind guid wanted m ≡ none
      → let found =
          get_variable g behind guid wanted (set_variable g guid name contents attributes m) in
        (read_name behind stored ≡ wanted → found ≡ some stored.1)
        × (read_name behind stored ≢ wanted → found ≡ none)
  get_variable-set_variable h k l e = (
    λ same. get_variable_lem h e ∙ rw (same, is_name_self wanted k) refl,
    λ other.
        get_variable_lem h e ∙ rw (is_name_other (read_name behind stored) wanted l k other) refl,
  )
