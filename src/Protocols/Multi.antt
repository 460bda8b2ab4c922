-- ===== src/Protocols/Multi.antt =====
-- `std::unordered_multimap`, as efihooks.cpp uses it: the operations and what C++ promises of them,
-- and a list of pairs that keeps the promise.
use efiperun_mod.Prelude.{
  ◌≡◌, ◌≢◌, refl, sym, List, [], ◌∷◌, ◌++◌, if◌then◌else◌, Eq, Bool-cases, inl, inr,
}

-- `l'` is `l` with `v` put in somewhere
abbrev pub Inserted {ℓ} : {V : Type ℓ} → V → List V → List V → Type ℓ
Inserted {V = V} v l l' =
    (before : List V) × (after : List V) × (l ≡ before ++ after) × (l' ≡ before ++ (v ∷ after))

-- Where a new element goes among those of an equal key is not specified; the others keep their order.
pub record MultiMap (K V : Type 0) : Type 1 where
  pub Store : Type 0
  pub empty : Store
  pub emplace : K → V → Store → Store
  pub equal_range : K → Store → List V
  pub range_empty : (k : K) → equal_range k empty ≡ []
  pub range_emplace :
      (k : K) (v : V) (m : Store) → Inserted v (equal_range k m) (equal_range k (emplace k v m))
  pub range_other :
      (k j : K) (v : V) (m : Store) → k ≢ j → equal_range j (emplace k v m) ≡ equal_range j m

module _ {K V : Type 0} (e : Eq K) where
  abbrev pub values : K → List (K × V) → List V
  values k [] = []
  values k ((j, v) ∷ m) = let rest = values k m in if e.equal k j then v ∷ rest else rest

  pub values_same : (k : K) (v : V) (m : List (K × V)) → values k ((k, v) ∷ m) ≡ v ∷ values k m
  values_same k v m = rw ((e.equal_iff k k).1 refl) refl

  pub values_other :
      (k j : K) (v : V) (m : List (K × V)) → k ≢ j → values j ((k, v) ∷ m) ≡ values j m
  values_other k j v m n = elim (Bool-cases (e.equal j k)) [
    | inl t ↦ absurd (n (sym ((e.equal_iff j k).0 t)))
    | inr t ↦ rw t refl
  ]

  -- a list of pairs, the newest first
  abbrev pub list_map : MultiMap K V
  list_map = record {
    Store = List (K × V);
    empty = [];
    emplace = λ k v m. (k, v) ∷ m;
    equal_range = values;
    range_empty = λ k. refl;
    range_emplace = λ k v m. ([], values k m, refl, values_same k v m);
    range_other = values_other;
  }
