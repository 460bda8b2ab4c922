-- ===== src/RangeMap/Insert.antt =====
-- range_map.hpp: `insert` and `erase(p)`.
use mathlib.Core.Path.{subst}
use efiperun_mod.Prelude.{
  ℕ, ◌+◌, ◌≡◌, ◌≤◌, ◌<◌, refl, ap, ◌∙◌, Bool, true, false, not, Option, none, some, List, [], ◌∷◌,
  ltb, leb, ◌==◌, if◌then◌else◌, arith, inl, inr, Bool-cases, ltb→lt, ltb-eq-false, leb→le, ◌⊎◌,
}
use efiperun_mod.RangeMap.{
  Entry, Map, Place, Iter, entry, rejoin, lower_bound, locate, insert, insert_at, map_emplace,
  has_key, ends_before, erase_point,
}
use efiperun_mod.RangeMap.Intervals.{
  within, within_bounds, within_iff, view, IsFrom, IsUpto, IsLowerBound, bound,
  lower_bound-IsLowerBound, view-rejoin_right, IsFrom-rejoin, IsFrom-mono, IsUpto-mono,
  view-eq-none_below, view-rejoin_update, map_emplace-rejoin, has_key-rejoin, has_key-eq-false,
}
use efiperun_mod.RangeMap.Lookup.{Located, locate-Located, view-Holds, before-Holds, view_inside}

pub ==-eq-false : (a b : ℕ) → b < a → a == b ≡ false
==-eq-false a b h = ground arith

module _ {ℓ} {V : Type ℓ} where
  -- `m'` is well-formed, means `w` on `[l, r)` and what `m` means elsewhere
  pub record Updates (l r : ℕ) (w : Option V) (m m' : Map V) : Type ℓ where
    pub ordered : IsFrom 0 m'
    pub reads : (q : ℕ) → view m' q ≡ (if within l r q then w else view m q)

  -- what follows an iterator is replaced
  pub rejoin-Updates :
      (n : ℕ) (b a a' : List (Entry V)) (l r : ℕ) (w : Option V)
      → IsUpto n b
      → n ≤ l
      → IsFrom n a'
      → ((q : ℕ) → view a' q ≡ (if within l r q then w else view a q))
      → Updates l r w (rejoin b a) (rejoin b a')
  rejoin-Updates n b a a' l r w u le f eq = record {
    ordered = IsFrom-rejoin n b a' u f;
    reads = view-rejoin_update n b a a' l r w u le eq;
  }

  pub map_emplace-fresh :
      (l r : ℕ) (v : V) (a : List (Entry V))
      → IsFrom (l + 1) a
      → map_emplace l r v a ≡ entry l r v ∷ a
  unfolding map_emplace
  map_emplace-fresh l r v [] f = refl
  map_emplace-fresh l r v (e ∷ a) f =
      rw (ltb-eq-false e.left l (omega arith), ==-eq-false e.left l (omega arith))

  -- a new entry between the entries before it and those after
  pub map_emplace-gap :
      (l r : ℕ) (v : V) (b a : List (Entry V))
      → l < r
      → IsUpto l b
      → IsFrom r a
      → map_emplace l r v (rejoin b a) ≡ rejoin b (entry l r v ∷ a)
  map_emplace-gap l r v b a h u f =
      map_emplace-rejoin l r v b a u
      ∙ ap (rejoin b) (map_emplace-fresh l r v a (IsFrom-mono r (l + 1) a (omega arith) f))

  pub map_emplace-Updates :
      (l r : ℕ) (v : V) (b a : List (Entry V))
      → l < r
      → IsUpto l b
      → IsFrom r a
      → Updates l r (some v) (rejoin b a) (map_emplace l r v (rejoin b a))
  map_emplace-Updates l r v b a h u f = rw (map_emplace-gap l r v b a h u f) (
      rejoin-Updates l b a (entry l r v ∷ a) l r (some v) u (omega arith) (omega arith, h, f)
        (λ q. unfold view in refl))

  -- no point of `[l, r)` has a value
  abbrev pub IsFree : ℕ → ℕ → Map V → Type ℓ
  IsFree l r m = (q : ℕ) → view m q ≡ (if within l r q then none else view m q)

  -- some point of `[l, r)` has a value
  abbrev pub Meets : ℕ → ℕ → Map V → Type ℓ
  Meets l r m = (q : ℕ) × (v : V) × (within l r q ≡ true) × (view m q ≡ some v)

  -- what `insert` and `inject` promise: `true` and the map updated on a free interval, or `false`
  -- and the map as it was, on an empty interval or one that meets the map
  abbrev pub IsInserted : ℕ → ℕ → V → Map V → Map V × Bool → Type ℓ
  IsInserted l r v m (m', true) = (l < r) × IsFree l r m × Updates l r (some v) m m'
  IsInserted l r v m (m', false) = (m' ≡ m) × ((r ≤ l) ⊎ Meets l r m)

  pub bound_le :
      (l : ℕ) (m : Map V) (b a : List (Entry V))
      → IsLowerBound l m (b, a)
      → view m l ≡ none
      → bound b ≤ l
  bound_le l m [] a h e = omega arith
  bound_le l m (x ∷ b) a h e = elim (Bool-cases (ltb l x.right)) [
    | inl t ↦
        let found = view-Holds l m _ (before-Holds l m x b a h (ltb→lt _ _ t)) in absurd (cc found)
    | inr t ↦ ground arith
  ]

  pub IsFree-gap :
      (l r n : ℕ) (b a : List (Entry V)) → n ≤ l → IsUpto n b → IsFrom r a → IsFree l r (rejoin b a)
  IsFree-gap l r n b a le u f q = elim (Bool-cases (within l r q)) [
    | inl t ↦
        let (lo, hi) = within_bounds l r q t in
        rw t (view-rejoin_right n q b a (omega arith) u ∙ view-eq-none_below r q a hi f)
    | inr t ↦ rw t
  ]

  pub IsFrom-ends_before :
      (n r : ℕ) (a : List (Entry V)) → IsFrom n a → ends_before r a ≡ true → IsFrom r a
  unfolding ends_before
  IsFrom-ends_before n r [] f e = tt
  IsFrom-ends_before n r (x ∷ a) f e = (leb→le _ _ e, f.1, f.2)

  emplace-IsInserted :
      (l r : ℕ) (v : V) (b a : List (Entry V))
      → l < r
      → IsUpto l b
      → IsFrom r a
      → let m = rejoin b a in IsInserted l r v m (map_emplace l r v m, not (has_key l m))
  emplace-IsInserted l r v b a lt u f =
      let fresh = has_key-rejoin l b a u ∙ has_key-eq-false l a (IsFrom-mono r (l + 1) a lt' f) in
      rw fresh (lt, IsFree-gap l r l b a (omega arith) u f, map_emplace-Updates l r v b a lt u f)
    where
      lt' : l + 1 ≤ r
      lt' = omega arith

  -- an entry that starts inside `[l, r)`
  pub Meets-starts :
      (l r : ℕ) (m : Map V) (b : List (Entry V)) (e : Entry V) (a : List (Entry V))
      → rejoin b (e ∷ a) ≡ m
      → IsUpto (bound b) b
      → IsFrom (bound b) (e ∷ a)
      → l ≤ e.left
      → e.left < r
      → Meets l r m
  Meets-starts l r m b e a whole u f lo hi = (
    e.left,
    e.value,
    within_iff l r e.left (lo, hi),
    view-Holds e.left m (b, e, a)
        (record { whole = whole; upto = u; rest = f; inside = (omega arith, f.1) }),
  )

  pub Meets-after :
      (l r : ℕ) (m : Map V) (b a : List (Entry V))
      → IsLowerBound l m (b, a)
      → ends_before r a ≡ false
      → Meets l r m
  unfolding ends_before
  Meets-after l r m b [] k t = cc
  Meets-after l r m b (e ∷ a) k t =
      Meets-starts l r m b e a k.whole k.upto k.rest k.above (ground arith)

  insert_at-IsInserted :
      (l r : ℕ) (v : V) (m : Map V)
      → l < r
      → (w : Option (Place V)) (i : Iter V) → Located l m w
      → IsLowerBound l m i
      → IsInserted l r v m (insert_at l r v m w i)
  unfolding insert_at
  insert_at-IsInserted l r v m lt (some w) i h k =
      (refl, inr (l, w.1.value, within_iff l r l (omega arith), view-Holds l m w h))
  insert_at-IsInserted l r v m lt none (b, a) h k = elim (Bool-cases (ends_before r a)) [
    | inl t ↦
        let le = bound_le l m b a k h in
        rw t (
          subst (λ n. IsInserted l r v n (map_emplace l r v n, not (has_key l n))) k.whole
            (emplace-IsInserted l r v b a lt (IsUpto-mono (bound b) l b le k.upto)
              (IsFrom-ends_before (bound b) r a k.rest t)))
    | inr t ↦ rw t (refl, inr (Meets-after l r m b a k t))
  ]

  -- On a well-formed map `insert` succeeds exactly when `[l, r)` is not empty and no point of it has
  -- a value; it then gives its points the value and changes no other point. A failing call changes
  -- nothing.
  pub insert-IsInserted :
      (l r : ℕ) (v : V) (m : Map V) → IsFrom 0 m → IsInserted l r v m (insert l r v m)
  unfolding insert
  insert-IsInserted l r v m f = elim (Bool-cases (leb r l)) [
    | inl t ↦ rw t (refl, inl (leb→le r l t))
    | inr t ↦ rw t (
        insert_at-IsInserted l r v m (ground arith) (locate l (lower_bound l m)) (lower_bound l m)
          (locate-Located l m f) (lower_bound-IsLowerBound l m f))
  ]

  -- what `erase(p)` promises: the interval that holds the point is gone and the rest stays, or
  -- `false` and the map as it was where no interval holds it
  abbrev pub IsErased : ℕ → Map V → Map V × Bool → Type ℓ
  IsErased p m (m', true) =
      (l : ℕ) × (r : ℕ) × (v : V) × (within l r p ≡ true)
      × ((q : ℕ) → view m q ≡ (if within l r q then some v else view m q))
      × Updates l r none m m'
  IsErased p m (m', false) = (m' ≡ m) × (view m p ≡ none)

  -- without its entry at a place, a map has no value on that entry's interval
  pub rejoin-erase-Updates :
      (m : Map V) (b : List (Entry V)) (e : Entry V) (a : List (Entry V))
      → rejoin b (e ∷ a) ≡ m
      → IsUpto (bound b) b
      → IsFrom (bound b) (e ∷ a)
      → Updates e.left e.right none m (rejoin b a)
  rejoin-erase-Updates m b e a whole u f =
      subst (λ n. Updates e.left e.right none n (rejoin b a)) whole
        (rejoin-Updates (bound b) b (e ∷ a) a e.left e.right none u f.0
          (IsFrom-mono e.right (bound b) a (omega arith) f.2)
          λ q. elim (Bool-cases (within e.left e.right q)) [
            | inl t ↦
                let (lo, hi) = within_bounds e.left e.right q t in
                rw t (view-eq-none_below e.right q a hi f.2)
            | inr t ↦ unfold view in rw t
          ])

  erase_at-IsErased :
      (p : ℕ) (m : Map V) (w : Option (Place V))
      → Located p m w
      → IsErased p m (elim w [ none ↦ (m, false) | some (b, e, a) ↦ (rejoin b a, true) ])
  erase_at-IsErased p m none h = (refl, h)
  erase_at-IsErased p m (some (b, e, a)) h = (
    e.left,
    e.right,
    e.value,
    within_iff e.left e.right p h.inside,
    view_inside p m (b, e, a) h,
    rejoin-erase-Updates m b e a h.whole h.upto h.rest,
  )

  -- On a well-formed map `erase(p)` removes the whole interval that holds the point, with its value
  -- on all of it, and nothing else; it returns `false` and changes nothing where no interval holds
  -- the point.
  pub erase_point-IsErased : (p : ℕ) (m : Map V) → IsFrom 0 m → IsErased p m (erase_point p m)
  unfolding erase_point
  erase_point-IsErased p m f =
      erase_at-IsErased p m (locate p (lower_bound p m)) (locate-Located p m f)
