-- ===== src/RangeMap/Placed.antt =====
-- range_map.hpp: where `insert` puts a new interval, and which ranges it overhangs.
use mathlib.Core.Path.{subst}
use efiperun_mod.Prelude.{
  ℕ, ◌+◌, ◌≡◌, ◌≤◌, ◌<◌, refl, sym, ◌∙◌, false, Option, none, some, List, ◌∷◌, ltb, leb, arith, inl,
  inr, Bool-cases, Eq,
}
use efiperun_mod.RangeMap.{
  Entry, Map, Place, Iter, entry, rejoin, lower_bound, locate, insert, insert_at, ends_before,
}
use efiperun_mod.RangeMap.Intervals.{
  view, IsFrom, IsUpto, IsLowerBound, bound, IsUpto-mono, IsFrom-mono, lower_bound-IsLowerBound,
}
use efiperun_mod.RangeMap.Lookup.{Located, locate-Located, view-Holds}
use efiperun_mod.RangeMap.Insert.{Meets-after, IsFrom-ends_before, map_emplace-gap, bound_le}
use efiperun_mod.RangeMap.Intervals.{within_bounds}
use efiperun_mod.RangeMap.Erase.{overhangs}
use efiperun_mod.RangeMap.Overhang.{overhangs_before, overhangs_later}

module _ {ℓ} {V : Type ℓ} where
  -- the entry stands in the map, between those that end before it and those that start after it
  pub record HasEntry (e : Entry V) (m : Map V) : Type ℓ where
    pub b : List (Entry V)
    pub a : List (Entry V)
    pub whole : rejoin b (e ∷ a) ≡ m
    pub upto : IsUpto e.left b
    pub rest : IsFrom e.right a

  -- no point from `l` to below `r` has a value
  abbrev IsEmpty : ℕ → ℕ → Map V → Type ℓ
  IsEmpty l r m = (q : ℕ) → l ≤ q → q < r → view m q ≡ none

  insert_at-HasEntry :
      (l r : ℕ) (v : V) (m : Map V)
      → l < r
      → IsEmpty l r m
      → (w : Option (Place V)) (i : Iter V) → Located l m w
      → IsLowerBound l m i
      → HasEntry (entry l r v) (insert_at l r v m w i).0
  unfolding insert_at
  insert_at-HasEntry l r v m lt free (some w) i h k =
      absurd (cc (view-Holds l m w h, free l (omega arith) lt))
  insert_at-HasEntry l r v m lt free none (b, a) h k = elim (Bool-cases (ends_before r a)) [
    | inl t ↦
        let upto = IsUpto-mono (bound b) l b (bound_le l m b a k h) k.upto in
        let rest = IsFrom-ends_before (bound b) r a k.rest t in
        rw t (record {
          b = b;
          a = a;
          whole = sym (map_emplace-gap l r v b a lt upto rest) ∙ rw k.whole refl;
          upto = upto;
          rest = rest;
        })
    | inr t ↦
        let (q, x, at, found) = Meets-after l r m b a k t in
        let (lo, hi) = within_bounds l r q at in absurd (cc (found, free q lo hi))
  ]

  -- On a range where no point has a value `insert` puts one new interval into the map.
  pub insert-HasEntry :
      (l r : ℕ) (v : V) (m : Map V)
      → IsFrom 0 m
      → l < r
      → ((q : ℕ) → l ≤ q → q < r → view m q ≡ none)
      → HasEntry (entry l r v) (insert l r v m).0
  unfolding insert
  insert-HasEntry l r v m f lt free =
      let late : leb r l ≡ false = ground arith in
      rw late (
        insert_at-HasEntry l r v m lt free (locate l (lower_bound l m)) (lower_bound l m)
          (locate-Located l m f) (lower_bound-IsLowerBound l m f))

module _ {V : Type 0} ⦃veq : Eq V⦄ where
  -- a range that starts where the entry starts is overhung where it ends before the entry
  pub overhangs-HasEntry :
      (e : Entry V) (r : ℕ) (m : Map V)
      → HasEntry e m
      → e.left < e.right
      → overhangs e.left r m ≡ ltb r e.right
  overhangs-HasEntry e r m h lt =
      subst (λ k. overhangs e.left r k ≡ ltb r e.right) h.whole
        (overhangs_before e.left r h.b (e ∷ h.a) h.upto
          ∙ here (
              overhangs_later e.left r h.a
                (IsFrom-mono e.right (e.left + 1) h.a (omega arith) h.rest)))
    where
      here : overhangs e.left r h.a ≡ false → overhangs e.left r (e ∷ h.a) ≡ ltb r e.right
      here later = unfold overhangs in ground arith
