-- ===== src/RangeMap/Inject.antt =====
-- range_map.hpp: `inject`, which merges the new interval with neighbours of the same value.
mod Merge
mod Adjust
use mathlib.Core.Path.{subst}
use efiperun_mod.Prelude.{
  ℕ, ◌≡◌, ◌≤◌, ◌<◌, refl, sym, ap, ◌∙◌, true, false, ◌&&◌, Option, none, some, List, [], ◌∷◌, ltb,
  leb, ◌==◌, if◌then◌else◌, arith, inl, inr, Bool-cases, ==_iff, leb→le, ◌⊎◌, Eq, &&-eq-true,
}
use efiperun_mod.RangeMap.{
  Entry, Map, Place, Iter, entry, rejoin, lower_bound, inject, inject_at, adjust, map_emplace,
  erase_key, has_key, ends_before, starts_after, fill_gap, left_merge, right_merge, set_right, tail,
  right_or, key_or,
}
use efiperun_mod.RangeMap.Intervals.{
  within, within_iff, view, IsFrom, IsUpto, IsLowerBound, bound, lower_bound-IsLowerBound,
  IsUpto-mono, IsUpto-bound, map_emplace-rejoin, erase_key-rejoin, StartsFrom,
}
use efiperun_mod.RangeMap.Lookup.{view-Holds}
use efiperun_mod.RangeMap.Insert.{
  Updates, rejoin-Updates, map_emplace-fresh, map_emplace-Updates, Meets, IsInserted, IsFree-gap,
  Meets-starts, IsFrom-ends_before,
}
use efiperun_mod.RangeMap.Inject.Merge.{fill_gap-Updates}
use efiperun_mod.RangeMap.Inject.Adjust.{IsAdjusted, Adjusted, adjust-Adjusted}

module _ {V : Type 0} ⦃veq : Eq V⦄ where
  inject_gap-IsInserted :
      (l r : ℕ) (v : V) (b a : List (Entry V))
      → l < r
      → IsUpto l b
      → IsFrom r a
      → IsInserted l r v (rejoin b a) (fill_gap l r v b a, true)
  inject_gap-IsInserted l r v b a lt u f =
      (lt, IsFree-gap l r l b a (omega arith) u f, fill_gap-Updates l r v lt b a u f)

  IsUpto-starts_after :
      (l n : ℕ) (b : List (Entry V)) → IsUpto n b → starts_after l b ≡ true → IsUpto l b
  unfolding starts_after
  IsUpto-starts_after l n [] u e = tt
  IsUpto-starts_after l n (p ∷ b) u e = (leb→le _ _ e, u.1, u.2)

  Meets-next :
      (l r : ℕ) (m : Map V) (b : List (Entry V)) (i : Entry V) (a : List (Entry V))
      → IsAdjusted l m (b, i, a)
      → ends_before r a ≡ false
      → Meets l r m
  unfolding ends_before rejoin
  Meets-next l r m b i [] w t = absurd (cc)
  Meets-next l r m b i (n ∷ a) w t =
      Meets-starts l r m (i ∷ b) n a w.whole
        (omega arith, w.rest.1, IsUpto-mono (bound b) i.left b w.rest.0 w.upto) w.rest.2 w.next
        (ground arith)

  -- where neither gap beside the place has room, the new interval meets the map
  module _ (l r : ℕ) (lt : l < r) (m : Map V) (b : List (Entry V)) (i : Entry V)
      (a : List (Entry V)) (w : IsAdjusted l m (b, i, a)) where
    starts_before_end : leb r i.left && starts_after l b ≡ false → i.left < r
    unfolding starts_after
    starts_before_end t = elim w.starts [
      | inl e ↦
          let short : leb r i.left && starts_after {V = V} l [] ≡ false = rw e at t in ground arith
      | inr le ↦ omega arith
    ]

    Meets-adjusted :
        leb r i.left && starts_after l b ≡ false
        → leb i.right l && ends_before r a ≡ false
        → Meets l r m
    Meets-adjusted s t = elim (Bool-cases (ltb l i.right)) [
      | inl c ↦ elim (Bool-cases (leb l i.left)) [
        | inl d ↦
            Meets-starts l r m b i a w.whole w.upto w.rest (leb→le _ _ d) (starts_before_end s)
        | inr d ↦ (
          l,
          i.value,
          within_iff l r l (omega arith),
          view-Holds l m (b, i, a)
              (record { whole = w.whole; upto = w.upto; rest = w.rest; inside = ground arith }),
        )
      ]
      | inr c ↦ Meets-next l r m b i a w (ground arith)
    ]

  inject_at-IsInserted :
      (l r : ℕ) (v : V) (m : Map V) (w : Option (Place V))
      → l < r
      → Adjusted l m w
      → IsInserted l r v m (inject_at l r v m w)
  unfolding inject_at
  inject_at-IsInserted l r v m none lt h = rw h (
      unfold map_emplace has_key in
      (
        lt,
        λ q. unfold view in ground arith,
        unfold rejoin in map_emplace-Updates l r v [] [] lt tt tt,
      ))
  inject_at-IsInserted l r v m (some (b, i, a)) lt h =
      elim (Bool-cases (leb r i.left && starts_after l b)) [
        | inl t ↦
            let (c, d) = &&-eq-true (leb r i.left) (starts_after l b) t in
            rw t (
              subst (λ n. IsInserted l r v n (fill_gap l r v b (i ∷ a), true)) h.whole
                (inject_gap-IsInserted l r v b (i ∷ a) lt
                  (IsUpto-starts_after l (bound b) b h.upto d) (leb→le _ _ c, h.rest.1, h.rest.2)))
        | inr t ↦ elim (Bool-cases (leb i.right l && ends_before r a)) [
          | inl s ↦
              let (c, d) = &&-eq-true (leb i.right l) (ends_before r a) s in
              let u = IsUpto-mono (bound b) i.left b h.rest.0 h.upto in
              rw (t, s)
                (subst (λ n. IsInserted l r v n (fill_gap l r v (i ∷ b) a, true))
                  (unfold rejoin in h.whole)
                  (inject_gap-IsInserted l r v (i ∷ b) a lt (leb→le _ _ c, h.rest.1, u)
                    (IsFrom-ends_before i.right r a h.rest.2 d)))
          | inr s ↦ rw (t, s) (refl, inr (Meets-adjusted l r lt m b i a h t s))
        ]
      ]

  -- On a well-formed map `inject` succeeds, and what it then does to the values of points, is as
  -- with `insert`: merging with neighbours changes no value.
  pub inject-IsInserted :
      (l r : ℕ) (v : V) (m : Map V) → IsFrom 0 m → IsInserted l r v m (inject l r v m)
  unfolding inject
  inject-IsInserted l r v m f = elim (Bool-cases (leb r l)) [
    | inl t ↦ rw t (refl, inl (leb→le r l t))
    | inr t ↦ rw t (
        inject_at-IsInserted l r v m (adjust l (lower_bound l m)) (ground arith)
          (adjust-Adjusted l m (lower_bound l m) (lower_bound-IsLowerBound l m f)))
  ]
