-- ===== src/RangeMap/Inject/Adjust.antt =====
-- range_map.hpp: the place from which `inject` starts.

use efiperun_mod.Prelude.{
  ℕ, ◌≡◌, ◌≤◌, refl, sym, Option, none, some, List, [], ◌∷◌, ◌==◌, arith, inl, inr, Bool-cases,
  ==_iff, ◌⊎◌, Eq,
}
use efiperun_mod.RangeMap.{Entry, Map, Place, Iter, rejoin, adjust}
use efiperun_mod.RangeMap.Intervals.{IsFrom, IsUpto, IsLowerBound, bound, IsUpto-bound, StartsFrom}

module _ {V : Type 0} ⦃veq : Eq V⦄ where
  -- What `adjust` hands on: a place of the map, which is its first one, or starts at or below `l`
  -- while the next one does not.
  pub record IsAdjusted (l : ℕ) (m : Map V) (w : Place V) : Type 0 where
    pub whole : rejoin w.0 (w.1 ∷ w.2) ≡ m
    pub upto : IsUpto (bound w.0) w.0
    pub rest : IsFrom (bound w.0) (w.1 ∷ w.2)
    pub starts : (w.0 ≡ []) ⊎ (w.1.left ≤ l)
    pub next : StartsFrom l w.2

  abbrev pub Adjusted : ℕ → Map V → Option (Place V) → Type 0
  Adjusted l m none = m ≡ []
  Adjusted l m (some w) = IsAdjusted l m w

  StartsFrom-IsFrom : (l n : ℕ) (a : List (Entry V)) → l ≤ n → IsFrom n a → StartsFrom l a
  StartsFrom-IsFrom l n [] h f = tt
  StartsFrom-IsFrom l n (e ∷ a) h f = omega arith

  step_back-IsAdjusted :
      (l : ℕ) (m : Map V) (p : Entry V) (b a : List (Entry V))
      → IsLowerBound l m (p ∷ b, a)
      → IsAdjusted l m (b, p, a)
  unfolding rejoin
  step_back-IsAdjusted l m p b a h =
      let (u, le) = IsUpto-bound p.left b h.upto.2 in
      record {
        whole = h.whole;
        upto = u;
        rest = (le, h.upto.1, h.rest);
        starts = inr (omega (arith, h.below));
        next = h.above;
      }

  pub adjust-Adjusted :
      (l : ℕ) (m : Map V) (i : Iter V) → IsLowerBound l m i → Adjusted l m (adjust l i)
  unfolding adjust rejoin
  adjust-Adjusted l m ([], []) h = sym h.whole
  adjust-Adjusted l m (p ∷ b, []) h = step_back-IsAdjusted l m p b [] h
  adjust-Adjusted l m ([], e ∷ a) h = record {
    whole = h.whole;
    upto = h.upto;
    rest = h.rest;
    starts = inl refl;
    next = StartsFrom-IsFrom l e.right a (omega (arith, h.above, h.rest.1)) h.rest.2;
  }
  adjust-Adjusted l m (p ∷ b, e ∷ a) h = elim (Bool-cases (l == e.left)) [
    | inl t ↦ rw t (record {
      whole = h.whole;
      upto = h.upto;
      rest = h.rest;
      starts = inr (omega (arith, (==_iff l e.left).0 t));
      next = StartsFrom-IsFrom l e.right a (omega (arith, h.above, h.rest.1)) h.rest.2;
    })
    | inr t ↦ rw t (step_back-IsAdjusted l m p b (e ∷ a) h)
  ]
