-- ===== src/RangeMap/Pending.antt =====
-- range_map.hpp: what `erase(l, r)` finds in each round, and the measure that its loop lowers.
use mathlib.Core.Path.{subst}
use efiperun_mod.Prelude.{
  ℕ, ◌+◌, ◌≡◌, ◌≤◌, ◌<◌, refl, sym, ap, ◌∙◌, Option, none, some, List, [], ◌∷◌, ltb, if◌then◌else◌,
  arith, length, lt→ltb,
}
use efiperun_mod.RangeMap.{
  Entry, Map, Place, Iter, rejoin, lower_bound, locate, from_point, place_at,
}
use efiperun_mod.RangeMap.Intervals.{
  view, IsFrom, IsUpto, IsLowerBound, bound, lower_bound-IsLowerBound, view-rejoin_right,
  view-eq-none_below,
}
use efiperun_mod.RangeMap.Lookup.{Located, locate-Located}
use efiperun_mod.RangeMap.Insert.{bound_le}

module _ {ℓ} {V : Type ℓ} where
  -- the first entry of `m` that ends after `p`
  pub record IsNext (p : ℕ) (m : Map V) (w : Place V) : Type ℓ where
    pub whole : rejoin w.0 (w.1 ∷ w.2) ≡ m
    pub upto : IsUpto (bound w.0) w.0
    pub rest : IsFrom (bound w.0) (w.1 ∷ w.2)
    pub before : bound w.0 ≤ p
    pub reaches : p < w.1.right

  abbrev pub NextFrom : ℕ → Map V → Option (Place V) → Type ℓ
  NextFrom p m none = (q : ℕ) → p ≤ q → view m q ≡ none
  NextFrom p m (some w) = IsNext p m w

  place_at-NextFrom :
      (p : ℕ) (m : Map V) (i : Iter V)
      → IsLowerBound p m i
      → view m p ≡ none
      → NextFrom p m (place_at i)
  unfolding place_at
  place_at-NextFrom p m (b, []) h e = λ q le.
      let lb = bound_le p m b [] h e in
      ap (λ k. view k q) (sym h.whole)
      ∙ view-rejoin_right (bound b) q b [] (omega arith) h.upto
      ∙ (unfold view in refl)
  place_at-NextFrom p m (b, x ∷ a) h e = record {
    whole = h.whole;
    upto = h.upto;
    rest = h.rest;
    before = bound_le p m b (x ∷ a) h e;
    reaches = omega (arith, h.above, h.rest.1);
  }

  pub from_point-NextFrom : (p : ℕ) (m : Map V) → IsFrom 0 m → NextFrom p m (from_point p m)
  unfolding from_point
  from_point-NextFrom p m f = at_located (locate p (lower_bound p m)) (locate-Located p m f)
    where
      at_located :
          (w : Option (Place V))
          → Located p m w
          → NextFrom p m (elim w [ some w ↦ some w | none ↦ place_at (lower_bound p m) ])
      at_located none h = place_at-NextFrom p m (lower_bound p m) (lower_bound-IsLowerBound p m f) h
      at_located (some w) h = record {
        whole = h.whole;
        upto = h.upto;
        rest = h.rest;
        before = omega (arith, h.rest.0, h.inside.0);
        reaches = h.inside.1;
      }

  -- between `p` and the next entry there is no value
  pub view-IsNext :
      (p : ℕ) (m : Map V) (w : Place V)
      → IsNext p m w
      → (q : ℕ) → p ≤ q
      → q < w.1.left
      → view m q ≡ none
  view-IsNext p m w h q lo hi =
      ap (λ k. view k q) (sym h.whole)
      ∙ view-rejoin_right (bound w.0) q w.0 (w.1 ∷ w.2) (omega (arith, h.before)) h.upto
      ∙ view-eq-none_below w.1.left q (w.1 ∷ w.2) hi (omega arith, h.rest.1, h.rest.2)

  -- how many entries end after `p`
  unfoldable pub pending : ℕ → List (Entry V) → ℕ
  pending p [] = 0
  pending p (e ∷ m) = (if ltb p e.right then 1 else 0) + pending p m

  pub pending-le-length : (p : ℕ) (m : Map V) → pending p m ≤ length m
  unfolding pending
  pending-le-length p [] = omega arith
  pending-le-length p (e ∷ m) = ground (arith, pending-le-length p m)

  pending_mono : (p q : ℕ) (m : Map V) → p ≤ q → pending q m ≤ pending p m
  unfolding pending
  pending_mono p q [] h = omega arith
  pending_mono p q (e ∷ m) h = ground (arith, pending_mono p q m h)

  pub pending-rejoin :
      (p : ℕ) (b a : List (Entry V)) → pending p (rejoin b a) ≡ pending p b + pending p a
  unfolding pending rejoin
  pending-rejoin p [] a = omega arith
  pending-rejoin p (e ∷ b) a = omega (arith, pending-rejoin p b (e ∷ a))

  -- once the next entry is removed, or ends by `p`, fewer entries are pending
  pub pending_falls :
      (p : ℕ) (m : Map V) (w : Place V) (a : List (Entry V))
      → IsNext p m w
      → pending w.1.right a ≤ pending w.1.right w.2
      → pending w.1.right (rejoin w.0 a) < pending p m
  pending_falls p m (b, e, rest) a h le =
      subst (λ k. pending e.right (rejoin b a) < pending p k) h.whole
        (rw (pending-rejoin e.right b a, pending-rejoin p b (e ∷ rest))
          (omega (
            arith,
            pending_mono p e.right b (omega (arith, h.reaches)),
            pending_mono p e.right rest (omega (arith, h.reaches)),
            first,
          )))
    where
      first : pending p (e ∷ rest) ≡ 1 + pending p rest
      first = unfold pending in rw (lt→ltb p e.right h.reaches)
