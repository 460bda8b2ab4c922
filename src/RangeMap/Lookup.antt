-- ===== src/RangeMap/Lookup.antt =====
-- range_map.hpp: `locate` and the operations that read through it.
use efiperun_mod.Prelude.{
  ℕ, ◌+◌, ◌≡◌, ◌≤◌, ◌<◌, refl, sym, ap, ◌∙◌, true, Option, none, some, List, [], ◌∷◌, ltb, ◌==◌,
  if◌then◌else◌, arith, inl, inr, Bool-cases, ltb→lt, ==_iff,
}
use efiperun_mod.RangeMap.{
  Entry, Map, Place, rejoin, lower_bound, before_place, locate, lookup, find, found_at,
}
use efiperun_mod.RangeMap.Intervals.{
  within, within_bounds, within_iff, IsUpto-bound, view, IsFrom, IsUpto, IsLowerBound, bound,
  lower_bound-IsLowerBound, view-rejoin_right, view-eq-none_below,
}

module _ {ℓ} {V : Type ℓ} where
  -- the place of `m` whose interval holds `p`
  pub record Holds (p : ℕ) (m : Map V) (w : Place V) : Type ℓ where
    pub whole : rejoin w.0 (w.1 ∷ w.2) ≡ m
    pub upto : IsUpto (bound w.0) w.0
    pub rest : IsFrom (bound w.0) (w.1 ∷ w.2)
    pub inside : (w.1.left ≤ p) × (p < w.1.right)

  -- what `locate` finds at `p`: the place that holds it, or that there is none
  abbrev pub Located : ℕ → Map V → Option (Place V) → Type ℓ
  Located p m none = view m p ≡ none
  Located p m (some w) = Holds p m w

  pub view-Holds : (p : ℕ) (m : Map V) (w : Place V) → Holds p m w → view m p ≡ some w.1.value
  unfolding view
  view-Holds p m w h =
      ap (λ k. view k p) (sym h.whole)
      ∙ view-rejoin_right (bound w.0) p w.0 (w.1 ∷ w.2) (omega arith) h.upto
      ∙ rw (within_iff w.1.left w.1.right p h.inside)

  -- the entry before a lower bound, where it reaches over the point
  pub before-Holds :
      (p : ℕ) (m : Map V) (e : Entry V) (b a : List (Entry V))
      → IsLowerBound p m (e ∷ b, a)
      → p < e.right
      → Holds p m (b, e, a)
  unfolding rejoin
  before-Holds p m e b a h lt =
      let (u, le) = IsUpto-bound e.left b h.upto.2 in
      record {
        whole = h.whole;
        upto = u;
        rest = (le, h.upto.1, h.rest);
        inside = (omega (arith, h.below), lt);
      }

  before_place-Located :
      (p : ℕ) (m : Map V) (b a : List (Entry V))
      → IsLowerBound p m (b, a)
      → IsFrom (p + 1) a
      → Located p m (before_place p b a)
  unfolding before_place rejoin
  before_place-Located p m [] a h f =
      ap (λ k. view k p) (sym h.whole) ∙ view-eq-none_below (p + 1) p a (omega arith) f
  before_place-Located p m (e ∷ b) a h f = elim (Bool-cases (ltb p e.right)) [
    | inl t ↦ rw t (before-Holds p m e b a h (ltb→lt _ _ t))
    | inr t ↦ rw t (
        ap (λ k. view k p) (sym h.whole)
        ∙ view-rejoin_right p p (e ∷ b) a (omega arith) (ground arith, h.upto.1, h.upto.2)
        ∙ view-eq-none_below (p + 1) p a (omega arith) f)
  ]

  pub locate-Located : (p : ℕ) (m : Map V) → IsFrom 0 m → Located p m (locate p (lower_bound p m))
  locate-Located p m f = at_iter (lower_bound p m) (lower_bound-IsLowerBound p m f)
    where
      at_iter :
          (i : List (Entry V) × List (Entry V)) → IsLowerBound p m i → Located p m (locate p i)
      at_iter (b, []) h = unfold locate in before_place-Located p m b [] h tt
      at_iter (b, e ∷ a) h = elim (Bool-cases (p == e.left)) [
        | inl t ↦
            unfold locate in
            rw t (record {
              whole = h.whole;
              upto = h.upto;
              rest = h.rest;
              inside = omega (arith, (==_iff p e.left).0 t);
            })
        | inr t ↦
            unfold locate in
            rw t (before_place-Located p m b (e ∷ a) h (ground arith, h.rest.1, h.rest.2))
      ]

  -- In a well-formed map `lookup` returns the value of the interval that holds the point, and
  -- `nullptr` where no interval does.
  pub lookup-view : (p : ℕ) (m : Map V) → IsFrom 0 m → lookup p m ≡ view m p
  unfolding lookup
  lookup-view p m f = from_located (locate p (lower_bound p m)) (locate-Located p m f)
    where
      from_located :
          (w : Option (Place V))
          → Located p m w
          → elim w [ none ↦ none | some (b, e, a) ↦ some e.value ] ≡ view m p
      from_located none h = sym h
      from_located (some w) h = sym (view-Holds p m w h)

  -- every point of the interval at a place has its value
  pub view_inside :
      (p : ℕ) (m : Map V) (w : Place V)
      → Holds p m w
      → (q : ℕ) → view m q ≡ (if within w.1.left w.1.right q then some w.1.value else view m q)
  view_inside p m w h q = elim (Bool-cases (within w.1.left w.1.right q)) [
    | inl t ↦ rw t (
        view-Holds q m w (record {
          whole = h.whole;
          upto = h.upto;
          rest = h.rest;
          inside = within_bounds w.1.left w.1.right q t;
        }))
    | inr t ↦ rw t
  ]

  -- what `find` promises at `p`: the zero points and `nullptr` where no interval holds it, else an
  -- interval that holds it, on all of which the map has the value
  abbrev pub IsFound : ℕ → ℕ → Map V → ℕ × ℕ × Option V → Type ℓ
  IsFound z p m (l, r, none) = (l ≡ z) × (r ≡ z) × (view m p ≡ none)
  IsFound z p m (l, r, some v) =
      (within l r p ≡ true) × ((q : ℕ) → view m q ≡ (if within l r q then some v else view m q))

  found_at-IsFound :
      (z p : ℕ) (m : Map V) (w : Option (Place V)) → Located p m w → IsFound z p m (found_at z w)
  unfolding found_at
  found_at-IsFound z p m none h = (refl, refl, h)
  found_at-IsFound z p m (some w) h =
      (within_iff w.1.left w.1.right p h.inside, view_inside p m w h)

  -- In a well-formed map `find` returns the interval that holds the point with its value, or the
  -- zero points and `nullptr` where no interval holds it.
  pub find-IsFound : (z p : ℕ) (m : Map V) → IsFrom 0 m → IsFound z p m (find z p m)
  unfolding find
  find-IsFound z p m f = found_at-IsFound z p m (locate p (lower_bound p m)) (locate-Located p m f)

  pub find-found_at :
      (z p : ℕ) (m : Map V) (w : Option (Place V))
      → locate p (lower_bound p m) ≡ w
      → find z p m ≡ found_at z w
  unfolding find
  find-found_at z p m w e = ap (found_at z) e
