-- ===== src/RangeMap/Erase/Steps.antt =====
-- range_map.hpp: what each test in the loop of `erase(l, r)` does to the map.
use mathlib.Core.Path.{subst}
use efiperun_mod.Prelude.{
  ℕ, ◌+◌, ◌≡◌, ◌≤◌, ◌<◌, refl, ap, ◌∙◌, Bool, true, false, ◌&&◌, none, some, List, ◌∷◌, ltb, leb,
  if◌then◌else◌, arith, inl, inr, Bool-cases, ltb→lt, lt→ltb, ==_iff, Eq,
}
use efiperun_mod.RangeMap.{Entry, Map, entry, rejoin, inject, map_emplace, erase_key}
use efiperun_mod.RangeMap.Intervals.{
  within, view, IsFrom, bound, view-eq-none_below, IsUpto-mono, IsFrom-mono, map_emplace-rejoin,
  erase_key-rejoin,
}
use efiperun_mod.RangeMap.Lookup.{view_inside}
use efiperun_mod.RangeMap.Insert.{
  Updates, rejoin-Updates, rejoin-erase-Updates, IsInserted, map_emplace-fresh,
}
use efiperun_mod.RangeMap.Inject.{inject-IsInserted}
use efiperun_mod.RangeMap.Pending.{IsNext, view-IsNext, pending}

module _ {V : Type 0} ⦃veq : Eq V⦄ where
  trim_reads :
      (l : ℕ) (e : Entry V) (a : List (Entry V)) (q : ℕ)
      → e.left < l
      → l < e.right
      → IsFrom e.right a
      → view (record e { right = l } ∷ a) q ≡ (if within l e.right q then none else view (e ∷ a) q)
  unfolding view
  trim_reads l e a q h k f = ground (arith, view-eq-none_below e.right q a)

  behead_reads :
      (r : ℕ) (e : Entry V) (a : List (Entry V)) (q : ℕ)
      → e.left < r
      → r < e.right
      → IsFrom e.right a
      → view (entry r e.right e.value ∷ a) q ≡ (if within e.left r q then none else view (e ∷ a) q)
  unfolding view
  behead_reads r e a q h k f = ground (arith, view-eq-none_below e.right q a)

  map_emplace-second :
      (r z : ℕ) (v : V) (e : Entry V) (a : List (Entry V))
      → e.left < r
      → map_emplace r z v (e ∷ a) ≡ e ∷ map_emplace r z v a
  unfolding map_emplace
  map_emplace-second r z v e a h = rw (lt→ltb e.left r h)

  erase_key-first : (e : Entry V) (a : List (Entry V)) → erase_key e.left (e ∷ a) ≡ a
  unfolding erase_key
  erase_key-first e a = rw ((==_iff e.left e.left).1 refl)

  -- What holds whenever the loop goes round: `[l, next)` is clear.
  pub record IsClear (l next : ℕ) (m : Map V) : Type 0 where
    pub ordered : IsFrom 0 m
    pub from : l ≤ next
    pub clear : (q : ℕ) → l ≤ q → q < next → view m q ≡ none

  module _ (l r next : ℕ) (lt : l < r) (m : Map V) (c : IsClear l next m) (b : List (Entry V))
      (e : Entry V) (a : List (Entry V)) (w : IsNext next m (b, e, a)) where
    -- up to the next entry nothing has a value
    pub quiet : (q : ℕ) → l ≤ q → q < e.left → view m q ≡ none
    quiet q lo hi = elim (Bool-cases (ltb q next)) [
      | inl t ↦ c.clear q lo (ltb→lt _ _ t)
      | inr t ↦ view-IsNext next m (b, e, a) w q (ground arith) hi
    ]

    -- values taken off from some point up to the next entry on are all of those from `l` on
    pub widen :
        (x y : ℕ) (m' : Map V)
        → l ≤ x
        → x ≤ e.left
        → Updates x y none m m'
        → (q : ℕ) → view m' q ≡ (if within l y q then none else view m q)
    widen x y m' lo hi u q = ground (arith, u.reads q, quiet q)

    -- the next entry is cut off at `l`, where it starts before
    pub trim_Updates : e.left < l → Updates l e.right none m (rejoin b (record e { right = l } ∷ a))
    trim_Updates h =
        subst (λ k. Updates l e.right none k (rejoin b (record e { right = l } ∷ a))) w.whole
          (rejoin-Updates (bound b) b (e ∷ a) (record e { right = l } ∷ a) l e.right none w.upto
            (omega arith) (w.rest.0, h, IsFrom-mono e.right l a (omega arith) w.rest.2)
            (λ q. trim_reads l e a q h (omega (arith, c.from, w.reaches)) w.rest.2))

    -- the next entry loses its part before `r`
    pub behead_Updates :
        l ≤ e.left
        → e.left < r
        → r < e.right
        → Updates e.left r none m (erase_key e.left (map_emplace r e.right e.value m))
    behead_Updates le h k =
        let n = bound b in
        let upto = IsUpto-mono n e.left b w.rest.0 w.upto in
        let later = IsFrom-mono e.right (r + 1) a (omega arith) w.rest.2 in
        let placed =
          map_emplace-rejoin r e.right e.value b (e ∷ a) (IsUpto-mono n r b (omega arith) w.upto)
          ∙ ap (rejoin b) (
              map_emplace-second r e.right e.value e a h
              ∙ ap (λ k. e ∷ k) (map_emplace-fresh r e.right e.value a later)) in
        let swept =
          ap (erase_key e.left) placed
          ∙ erase_key-rejoin e.left b (e ∷ entry r e.right e.value ∷ a) upto
          ∙ ap (rejoin b) (erase_key-first e (entry r e.right e.value ∷ a)) in
        subst (λ k. Updates e.left r none k (erase_key e.left (map_emplace r e.right e.value k)))
          w.whole
          (rw swept (
            rejoin-Updates e.left b (e ∷ a) (entry r e.right e.value ∷ a) e.left r none upto
              (omega arith) (omega arith, k, w.rest.2) (λ q. behead_reads r e a q h k w.rest.2)))

    -- the next entry holds the whole of `[l, r)`: what is left of it after `r` is put back
    pub split_Updates :
        e.left < l
        → r ≤ e.right
        → Updates l r none m (inject r e.right e.value (rejoin b (record e { right = l } ∷ a))).0
    split_Updates h k =
        let cut = rejoin b (record e { right = l } ∷ a) in
        put_back (inject r e.right e.value cut)
          (inject-IsInserted r e.right e.value cut (trim_Updates h).ordered)
      where
        whole_entry :
            (q : ℕ) → view m q ≡ (if within e.left e.right q then some e.value else view m q)
        whole_entry =
            view_inside l m (b, e, a)
              (record {
                whole = w.whole;
                upto = w.upto;
                rest = w.rest;
                inside = (omega arith, omega (arith, c.from, w.reaches));
              })

        put_back :
            (t : Map V × Bool)
            → IsInserted r e.right e.value (rejoin b (record e { right = l } ∷ a)) t
            → Updates l r none m t.0
        put_back (m', true) (le, free, u) = record {
          ordered = u.ordered;
          reads = λ q. ground (arith, u.reads q, (trim_Updates h).reads q, whole_entry q);
        }
        put_back (m', false) (same, inl le) =
            let end : e.right ≡ r = omega arith in
            rw same (
              subst (λ y. Updates l y none m (rejoin b (record e { right = l } ∷ a))) end
                (trim_Updates h))
        put_back (m', false) (same, inr (q, v, at, found)) =
            absurd (ground (arith, (trim_Updates h).reads q))

    pub swallow_Updates : Updates e.left e.right none m (rejoin b a)
    swallow_Updates = rejoin-erase-Updates m b e a w.whole w.upto w.rest

    pub swallow-IsClear : l ≤ e.left → IsClear l e.right (rejoin b a)
    swallow-IsClear h = record {
      ordered = swallow_Updates.ordered;
      from = omega (arith, w.rest.1);
      clear = λ q lo hi.
          ground (arith, widen e.left e.right (rejoin b a) h (omega arith) swallow_Updates q);
    }

    pub trim-IsClear : e.left < l → IsClear l e.right (rejoin b (record e { right = l } ∷ a))
    trim-IsClear h = record {
      ordered = (trim_Updates h).ordered;
      from = omega (arith, c.from, w.reaches);
      clear = λ q lo hi. ground (arith, (trim_Updates h).reads q);
    }

    pub reaches_l : l < e.right
    reaches_l = omega (arith, c.from, w.reaches)

    pub trimmed-pending : pending e.right (record e { right = l } ∷ a) ≤ pending e.right a
    unfolding pending
    trimmed-pending = ground (arith, reaches_l)

    -- an entry that starts at `l`, or before it and ends by `r`, or overlaps `[l, r)` otherwise,
    -- is met by one of the tests
    pub tests_exhaust :
        leb r e.left ≡ false
        → leb l e.left && leb e.right r ≡ false
        → leb e.left l && leb r e.right ≡ false
        → leb l e.left && ltb e.left r ≡ false
        → ltb l e.right && leb e.right r ≡ false
        → ⊥
    tests_exhaust t1 t2 t3 t4 t5 = ground (arith, reaches_l)

    pub past_Updates : leb r e.left ≡ true → Updates l r none m m
    past_Updates t = record { ordered = c.ordered; reads = λ q. ground (arith, quiet q) }
