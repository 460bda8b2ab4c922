-- ===== src/RangeMap/Inject/Merge.antt =====
-- range_map.hpp: `inject` into a gap, merged with the neighbours or not.

use efiperun_mod.Prelude.{
  ℕ, ◌≡◌, ◌<◌, refl, ap, ◌∙◌, true, some, List, [], ◌∷◌, if◌then◌else◌, arith, inl, inr, Bool-cases,
  Eq,
}
use efiperun_mod.RangeMap.{
  Entry, entry, rejoin, map_emplace, erase_key, fill_gap, left_merge, right_merge, set_right, tail,
  right_or, key_or,
}
use efiperun_mod.RangeMap.Intervals.{
  within, view, IsFrom, IsUpto, IsUpto-mono, map_emplace-rejoin, erase_key-rejoin,
}
use efiperun_mod.RangeMap.Insert.{Updates, rejoin-Updates, map_emplace-fresh, map_emplace-Updates}

module _ {V : Type 0} ⦃veq : Eq V⦄ where
  erase_key-second :
      (l r : ℕ) (v : V) (n : Entry V) (a : List (Entry V))
      → l < n.left
      → erase_key n.left (entry l r v ∷ n ∷ a) ≡ entry l r v ∷ a
  unfolding erase_key
  erase_key-second l r v n a h = ground arith

  -- `b` and `a` stand on the two sides of a gap with room for `[l, r)`
  module _ (l r : ℕ) (v : V) (lt : l < r) where
    left_merge-eq :
        (p : Entry V) (b : List (Entry V))
        → left_merge l v (p ∷ b) ≡ true
        → (l ≡ p.right) × (v ≡ p.value)
    unfolding left_merge
    left_merge-eq p b h = ground (arith, (veq.equal_iff v p.value).0)

    right_merge-eq :
        (n : Entry V) (a : List (Entry V))
        → right_merge r v (n ∷ a) ≡ true
        → (r ≡ n.left) × (v ≡ n.value)
    unfolding right_merge
    right_merge-eq n a h = ground (arith, (veq.equal_iff v n.value).0)

    grow_reads :
        (p : Entry V) (a a' : List (Entry V)) (z q : ℕ)
        → l ≡ p.right
        → v ≡ p.value
        → p.left < l
        → l < z
        → view (entry l z v ∷ a') q ≡ (if within l r q then some v else view a q)
        → view (record p { right = z } ∷ a') q ≡ (if within l r q then some v else view (p ∷ a) q)
    unfolding view
    grow_reads p a a' z q e same le h eq = ground arith

    -- the entry before grows to the right
    grow_left :
        (p : Entry V) (b a a' : List (Entry V)) (z : ℕ)
        → IsUpto l (p ∷ b)
        → l ≡ p.right
        → v ≡ p.value
        → IsFrom z a'
        → l < z
        → ((q : ℕ) → view (entry l z v ∷ a') q ≡ (if within l r q then some v else view a q))
        → Updates l r (some v) (rejoin (p ∷ b) a) (rejoin (record p { right = z } ∷ b) a')
    unfolding rejoin
    grow_left p b a a' z u e same f h eq =
        rejoin-Updates p.left b (p ∷ a) (record p { right = z } ∷ a') l r (some v) u.2 (omega arith)
          (omega arith, omega arith, f) (λ q. grow_reads p a a' z q e same (omega arith) h (eq q))

    -- the entry after grows to the left
    joined_reads :
        (n : Entry V) (a : List (Entry V)) (q : ℕ)
        → r ≡ n.left
        → v ≡ n.value
        → n.left < n.right
        → view (entry l n.right v ∷ a) q ≡ (if within l r q then some v else view (n ∷ a) q)
    unfolding view
    joined_reads n a q e same h = ground arith

    emplace_reads :
        (a : List (Entry V)) (q : ℕ)
        → view (entry l r v ∷ a) q ≡ (if within l r q then some v else view a q)
    unfolding view
    emplace_reads a q = refl

    merge_both :
        (b a : List (Entry V))
        → IsUpto l b
        → IsFrom r a
        → left_merge l v b ≡ true
        → right_merge r v a ≡ true
        → Updates l r (some v) (rejoin b a) (rejoin (set_right (right_or r a) b) (tail a))
    unfolding set_right right_or tail
    merge_both [] a u f t s = absurd (unfold left_merge in cc)
    merge_both (p ∷ b) [] u f t s = absurd (unfold right_merge in cc)
    merge_both (p ∷ b) (n ∷ a) u f t s =
        let (e, same) = left_merge-eq p b t in
        let (e', same') = right_merge-eq n a s in
        grow_left p b (n ∷ a) a n.right u e same f.2 (omega arith)
          (λ q. joined_reads n a q e' same' f.1)

    merge_left :
        (b a : List (Entry V))
        → IsUpto l b
        → IsFrom r a
        → left_merge l v b ≡ true
        → Updates l r (some v) (rejoin b a) (rejoin (set_right r b) a)
    unfolding set_right
    merge_left [] a u f t = absurd (unfold left_merge in cc)
    merge_left (p ∷ b) a u f t =
        let (e, same) = left_merge-eq p b t in grow_left p b a a r u e same f lt (emplace_reads a)

    merge_right :
        (b a : List (Entry V))
        → IsUpto l b
        → IsFrom r a
        → right_merge r v a ≡ true
        → Updates l r
            (some v)
            (rejoin b a)
            (erase_key (key_or r a) (map_emplace l (right_or r a) v (rejoin b a)))
    unfolding key_or right_or
    merge_right b [] u f s = absurd (unfold right_merge in cc)
    merge_right b (n ∷ a) u f s =
        let (e, same) = right_merge-eq n a s in
        let below = IsUpto-mono l n.left b (omega arith) u in
        let placed =
          map_emplace-rejoin l n.right v b (n ∷ a) u
          ∙ ap (rejoin b) (map_emplace-fresh l n.right v (n ∷ a) (omega arith, f.1, f.2)) in
        let swept =
          ap (erase_key n.left) placed
          ∙ erase_key-rejoin n.left b (entry l n.right v ∷ n ∷ a) below
          ∙ ap (rejoin b) (erase_key-second l n.right v n a (omega arith)) in
        rw swept (
          rejoin-Updates l b (n ∷ a) (entry l n.right v ∷ a) l r (some v) u (omega arith)
            (omega arith, omega arith, f.2) (λ q. joined_reads n a q e same f.1))

    -- In a gap with room for it the new interval is filled in, merged or not.
    pub fill_gap-Updates :
        (b a : List (Entry V))
        → IsUpto l b
        → IsFrom r a
        → Updates l r (some v) (rejoin b a) (fill_gap l r v b a)
    unfolding fill_gap
    fill_gap-Updates b a u f = elim (Bool-cases (left_merge l v b)) [
      | inl t ↦ elim (Bool-cases (right_merge r v a)) [
        | inl s ↦ rw (t, s) (merge_both b a u f t s)
        | inr s ↦ rw (t, s) (merge_left b a u f t)
      ]
      | inr t ↦ elim (Bool-cases (right_merge r v a)) [
        | inl s ↦ rw (t, s) (merge_right b a u f s)
        | inr s ↦ rw (t, s) (map_emplace-Updates l r v b a lt u f)
      ]
    ]
