-- ===== src/RangeMap/Erase.antt =====
-- range_map.hpp: `erase(l, r)`, which takes every value off `[l, r)` and keeps the others.
mod Steps
mod OneRound
use mathlib.Core.Path.{subst}
use efiperun_mod.Prelude.{
  ℕ, zero, suc, ◌+◌, ◌≡◌, ◌≤◌, ◌<◌, refl, ap, ◌∙◌, Bool, true, false, ◌&&◌, ◌||◌, Option, none,
  some, List, [], ◌∷◌, ltb, leb, ◌==◌, if◌then◌else◌, arith, length, inl, inr, Bool-cases, ltb→lt,
  lt→ltb, ==_iff, Eq,
}
use efiperun_mod.RangeMap.{
  Entry, Map, Place, Round, leave, again, entry, rejoin, from_point, inject, map_emplace, erase_key,
  erase_round, erase_loop, erase_range,
}
use efiperun_mod.RangeMap.Intervals.{
  within, view, IsFrom, bound, view-eq-none_below, IsUpto-mono, IsFrom-mono, map_emplace-rejoin,
  erase_key-rejoin,
}
use efiperun_mod.RangeMap.Lookup.{view-Holds, view_inside}
use efiperun_mod.RangeMap.Insert.{
  Updates, rejoin-Updates, rejoin-erase-Updates, IsInserted, map_emplace-fresh,
}
use efiperun_mod.RangeMap.Inject.{inject-IsInserted}
use efiperun_mod.RangeMap.Pending.{
  IsNext, NextFrom, from_point-NextFrom, view-IsNext, pending, pending-le-length, pending_falls,
}
use efiperun_mod.RangeMap.Erase.Steps.{IsClear}
use efiperun_mod.RangeMap.Erase.OneRound.{RoundKeeps, erase_round-RoundKeeps}

module _ {V : Type 0} ⦃veq : Eq V⦄ where
  -- an entry of `m` starts at `l` and ends after `r`
  unfoldable pub overhangs : ℕ → ℕ → Map V → Bool
  overhangs l r [] = false
  overhangs l r (e ∷ m) = (e.left == l && ltb r e.right) || overhangs l r m

  -- past the first round no entry starts at `l`
  later_fits :
      (l r next : ℕ) (m : Map V)
      → IsClear l next m
      → l < next
      → (b : List (Entry V)) (e : Entry V) (a : List (Entry V)) → IsNext next m (b, e, a)
      → e.left ≡ l
      → e.right ≤ r
  later_fits l r next m c lt b e a w at =
      let found =
        view-Holds l m (b, e, a)
          (record {
            whole = w.whole;
            upto = w.upto;
            rest = w.rest;
            inside = (omega arith, omega (arith, w.reaches));
          }) in
      let gone = c.clear l (omega arith) lt in absurd (cc (found, gone))

  pub erase_loop-leave :
      (fuel l r next : ℕ) (m m' : Map V)
      → erase_round l r m (from_point next m) ≡ leave m'
      → erase_loop (suc fuel) l r next m ≡ some m'
  unfolding erase_loop
  erase_loop-leave fuel l r next m m' e = rw (e, erase_loop)

  erase_loop-again :
      (fuel l r next next' : ℕ) (m m' : Map V)
      → erase_round l r m (from_point next m) ≡ again next' m'
      → erase_loop (suc fuel) l r next m ≡ erase_loop fuel l r next' m'
  unfolding erase_loop
  erase_loop-again fuel l r next next' m m' e = rw (e, erase_loop)

  -- With more fuel than entries are pending the loop ends, with exactly `[l, r)` taken off.
  erase_loop-Updates :
      (fuel l r next : ℕ) (m : Map V)
      → l < r
      → IsClear l next m
      → ((b : List (Entry V)) (e : Entry V) (a : List (Entry V))
          → IsNext next m (b, e, a)
          → e.left ≡ l
          → e.right ≤ r)
      → pending next m < fuel
      → (m' : Map V) × (erase_loop fuel l r next m ≡ some m') × Updates l r none m m'
  erase_loop-Updates zero l r next m lt c fits h = absurd (omega arith)
  erase_loop-Updates (suc fuel) l r next m lt c fits h =
      after (erase_round l r m (from_point next m))
        (erase_round-RoundKeeps l r next m (from_point next m) lt c
          (from_point-NextFrom next m c.ordered) fits)
        (λ next' m' c' lt' k.
          erase_loop-Updates fuel l r next' m' lt c' (later_fits l r next' m' c' lt') k)
        refl
    where
      after :
          (t : Round V)
          → RoundKeeps l r next m t
          → ((next' : ℕ) (m' : Map V)
              → IsClear l next' m'
              → l < next'
              → pending next' m' < fuel
              → (n : Map V) × (erase_loop fuel l r next' m' ≡ some n) × Updates l r none m' n)
          → erase_round l r m (from_point next m) ≡ t
          → (n : Map V) × (erase_loop (suc fuel) l r next m ≡ some n) × Updates l r none m n
      after (leave m') keeps rec e = (m', erase_loop-leave fuel l r next m m' e, keeps)
      after (again next' m') keeps rec e =
          let (clear, on, falls, stays) = keeps in
          let (n, run, u) = rec next' m' clear on (omega arith) in
          (
            n,
            erase_loop-again fuel l r next next' m m' e ∙ run,
            record { ordered = u.ordered; reads = λ q. u.reads q ∙ stays q },
          )

  overhangs-rejoin :
      (l r : ℕ) (b a : List (Entry V))
      → overhangs l r (rejoin b a) ≡ false
      → overhangs l r a ≡ false
  unfolding overhangs rejoin
  overhangs-rejoin l r [] a h = h
  overhangs-rejoin l r (p ∷ b) a h = ground (arith, overhangs-rejoin l r b (p ∷ a) h)

  fits_place :
      (l r : ℕ) (m : Map V)
      → overhangs l r m ≡ false
      → (b : List (Entry V)) (e : Entry V) (a : List (Entry V)) → IsNext l m (b, e, a)
      → e.left ≡ l
      → e.right ≤ r
  fits_place l r m h b e a w at =
      let here = overhangs-rejoin l r b (e ∷ a) (rw w.whole h) in unfold overhangs in ground arith

  -- On a well-formed map with no interval that starts at `l` and ends after `r`, `erase(l, r)` ends,
  -- takes every value off `[l, r)`, keeps the values of all other points, and leaves the map
  -- well-formed.
  pub erase_range-Updates :
      (l r : ℕ) (m : Map V)
      → IsFrom 0 m
      → overhangs l r m ≡ false
      → (m' : Map V) × (erase_range l r m ≡ some m') × Updates l r none m m'
  unfolding erase_range
  erase_range-Updates l r m f h = elim (Bool-cases (leb r l)) [
    | inl t ↦ rw t (m, refl, record { ordered = f; reads = λ q. ground arith })
    | inr t ↦ rw t (
        erase_loop-Updates (suc (length m)) l r l m (ground arith)
          (record { ordered = f; from = omega arith; clear = λ q lo hi. absurd (omega arith) })
          (fits_place l r m h) (omega (arith, pending-le-length l m)))
  ]
