-- ===== src/RangeMap/Erase/OneRound.antt =====
-- range_map.hpp: one round of the loop of `erase(l, r)`.

use efiperun_mod.Prelude.{
  ℕ, ◌≡◌, ◌≤◌, ◌<◌, ◌&&◌, Option, none, some, List, ltb, leb, if◌then◌else◌, arith, inl, inr,
  Bool-cases, Eq,
}
use efiperun_mod.RangeMap.{Entry, Map, Place, Round, leave, again, erase_round}
use efiperun_mod.RangeMap.Intervals.{within, view}
use efiperun_mod.RangeMap.Insert.{Updates}
use efiperun_mod.RangeMap.Pending.{IsNext, NextFrom, pending, pending_falls}
use efiperun_mod.RangeMap.Erase.Steps.{
  IsClear, widen, trim_Updates, behead_Updates, split_Updates, swallow_Updates, swallow-IsClear,
  trim-IsClear, reaches_l, trimmed-pending, tests_exhaust, past_Updates,
}

module _ {V : Type 0} ⦃veq : Eq V⦄ where
  -- What a round of the loop does: it leaves with `[l, r)` taken off, or goes round again with a
  -- clear map in which fewer entries are pending, and which has changed only on `[l, r)`.
  abbrev pub RoundKeeps : ℕ → ℕ → ℕ → Map V → Round V → Type 0
  RoundKeeps l r next m (leave m') = Updates l r none m m'
  RoundKeeps l r next m (again next' m') =
      IsClear l next' m'
      × (l < next')
      × (pending next' m' < pending next m)
      × ((q : ℕ)
          → (if within l r q then none else view m' q) ≡ (if within l r q then none else view m q))

  pub erase_round-RoundKeeps :
      (l r next : ℕ) (m : Map V) (w : Option (Place V))
      → l < r
      → IsClear l next m
      → NextFrom next m w
      → ((b : List (Entry V)) (e : Entry V) (a : List (Entry V))
          → IsNext next m (b, e, a)
          → e.left ≡ l
          → e.right ≤ r)
      → RoundKeeps l r next m (erase_round l r m w)
  erase_round-RoundKeeps l r next m none lt c n fits =
      unfold erase_round in
      record { ordered = c.ordered; reads = λ q. ground (arith, c.clear q, n q) }
  erase_round-RoundKeeps l r next m (some (b, e, a)) lt c w fits =
      elim (Bool-cases (leb r e.left)) [
        | inl past ↦ unfold erase_round in rw past (past_Updates l r next lt m c b e a w past)
        | inr near ↦ elim (Bool-cases (leb l e.left && leb e.right r)) [
          | inl all ↦
              unfold erase_round in
              let h : l ≤ e.left = ground arith in
              let u = swallow_Updates l r next lt m c b e a w in
              rw (near, all)
                (
                  swallow-IsClear l r next lt m c b e a w h,
                  reaches_l l r next lt m c b e a w,
                  pending_falls next m (b, e, a) a w (omega arith),
                  λ q. ground (arith, u.reads q),
                )
          | inr notall ↦ elim (Bool-cases (leb e.left l && leb r e.right)) [
            | inl over ↦
                unfold erase_round in
                rw (near, notall, over)
                  (split_Updates l r next lt m c b e a w (ground (arith, fits b e a w))
                    (ground arith))
            | inr notover ↦ elim (Bool-cases (leb l e.left && ltb e.left r)) [
              | inl tl ↦
                  unfold erase_round in
                  let h : l ≤ e.left = ground arith in
                  let u = behead_Updates l r next lt m c b e a w h (ground arith) (ground arith) in
                  rw (near, notall, notover, tl)
                    (record {
                      ordered = u.ordered;
                      reads = widen l r next lt m c b e a w e.left r _ h (omega arith) u;
                    })
              | inr nottl ↦ elim (Bool-cases (ltb l e.right && leb e.right r)) [
                | inl hd ↦
                    unfold erase_round in
                    let h : e.left < l = ground arith in
                    let u = trim_Updates l r next lt m c b e a w h in
                    rw (near, notall, notover, nottl, hd)
                      (
                        trim-IsClear l r next lt m c b e a w h,
                        reaches_l l r next lt m c b e a w,
                        pending_falls next m (b, e, a) _ w
                            (trimmed-pending l r next lt m c b e a w),
                        λ q. ground (arith, u.reads q),
                      )
                | inr nothing ↦
                    absurd (tests_exhaust l r next lt m c b e a w near notall notover nottl nothing)
              ]
            ]
          ]
        ]
      ]
