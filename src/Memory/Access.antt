-- ===== src/Memory/Access.antt =====
-- stubs.cpp: `can_access` decides whether a range is covered by registered memory.
use Prim.Native.String.{String}
use mathlib.Core.Path.{subst}
use efiperun_mod.Prelude.{
  ℕ, zero, suc, ◌+◌, ◌%◌, ◌^◌, ◌≡◌, ◌≤◌, ◌<◌, refl, ◌∙◌, Bool, true, false, ◌&&◌, ◌||◌, Option,
  none, some, ◌∷◌, ltb, leb, ◌==◌, if◌then◌else◌, arith, length, inl, inr, Bool-cases,
}
use efiperun_mod.RangeMap.{Entry, Place, found_at, locate, lower_bound}
use efiperun_mod.RangeMap.Intervals.{within, view, IsFrom}
use efiperun_mod.RangeMap.Lookup.{
  Holds, Located, locate-Located, view-Holds, view_inside, find-found_at,
}
use efiperun_mod.RangeMap.Pending.{pending, pending-le-length, pending_falls}
use efiperun_mod.RangeMap.Overhang.{HasStub, locate-HasStub}
use efiperun_mod.Memory.{MemoryMap, string_eq, access_loop, access_round, can_access, point}

abbrev pub is_none : Option String → Bool
is_none none = true
is_none (some v) = false

-- The answer of `can_access` on `[lo, hi)`: `true` where `lo` has a value and no point of the range
-- lacks one, and `false` where `lo` or some point of the range has none.
abbrev pub IsAnswer : ℕ → ℕ → MemoryMap → Bool → Type 0
IsAnswer lo hi m true =
    (is_none (view m lo) ≡ false) × ((q : ℕ) → within lo hi q && is_none (view m q) ≡ false)
IsAnswer lo hi m false = (q : ℕ) × (lo ≤ q) × ((q == lo || ltb q hi) ≡ true) × (view m q ≡ none)

access_step :
    (fuel lo hi : ℕ) (m : MemoryMap) (w : Option (Place String))
    → locate lo (lower_bound lo m) ≡ w
    → access_loop (suc fuel) lo hi m ≡ elim w [
      | none ↦ some false
      | some (b, e, a) ↦ if leb hi e.right then some true else access_loop fuel e.right hi m
    ]
access_step fuel lo hi m none e =
    unfold access_loop in
    (rw (find-found_at (2 ^ 63) lo m none e) (unfold access_round found_at in refl))
access_step fuel lo hi m (some (b, x, a)) e =
    unfold access_loop in
    (rw (find-found_at (2 ^ 63) lo m (some (b, x, a)) e) (unfold access_round found_at in refl))

-- the interval that `find` returned covers the points from `lo` up to its end
covers :
    (lo q : ℕ) (m : MemoryMap) (w : Place String)
    → Holds lo m w
    → within lo w.1.right q && is_none (view m q) ≡ false
covers lo q m w h = covers_at lo q (view m q) w.1 h.inside.0 (view_inside lo m w h q)
  where
    covers_at :
        (lo q : ℕ) (o : Option String) (e : Entry String)
        → e.left ≤ lo
        → o ≡ (if within e.left e.right q then some e.value else o)
        → within lo e.right q && is_none o ≡ false
    covers_at lo q none e le eq = ground arith
    covers_at lo q (some v) e le eq = ground arith

-- the point that `find` was given has a value
owned : (lo : ℕ) (m : MemoryMap) (w : Place String) → Holds lo m w → is_none (view m lo) ≡ false
owned lo m w h = rw (view-Holds lo m w h) refl

next_pending :
    (lo : ℕ) (m : MemoryMap) (w : Place String) → Holds lo m w → pending w.1.right m < pending lo m
next_pending lo m (b, x, a) h =
    subst (λ k. pending x.right k < pending lo m) h.whole
      (pending_falls lo m (b, x, a) (x ∷ a)
        (record {
          whole = h.whole;
          upto = h.upto;
          rest = h.rest;
          before = omega (arith, h.rest.0, h.inside.0);
          reaches = h.inside.1;
        })
        (unfold pending in ground arith))

-- an answer from the end of the interval on is one from `lo` on
IsAnswer-earlier :
    (lo hi : ℕ) (m : MemoryMap) (w : Place String) (t : Bool)
    → Holds lo m w
    → w.1.right < hi
    → IsAnswer w.1.right hi m t
    → IsAnswer lo hi m t
IsAnswer-earlier lo hi m w true h lt ans =
    (owned lo m w h, λ q. ground (arith, covers lo q m w h, ans.1 q))
IsAnswer-earlier lo hi m w false h lt (q, le, at, e) =
    (q, omega (arith, h.inside.1), ground arith, e)

access_loop-IsAnswer :
    (fuel lo hi : ℕ) (m : MemoryMap)
    → IsFrom 0 m
    → pending lo m < fuel
    → (t : Bool) × (access_loop fuel lo hi m ≡ some t) × IsAnswer lo hi m t
access_loop-IsAnswer zero lo hi m f h = absurd (omega arith)
access_loop-IsAnswer (suc fuel) lo hi m f h =
    at_place (locate lo (lower_bound lo m)) (locate-Located lo m f) refl
      (λ next le. access_loop-IsAnswer fuel next hi m f le)
  where
    at_place :
        (w : Option (Place String))
        → Located lo m w
        → locate lo (lower_bound lo m) ≡ w
        → ((next : ℕ)
            → pending next m < fuel
            → (t : Bool) × (access_loop fuel next hi m ≡ some t) × IsAnswer next hi m t)
        → (t : Bool) × (access_loop (suc fuel) lo hi m ≡ some t) × IsAnswer lo hi m t
    at_place none l e rec =
        (false, access_step fuel lo hi m none e, (lo, omega arith, ground arith, l))
    at_place (some (b, x, a)) l e rec = elim (Bool-cases (leb hi x.right)) [
      | inl t ↦ (
        true,
        access_step fuel lo hi m (some (b, x, a)) e ∙ rw t,
        (owned lo m (b, x, a) l, λ q. ground (arith, covers lo q m (b, x, a) l)),
      )
      | inr t ↦
          let (answer, run, ans) = rec x.right (omega (arith, next_pending lo m (b, x, a) l)) in
          (
            answer,
            access_step fuel lo hi m (some (b, x, a)) e ∙ rw t run,
            IsAnswer-earlier lo hi m (b, x, a) answer l (ground arith) ans,
          )
    ]

-- Over a well-formed map can_access ends. It answers true exactly where the base has an owner and no
-- point of the range, as signed addresses, lacks one; a range that is empty, or that ends below its
-- base, has no points, and the base is tested all the same.
pub can_access-IsAnswer :
    (base len : ℕ) (m : MemoryMap)
    → IsFrom 0 m
    → (t : Bool) × (can_access base len m ≡ some t)
      × IsAnswer (point base) (point ((len + base) % 2 ^ 64)) m t
can_access-IsAnswer base len m f =
    let lo = point base in
    let hi = point ((len + base) % 2 ^ 64) in
    let (t, run, ans) =
      access_loop-IsAnswer (suc (length m)) lo hi m f (omega (arith, pending-le-length lo m)) in
    (t, unfold can_access in run, ans)

-- On a map with an empty interval at the base of a range the loop of `can_access` never ends: no
-- amount of fuel gives an answer.
pub access_loop-HasStub :
    (fuel lo hi : ℕ) (m : MemoryMap) → HasStub lo m → lo < hi → access_loop fuel lo hi m ≡ none
access_loop-HasStub zero lo hi m s lt = unfold access_loop in refl
access_loop-HasStub (suc fuel) lo hi m s lt =
    let past : leb hi s.e.right ≡ false = ground (arith, s.ends) in
    access_step fuel lo hi m (some (s.b, s.e, s.a)) (locate-HasStub lo m s)
    ∙ rw (past, s.ends) (access_loop-HasStub fuel lo hi m s lt)
