-- ===== src/RangeMap/Overhang.antt =====
-- range_map.hpp: `erase(l, r)` where an interval starts at `l` and ends after `r`. The interval is
-- cut down to an empty one, `[l, l)`, which stays in the map.
use mathlib.Core.Path.{subst}
use efiperun_mod.Prelude.{
  ℕ, suc, ◌+◌, ◌≡◌, ◌≤◌, ◌<◌, refl, sym, ap, ◌∙◌, true, false, ◌&&◌, Option, none, some, List, [],
  ◌∷◌, leb, ◌==◌, arith, length, inl, inr, Bool-cases, lt→ltb, le→leb, ==_iff, Eq, leb-eq-false,
  ltb-eq-false, if_same,
}
use efiperun_mod.RangeMap.{
  Entry, Map, Place, leave, rejoin, seek, lower_bound, locate, from_point, inject, inject_at,
  adjust, fill_gap, left_merge, right_merge, right_or, key_or, ends_before, map_emplace, erase_key,
  erase_round, erase_loop, erase_range, lookup, insert, insert_at,
}
use efiperun_mod.RangeMap.Intervals.{
  view, IsFrom, IsUpto, bound, IsUpto-mono, IsFrom-mono, map_emplace-rejoin, erase_key-rejoin,
}
use efiperun_mod.RangeMap.Pending.{NextFrom, from_point-NextFrom}
use efiperun_mod.RangeMap.Erase.{overhangs, erase_loop-leave}

module _ {ℓ} {V : Type ℓ} where
  seek-rejoin :
      (p n : ℕ) (b a : List (Entry V)) → n ≤ p → IsUpto n b → seek p [] (rejoin b a) ≡ seek p b a
  unfolding rejoin
  seek-rejoin p n [] a h u = refl
  seek-rejoin p n (e ∷ b) a h u =
      seek-rejoin p e.left b (e ∷ a) (omega arith) u.2
      ∙ (unfold seek in rw (lt→ltb e.left p (omega arith)))

  -- an entry at `p` itself is found, though it be empty
  locate-first :
      (p : ℕ) (b a : List (Entry V)) (e : Entry V)
      → IsUpto p b
      → e.left ≡ p
      → locate p (lower_bound p (rejoin b (e ∷ a))) ≡ some (b, e, a)
  unfolding lower_bound
  locate-first p b a e u at =
      ap (locate p) {y = (b, e ∷ a)} (
        seek-rejoin p p b (e ∷ a) (omega arith) u
        ∙ (unfold seek in rw (ltb-eq-false e.left p (omega arith))))
      ∙ (unfold locate in rw ((==_iff p e.left).1 (sym at)))

module _ {V : Type 0} ⦃veq : Eq V⦄ where
  -- a map with an empty interval at `l`
  pub record HasStub (l : ℕ) (m : Map V) : Type 0 where
    pub b : List (Entry V)
    pub e : Entry V
    pub a : List (Entry V)
    pub whole : rejoin b (e ∷ a) ≡ m
    pub upto : IsUpto l b
    pub starts : e.left ≡ l
    pub ends : e.right ≡ l

  pub locate-HasStub :
      (l : ℕ) (m : Map V) (s : HasStub l m) → locate l (lower_bound l m) ≡ some (s.b, s.e, s.a)
  locate-HasStub l m s =
      subst (λ k. locate l (lower_bound l k) ≡ some (s.b, s.e, s.a)) s.whole
        (locate-first l s.b s.a s.e s.upto s.starts)

  pub lookup-HasStub : (l : ℕ) (m : Map V) (s : HasStub l m) → lookup l m ≡ some s.e.value
  unfolding lookup
  lookup-HasStub l m s =
      subst (λ k. lookup l k ≡ some s.e.value) s.whole
        (rw (lookup, locate-first l s.b s.a s.e s.upto s.starts))

  pub insert-HasStub : (l r : ℕ) (v : V) (m : Map V) → HasStub l m → insert l r v m ≡ (m, false)
  unfolding insert insert_at
  insert-HasStub l r v m s =
      subst (λ k. insert l r v k ≡ (k, false)) s.whole
        (rw (locate-first l s.b s.a s.e s.upto s.starts) (if_same (leb r l) _))

  seek_stop : (p : ℕ) (b a : List (Entry V)) → IsFrom p a → seek p b a ≡ (b, a)
  unfolding seek
  seek_stop p b [] f = refl
  seek_stop p b (n ∷ a) f = rw (ltb-eq-false n.left p f.0)

  adjust_stop :
      (p : ℕ) (b : List (Entry V)) (e : Entry V) (a : List (Entry V))
      → IsFrom (p + 1) a
      → adjust p (e ∷ b, a) ≡ some (b, e, a)
  unfolding adjust
  adjust_stop p b e [] f = refl
  adjust_stop p b e (n ∷ a) f = let apart : p == n.left ≡ false = ground arith in rw apart

  ends_before-IsFrom : (r : ℕ) (a : List (Entry V)) → IsFrom r a → ends_before r a ≡ true
  unfolding ends_before
  ends_before-IsFrom r [] f = refl
  ends_before-IsFrom r (n ∷ a) f = le→leb r n.left f.0

  module _ (l r z : ℕ) (v : V) (b : List (Entry V)) (e : Entry V) (a : List (Entry V)) (lr : l < r)
      (rz : r < z) (upto : IsUpto l b) (starts : e.left ≡ l) (ends : e.right ≡ l)
      (rest : IsFrom z a) where
    emplaced : (x : ℕ) → map_emplace r x v (rejoin b (e ∷ a)) ≡ rejoin b (e ∷ map_emplace r x v a)
    emplaced x =
        map_emplace-rejoin r x v b (e ∷ a) (IsUpto-mono l r b (omega arith) upto)
        ∙ ap (rejoin b) (unfold map_emplace in rw (lt→ltb e.left r (omega arith)))

    -- what stands in the map after the empty interval
    stub : (x : List (Entry V)) → HasStub l (rejoin b (e ∷ x))
    stub x = record { b = b; e = e; a = x; whole = refl; upto = upto; starts = starts; ends = ends }

    erased :
        (k : ℕ) (x : List (Entry V))
        → l < k
        → erase_key k (rejoin b (e ∷ x)) ≡ rejoin b (e ∷ erase_key k x)
    erased k x lt =
        let apart : e.left == k ≡ false = ground (arith, starts) in
        erase_key-rejoin k b (e ∷ x) (IsUpto-mono l k b (omega arith) upto)
        ∙ ap (rejoin b) (unfold erase_key in rw apart)

    no_left_merge : left_merge r v (e ∷ b) ≡ false
    unfolding left_merge
    no_left_merge = let apart : r == e.right ≡ false = ground (arith, ends) in rw apart

    key_beyond : right_merge z v a ≡ true → l < key_or z a
    key_beyond t = after a rest
      where
        after : (x : List (Entry V)) → IsFrom z x → l < key_or z x
        after [] f = unfold key_or in omega (arith, lr, rz)
        after (n ∷ x) f = unfold key_or in omega (arith, lr, rz)

    fill-HasStub : HasStub l (fill_gap r z v (e ∷ b) a)
    unfolding rejoin
    fill-HasStub = elim (Bool-cases (right_merge z v a)) [
      | inl t ↦
          let y = right_or z a in
          let k = key_or z a in
          subst (HasStub l)
            (sym (
              merged t
              ∙ ap (erase_key k) (emplaced y)
              ∙ erased k (map_emplace r y v a) (key_beyond t)))
            (stub (erase_key k (map_emplace r y v a)))
      | inr t ↦ subst (HasStub l) (sym (plain t ∙ emplaced z)) (stub (map_emplace r z v a))
    ]
      where
        merged :
            right_merge z v a ≡ true
            → fill_gap r z v (e ∷ b) a
              ≡ erase_key (key_or z a) (map_emplace r (right_or z a) v (rejoin (e ∷ b) a))
        merged t = unfold fill_gap in rw (no_left_merge, t)

        plain :
            right_merge z v a ≡ false
            → fill_gap r z v (e ∷ b) a ≡ map_emplace r z v (rejoin (e ∷ b) a)
        plain t = unfold fill_gap in rw (no_left_merge, t)

    placed : adjust r (lower_bound r (rejoin b (e ∷ a))) ≡ some (b, e, a)
    unfolding lower_bound
    placed =
        let step : seek r b (e ∷ a) ≡ seek r (e ∷ b) a =
          rw (lt→ltb e.left r (omega (arith, starts))) in
        ap (adjust r) {y = (e ∷ b, a)} (
          seek-rejoin r l b (e ∷ a) (omega arith) upto
          ∙ step
          ∙ seek_stop r (e ∷ b) a (IsFrom-mono z r a (omega arith) rest))
        ∙ adjust_stop r b e a (IsFrom-mono z (r + 1) a (omega arith) rest)

    inject-HasStub : HasStub l (inject r z v (rejoin b (e ∷ a))).0
    unfolding inject inject_at
    inject-HasStub =
        let nonempty : leb z r ≡ false = ground (arith, rz) in
        let below : leb z e.left ≡ false = ground (arith, starts, lr, rz) in
        let beyond : leb e.right r ≡ true = ground (arith, ends, lr) in
        rw (nonempty, placed, below, beyond, ends_before-IsFrom z a rest) fill-HasStub

  pub overhangs-eq-false : (l r : ℕ) (m : Map V) → l < r → view m l ≡ none → overhangs l r m ≡ false
  unfolding overhangs view
  overhangs-eq-false l r [] lt h = refl
  overhangs-eq-false l r (x ∷ m) lt h = ground (arith, overhangs-eq-false l r m)

  pub overhangs_later : (l r : ℕ) (a : List (Entry V)) → IsFrom (l + 1) a → overhangs l r a ≡ false
  unfolding overhangs
  overhangs_later l r [] f = refl
  overhangs_later l r (x ∷ a) f =
      let rest = overhangs_later l r a (IsFrom-mono x.right (l + 1) a (omega arith) f.2) in
      ground arith

  pub overhangs_before :
      (l r : ℕ) (b a : List (Entry V)) → IsUpto l b → overhangs l r (rejoin b a) ≡ overhangs l r a
  unfolding overhangs rejoin
  overhangs_before l r [] a u = refl
  overhangs_before l r (x ∷ b) a u =
      overhangs_before l r b (x ∷ a) (IsUpto-mono x.left l b (omega arith) u.2)
      ∙ (let apart : x.left == l ≡ false = ground arith in rw apart)

  -- the test that cuts the interval down
  erase_round-overhang :
      (l r : ℕ) (m : Map V) (b : List (Entry V)) (e : Entry V) (a : List (Entry V))
      → l < r
      → e.left ≡ l
      → r < e.right
      → erase_round l r m (some (b, e, a))
        ≡ leave (inject r e.right e.value (rejoin b (record e { right = l } ∷ a))).0
  erase_round-overhang l r m b e a lt at over =
      let near : leb r e.left ≡ false = ground arith in
      let notall : leb l e.left && leb e.right r ≡ false = ground arith in
      let whole : leb e.left l && leb r e.right ≡ true = ground arith in
      unfold erase_round in rw (near, notall, whole)

  overhang_first :
      (l r : ℕ) (e : Entry V) (a : List (Entry V))
      → IsFrom (l + 1) a
      → overhangs l r (e ∷ a) ≡ true
      → (e.left ≡ l) × (r < e.right)
  overhang_first l r e a f h =
      let later = overhangs_later l r a f in unfold overhangs in ground arith

  -- Where an interval starts at `l` and ends after `r`, `erase(l, r)` leaves the empty interval
  -- `[l, l)` in the map.
  pub erase_range-HasStub :
      (l r : ℕ) (m : Map V)
      → IsFrom 0 m
      → l < r
      → overhangs l r m ≡ true
      → (m' : Map V) × (erase_range l r m ≡ some m') × HasStub l m'
  unfolding erase_range
  erase_range-HasStub l r m f lt h =
      rw (leb-eq-false r l lt) (from_next (from_point l m) (from_point-NextFrom l m f) refl)
    where
      from_next :
          (w : Option (Place V))
          → NextFrom l m w
          → from_point l m ≡ w
          → (m' : Map V) × (erase_loop (suc (length m)) l r l m ≡ some m') × HasStub l m'
      from_next none n e = absurd (cc (h, overhangs-eq-false l r m lt (n l (omega arith))))
      from_next (some (b, e, a)) n eq =
          let upto = IsUpto-mono (bound b) l b n.before n.upto in
          let (at, over) =
            overhang_first l r e a
              (IsFrom-mono e.right (l + 1) a (omega (arith, n.reaches)) n.rest.2)
              (sym (overhangs_before l r b (e ∷ a) upto) ∙ rw n.whole h) in
          (
            _,
            erase_loop-leave (length m) l r l m _
                (rw eq (erase_round-overhang l r m b e a lt at over)),
            inject-HasStub l r e.right e.value b (record e { right = l }) a lt over upto at refl
                n.rest.2,
          )

  -- Where an interval starts at `l` and ends after `r`, `erase(l, r)` does not clear `l`: the map
  -- that it leaves still gives `l` a value, and refuses to insert any interval that starts at `l`.
  pub erase_range_overhang :
      (l r : ℕ) (m : Map V)
      → IsFrom 0 m
      → l < r
      → overhangs l r m ≡ true
      → (m' : Map V) × (v : V) × (erase_range l r m ≡ some m')
        × (lookup l m' ≡ some v)
        × ((z : ℕ) (w : V) → insert l z w m' ≡ (m', false))
  erase_range_overhang l r m f lt h =
      let (m', run, s) = erase_range-HasStub l r m f lt h in
      (m', s.e.value, run, lookup-HasStub l m' s, λ z w. insert-HasStub l z w m' s)
