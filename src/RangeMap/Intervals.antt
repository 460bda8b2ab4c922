-- ===== src/RangeMap/Intervals.antt =====
-- range_map.hpp: what a map means as a function of the point, the order of its entries, and what
-- the two sides of an iterator keep of both.
use efiperun_mod.Prelude.{
  ℕ, ◌+◌, ◌≡◌, ◌≤◌, ◌<◌, refl, ◌∙◌, Bool, true, false, ◌&&◌, Option, none, some, List, [], ◌∷◌, ltb,
  leb, if◌then◌else◌, arith, inl, inr, Bool-cases, ap, ltb→lt, lt→ltb,
}
use efiperun_mod.RangeMap.{Entry, Map, rejoin, seek, lower_bound, map_emplace, erase_key, has_key}

-- `l <= q < r`
abbrev pub within : ℕ → ℕ → ℕ → Bool
within l r q = leb l q && ltb q r

pub within_bounds : (l r q : ℕ) → within l r q ≡ true → (l ≤ q) × (q < r)
within_bounds l r q h = ground arith

pub within_iff : (l r q : ℕ) → (l ≤ q) × (q < r) → within l r q ≡ true
within_iff l r q h = ground arith

module _ {ℓ} {V : Type ℓ} where
  -- the value of the interval that holds `q`
  unfoldable pub view : Map V → ℕ → Option V
  view [] q = none
  view (e ∷ m) q = if within e.left e.right q then some e.value else view m q

  -- entries from an iterator on: non-empty, disjoint, in order, and none starts before `n`
  abbrev pub IsFrom : ℕ → List (Entry V) → Type 0
  IsFrom n [] = Unit
  IsFrom n (e ∷ a) = (n ≤ e.left) × (e.left < e.right) × IsFrom e.right a

  -- entries before an iterator, nearest first: the same, and none ends after `n`
  abbrev pub IsUpto : ℕ → List (Entry V) → Type 0
  IsUpto n [] = Unit
  IsUpto n (e ∷ b) = (e.right ≤ n) × (e.left < e.right) × IsUpto e.left b

  -- the two sides of an iterator at the point `n`
  pub record Splits (n : ℕ) (b a : List (Entry V)) : Type 0 where
    pub upto : IsUpto n b
    pub rest : IsFrom n a

  pub IsFrom-mono : (n k : ℕ) (a : List (Entry V)) → k ≤ n → IsFrom n a → IsFrom k a
  IsFrom-mono n k [] h w = tt
  IsFrom-mono n k (e ∷ a) h w = (omega arith, w.1, w.2)

  pub IsUpto-mono : (n k : ℕ) (b : List (Entry V)) → n ≤ k → IsUpto n b → IsUpto k b
  IsUpto-mono n k [] h w = tt
  IsUpto-mono n k (e ∷ b) h w = (omega arith, w.1, w.2)

  pub IsFrom-rejoin :
      (n : ℕ) (b a : List (Entry V)) → IsUpto n b → IsFrom n a → IsFrom 0 (rejoin b a)
  unfolding rejoin
  IsFrom-rejoin n [] a u f = IsFrom-mono n 0 a (omega arith) f
  IsFrom-rejoin n (e ∷ b) a u f =
      IsFrom-rejoin e.left b (e ∷ a) u.2 (omega arith, u.1, IsFrom-mono n e.right a u.0 f)

  pub view-eq-none_below : (n q : ℕ) (a : List (Entry V)) → q < n → IsFrom n a → view a q ≡ none
  unfolding view
  view-eq-none_below n q [] h f = refl
  view-eq-none_below n q (e ∷ a) h f =
      ground (arith, view-eq-none_below e.right q a (omega arith) f.2)

  -- from `n` on, the entries before an iterator do not matter
  pub view-rejoin_right :
      (n q : ℕ) (b a : List (Entry V)) → n ≤ q → IsUpto n b → view (rejoin b a) q ≡ view a q
  unfolding view rejoin
  view-rejoin_right n q [] a h u = refl
  view-rejoin_right n q (e ∷ b) a h u =
      view-rejoin_right e.left q b (e ∷ a) (omega arith) u.2 ∙ ground arith

  view-rejoin_congr :
      (q : ℕ) (b a a' : List (Entry V))
      → view a q ≡ view a' q
      → view (rejoin b a) q ≡ view (rejoin b a') q
  unfolding view rejoin
  view-rejoin_congr q [] a a' h = h
  view-rejoin_congr q (e ∷ b) a a' h = view-rejoin_congr q b (e ∷ a) (e ∷ a') (ground arith)

  -- Entries that mean `w` on `[l, r)` and agree elsewhere still do so behind those before.
  pub view-rejoin_update :
      (n : ℕ) (b a a' : List (Entry V)) (l r : ℕ) (w : Option V)
      → IsUpto n b
      → n ≤ l
      → ((q : ℕ) → view a' q ≡ (if within l r q then w else view a q))
      → (q : ℕ) → view (rejoin b a') q ≡ (if within l r q then w else view (rejoin b a) q)
  view-rejoin_update n b a a' l r w u h eq q = elim (Bool-cases (within l r q)) [
    | inl e ↦
        let le : n ≤ q = omega (arith, (within_bounds l r q e).0) in
        rw e (view-rejoin_right n q b a' le u ∙ eq q ∙ rw e)
    | inr e ↦ rw e (view-rejoin_congr q b a' a (eq q ∙ rw e))
  ]

  -- where the last entry before an iterator ends
  abbrev pub bound : List (Entry V) → ℕ
  bound [] = 0
  bound (e ∷ b) = e.right

  pub IsUpto-bound : (n : ℕ) (b : List (Entry V)) → IsUpto n b → IsUpto (bound b) b × (bound b ≤ n)
  IsUpto-bound n [] u = (tt, omega arith)
  IsUpto-bound n (e ∷ b) u = ((omega arith, u.1, u.2), u.0)

  abbrev pub StartsBelow : ℕ → List (Entry V) → Type 0
  StartsBelow p [] = Unit
  StartsBelow p (e ∷ b) = e.left < p

  abbrev pub StartsFrom : ℕ → List (Entry V) → Type 0
  StartsFrom p [] = Unit
  StartsFrom p (e ∷ a) = p ≤ e.left

  -- an iterator into `m`, at the first entry that does not start below `p`
  pub record IsLowerBound (p : ℕ) (m : Map V) (i : List (Entry V) × List (Entry V)) : Type ℓ where
    pub whole : rejoin i.0 i.1 ≡ m
    pub upto : IsUpto (bound i.0) i.0
    pub rest : IsFrom (bound i.0) i.1
    pub below : StartsBelow p i.0
    pub above : StartsFrom p i.1

  seek-IsLowerBound :
      (p : ℕ) (b a : List (Entry V))
      → IsUpto (bound b) b
      → IsFrom (bound b) a
      → StartsBelow p b
      → IsLowerBound p (rejoin b a) (seek p b a)
  unfolding seek rejoin
  seek-IsLowerBound p b [] u f s = record {
    whole = refl;
    upto = u;
    rest = f;
    below = s;
    above = tt;
  }
  seek-IsLowerBound p b (e ∷ a) u f s = elim (Bool-cases (ltb e.left p)) [
    | inl t ↦ rw t (
        seek-IsLowerBound p (e ∷ b) a (omega arith, f.1, IsUpto-mono (bound b) e.left b f.0 u) f.2
          (ltb→lt _ _ t))
    | inr t ↦ rw t (record { whole = refl; upto = u; rest = f; below = s; above = ground arith })
  ]

  pub lower_bound-IsLowerBound :
      (p : ℕ) (m : Map V) → IsFrom 0 m → IsLowerBound p m (lower_bound p m)
  unfolding lower_bound rejoin
  lower_bound-IsLowerBound p m f = seek-IsLowerBound p [] m tt f tt

  pub map_emplace-rejoin :
      (l r : ℕ) (v : V) (b a : List (Entry V))
      → IsUpto l b
      → map_emplace l r v (rejoin b a) ≡ rejoin b (map_emplace l r v a)
  unfolding rejoin map_emplace
  map_emplace-rejoin l r v [] a u = refl
  map_emplace-rejoin l r v (e ∷ b) a u =
      map_emplace-rejoin l r v b (e ∷ a) (IsUpto-mono _ _ b (omega arith) u.2)
      ∙ ap (rejoin b) (rw (lt→ltb e.left l (omega arith)))

  pub has_key-rejoin :
      (l : ℕ) (b a : List (Entry V)) → IsUpto l b → has_key l (rejoin b a) ≡ has_key l a
  unfolding rejoin has_key
  has_key-rejoin l [] a u = refl
  has_key-rejoin l (e ∷ b) a u =
      has_key-rejoin l b (e ∷ a) (IsUpto-mono _ _ b (omega arith) u.2) ∙ ground arith

  pub erase_key-rejoin :
      (k : ℕ) (b a : List (Entry V))
      → IsUpto k b
      → erase_key k (rejoin b a) ≡ rejoin b (erase_key k a)
  unfolding rejoin erase_key
  erase_key-rejoin k [] a u = refl
  erase_key-rejoin k (e ∷ b) a u =
      erase_key-rejoin k b (e ∷ a) (IsUpto-mono _ _ b (omega arith) u.2)
      ∙ ap (rejoin b) (ground arith)

  pub has_key-eq-false : (l : ℕ) (a : List (Entry V)) → IsFrom (l + 1) a → has_key l a ≡ false
  unfolding has_key
  has_key-eq-false l [] f = refl
  has_key-eq-false l (e ∷ a) f =
      let later = has_key-eq-false l a (IsFrom-mono _ _ a (omega arith) f.2) in ground arith
