-- ===== src/RangeMap/Replace.antt =====
-- range_map.hpp: `erase(l, r)` and then `insert`, and both on a range with no points.
use efiperun_mod.Prelude.{
  ℕ, ◌≡◌, ◌≤◌, ◌<◌, refl, Bool, true, false, none, some, arith, inl, inr, le→leb, Eq,
}
use efiperun_mod.RangeMap.{Map, insert, erase_range}
use efiperun_mod.RangeMap.Insert.{Updates, IsInserted}

-- after `erase` has cleared the range, `insert` gives it its new owner
pub inserted_over :
    {V : Type 0} (l r : ℕ) (name : V) (m m' : Map V) (t : Map V × Bool)
    → l < r
    → Updates l r none m m'
    → IsInserted l r name m' t
    → Updates l r (some name) m t.0
inserted_over l r name m m' (n, true) lt u (lt', free, v) = record {
  ordered = v.ordered;
  reads = λ q. ground (arith, v.reads q, u.reads q);
}
inserted_over l r name m m' (n, false) lt u (same, inl le) = absurd (omega arith)
inserted_over l r name m m' (n, false) lt u (same, inr (q, x, at, found)) =
    absurd (ground (arith, u.reads q))

module _ {ℓ} {V : Type ℓ} ⦃veq : Eq V⦄ where
  pub erase_range_empty : (l r : ℕ) (m : Map V) → r ≤ l → erase_range l r m ≡ some m
  unfolding erase_range
  erase_range_empty l r m h = rw (le→leb r l h) refl

module _ {ℓ} {V : Type ℓ} where
  pub insert_empty : (l r : ℕ) (v : V) (m : Map V) → r ≤ l → insert l r v m ≡ (m, false)
  unfolding insert
  insert_empty l r v m h = rw (le→leb r l h) refl
