-- ===== src/Loader/Bytes.antt =====
-- Bytes by address, and little-endian words in them.
use efiperun_mod.Prelude.{
  ℕ, zero, suc, ◌+◌, ◌*◌, ◌/◌, ◌%◌, ◌^◌, ◌≡◌, ◌≤◌, ◌<◌, refl, ◌∙◌, ◌==◌, if◌then◌else◌, arith, ◌⊎◌,
  inl, inr,
}
use native.Mathlib.Nat.{pow-suc}

abbrev pub Bytes : Type 0
Bytes = ℕ → ℕ

abbrev pub update : Bytes → ℕ → ℕ → Bytes
update f a x q = if q == a then x else f q

-- the word of `k` bytes at `a`
unfoldable pub le : ℕ → ℕ → Bytes → ℕ
le zero a f = 0
le (suc k) a f = f a + 256 * le k (suc a) f

-- `v`, a word of `k` bytes, written at `a`
unfoldable pub set_le : ℕ → ℕ → ℕ → Bytes → Bytes
set_le zero a v f = f
set_le (suc k) a v f = update (set_le k (suc a) (v / 256) f) a (v % 256)

-- bytes that differ only below `a` read alike from `a` on
le-update_below : (k a b x : ℕ) (f : Bytes) → b < a → le k a (update f b x) ≡ le k a f
unfolding le
le-update_below zero a b x f h = refl
le-update_below (suc k) a b x f h = ground (arith, le-update_below k (suc a) b x f)

pub le-set_le : (k a v : ℕ) (f : Bytes) → v < 256 ^ k → le k a (set_le k a v f) ≡ v
unfolding le set_le
le-set_le zero a v f h = omega arith
le-set_le (suc k) a v f h = ground (
  arith,
  le-update_below k (suc a) a (v % 256) (set_le k (suc a) (v / 256) f),
  le-set_le k (suc a) (v / 256) f (omega (arith, pow-suc 256 k)),
)

pub set_le_below : (k a v q : ℕ) (f : Bytes) → q < a → set_le k a v f q ≡ f q
unfolding set_le
set_le_below zero a v q f h = refl
set_le_below (suc k) a v q f h = ground (arith, set_le_below k (suc a) (v / 256) q f)

pub set_le_above : (k a v q : ℕ) (f : Bytes) → a + k ≤ q → set_le k a v f q ≡ f q
unfolding set_le
set_le_above zero a v q f h = refl
set_le_above (suc k) a v q f h = ground (arith, set_le_above k (suc a) (v / 256) q f)

-- a word of bytes is below its bound
pub le-lt : (k a : ℕ) (f : Bytes) → ((q : ℕ) → f q < 256) → le k a f < 256 ^ k
unfolding le
le-lt zero a f h = omega arith
le-lt (suc k) a f h = omega (arith, h a, le-lt k (suc a) f h, pow-suc 256 k)

-- a word depends on its own bytes only
pub le-congr :
    (k a : ℕ) (f g : Bytes) → ((q : ℕ) → a ≤ q → q < a + k → f q ≡ g q) → le k a f ≡ le k a g
unfolding le
le-congr zero a f g e = refl
le-congr (suc k) a f g e = omega (
  arith,
  e a (omega arith) (omega arith),
  le-congr k (suc a) f g (λ q l h. e q (omega arith) (omega arith)),
)

-- a word reads alike after a write of bytes that are not its own
pub le-set_le_apart :
    (k a j b v : ℕ) (f : Bytes) → (a + k ≤ b) ⊎ (b + j ≤ a) → le k a (set_le j b v f) ≡ le k a f
le-set_le_apart k a j b v f (inl h) =
    le-congr k a (set_le j b v f) f (λ q l u. set_le_below j b v q f (omega arith))
le-set_le_apart k a j b v f (inr h) =
    le-congr k a (set_le j b v f) f (λ q l u. set_le_above j b v q f (omega arith))

-- the same, on the way to a value
pub le-set_le_skip :
    (k a j b v : ℕ) (f : Bytes) (x : ℕ)
    → (a + k ≤ b) ⊎ (b + j ≤ a)
    → le k a f ≡ x
    → le k a (set_le j b v f) ≡ x
le-set_le_skip k a j b v f x c e = le-set_le_apart k a j b v f c ∙ e
