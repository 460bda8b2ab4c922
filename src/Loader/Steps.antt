-- ===== src/Loader/Steps.antt =====
-- peloader.c: the steps that `load_pe` is made of, a read and a test, as they settle.
use efiperun_mod.Prelude.{ℕ, ◌≡◌, refl, Bool, true, false}
use efiperun_mod.Loader.Bytes.{le}
use efiperun_mod.Loader.Relocation.{Outcome, ◌>>=◌, Image, read}
use efiperun_mod.Loader.Relocation.Extent.{Settles, Settles->>=, read-Settles}
use efiperun_mod.Loader.Header.{require}

module _ {ℓ} {B : Type ℓ} (Q : B → Type 0) where
  pub after_read :
      (k a : ℕ) (m : Image) (f : ℕ → Outcome B)
      → ((x : ℕ) → x ≡ le k a m.byte → Settles Q (f x))
      → Settles Q (read k a m >>= f)
  after_read k a m f g =
      Settles->>= (λ x. x ≡ le k a m.byte) Q (read k a m) f (read-Settles k a m) g

  pub after_require :
      (b : Bool) (f : Unit {0} → Outcome B)
      → (b ≡ true → Settles Q (f tt))
      → Settles Q (require b >>= f)
  after_require true f g = g refl
  after_require false f g = tt
