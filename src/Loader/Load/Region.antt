-- ===== src/Loader/Load/Region.antt =====
-- peloader.c: the region that `load_pe` maps for an image.
use efiperun_mod.Prelude.{ℕ, ◌+◌, ◌%◌, ◌≡◌, ◌≤◌, ◌<◌}
use efiperun_mod.Loader.Relocation.{Outcome, ok, failed, fault, out_of_fuel}

-- the least run of whole pages that holds the bytes from `low` up to `high`, and one more
pub record Covers (page low high base size : ℕ) : Type 0 where
  pub low_page : base ≤ low
  pub low_tight : low < base + page
  pub high_page : high < base + size
  pub high_tight : base + size ≤ high + page
  pub base_aligned : base % page ≡ 0
  pub size_aligned : size % page ≡ 0

abbrev pub IsCovering : ℕ → ℕ → ℕ → Outcome (ℕ × ℕ) → Type 0
IsCovering page low high (ok r) = Covers page low high r.0 r.1
IsCovering page low high failed = ⊥
IsCovering page low high fault = ⊥
IsCovering page low high out_of_fuel = ⊥
