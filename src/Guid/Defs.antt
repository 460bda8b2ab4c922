-- ===== src/Guid/Defs.antt =====
-- main.h and <efi.h>: `EFI_GUID`, its hash and its equality, which read it as two `UINT64`.
use Prim.Native.Nat.{bit_xor}
use efiperun_mod.Prelude.{ℕ, ◌+◌, ◌*◌, ◌^◌, ◌<◌, Bool, ◌&&◌, ◌==◌}

-- `Data1`, `Data2`, `Data3` and the eight bytes of `Data4`
pub record Guid : Type 0 where
  pub data1 : ℕ
  pub data2 : ℕ
  pub data3 : ℕ
  pub b0 : ℕ
  pub b1 : ℕ
  pub b2 : ℕ
  pub b3 : ℕ
  pub b4 : ℕ
  pub b5 : ℕ
  pub b6 : ℕ
  pub b7 : ℕ

abbrev pub guid : ℕ → ℕ → ℕ → ℕ → ℕ → ℕ → ℕ → ℕ → ℕ → ℕ → ℕ → Guid
guid d1 d2 d3 c0 c1 c2 c3 c4 c5 c6 c7 = record {
  data1 = d1;
  data2 = d2;
  data3 = d3;
  b0 = c0;
  b1 = c1;
  b2 = c2;
  b3 = c3;
  b4 = c4;
  b5 = c5;
  b6 = c6;
  b7 = c7;
}

-- the widths of the fields
pub record IsGuid (g : Guid) : Type 0 where
  pub data1_lt : g.data1 < 2 ^ 32
  pub data2_lt : g.data2 < 2 ^ 16
  pub data3_lt : g.data3 < 2 ^ 16
  pub b0_lt : g.b0 < 256
  pub b1_lt : g.b1 < 256
  pub b2_lt : g.b2 < 256
  pub b3_lt : g.b3 < 256
  pub b4_lt : g.b4 < 256
  pub b5_lt : g.b5 < 256
  pub b6_lt : g.b6 < 256
  pub b7_lt : g.b7 < 256

-- `((UINT64*)&s)[0]` and `((UINT64*)&s)[1]`, on a little-endian machine
unfoldable pub word0 : Guid → ℕ
word0 g = g.data1 + 2 ^ 32 * g.data2 + 2 ^ 48 * g.data3

unfoldable pub word1 : Guid → ℕ
word1 g =
    g.b0
    + 2 ^ 8 * g.b1
    + 2 ^ 16 * g.b2
    + 2 ^ 24 * g.b3
    + 2 ^ 32 * g.b4
    + 2 ^ 40 * g.b5
    + 2 ^ 48 * g.b6
    + 2 ^ 56 * g.b7

-- `std::hash<EFI_GUID>`
unfoldable pub hash : Guid → ℕ
unfolding word0 word1
hash s = bit_xor (word0 s) (word1 s)

-- `operator==`
unfoldable pub guid_equal : Guid → Guid → Bool
unfolding word0 word1
guid_equal s1 s2 = word0 s1 == word0 s2 && word1 s1 == word1 s2
