-- ===== src/Hooks/Layout.antt =====
-- efihooks.hpp: what stands in memory once a hook is constructed.
use efiperun_mod.Prelude.{ℕ, ◌^◌, ◌≡◌, ◌<◌, inl, inr, arith}
use efiperun_mod.Loader.Bytes.{Bytes, le, le-set_le, le-set_le_skip}
use efiperun_mod.Hooks.{
  data_at, op1_at, op1_index_at, op2_at, op2_imm_at, op3_at, distance, construct,
}

-- the fields of a hook at `this`
pub record IsHook (fix size this pfn value : ℕ) (mem : Bytes) : Type 0 where
  pub pfn_field : le 8 this mem ≡ pfn
  pub data_field : le size (data_at this) mem ≡ value
  pub op1_field : le 3 (op1_at size this) mem ≡ 0x158d4c
  pub index_field : le 4 (op1_index_at size this) mem ≡ distance size this
  pub op2_field : le 2 (op2_at size this) mem ≡ 0xb848
  pub imm_field : le 8 (op2_imm_at size this) mem ≡ fix
  pub op3_field : le 2 (op3_at size this) mem ≡ 0xe0ff

pub construct-IsHook :
    (fix size this pfn value : ℕ) (mem : Bytes)
    → fix < 2 ^ 64
    → pfn < 2 ^ 64
    → value < 256 ^ size
    → IsHook fix size this pfn value (construct fix size this pfn value mem)
unfolding construct
construct-IsHook fix size this pfn value mem f p v = record {
  pfn_field = le-set_le_skip _ _ _ _ _ _ _ (inl (omega arith)) (
      le-set_le_skip _ _ _ _ _ _ _ (inl (omega arith)) (
        le-set_le_skip _ _ _ _ _ _ _ (inl (omega arith)) (
          le-set_le_skip _ _ _ _ _ _ _ (inl (omega arith)) (
            le-set_le_skip _ _ _ _ _ _ _ (inl (omega arith)) (
              le-set_le_skip _ _ _ _ _ _ _ (inl (omega arith))
                (le-set_le _ _ _ _ (omega (arith, p))))))));
  data_field = le-set_le_skip _ _ _ _ _ _ _ (inl (omega arith)) (
      le-set_le_skip _ _ _ _ _ _ _ (inl (omega arith)) (
        le-set_le_skip _ _ _ _ _ _ _ (inl (omega arith)) (
          le-set_le_skip _ _ _ _ _ _ _ (inl (omega arith))
            (le-set_le_skip _ _ _ _ _ _ _ (inl (omega arith)) (le-set_le _ _ _ _ v)))));
  op1_field = le-set_le_skip _ _ _ _ _ _ _ (inl (omega arith)) (
      le-set_le_skip _ _ _ _ _ _ _ (inl (omega arith)) (
        le-set_le_skip _ _ _ _ _ _ _ (inl (omega arith))
          (le-set_le_skip _ _ _ _ _ _ _ (inl (omega arith)) (le-set_le _ _ _ _ (omega arith)))));
  index_field = le-set_le_skip _ _ _ _ _ _ _ (inl (omega arith)) (le-set_le _ _ _ _ (omega arith));
  op2_field = le-set_le_skip _ _ _ _ _ _ _ (inl (omega arith)) (
      le-set_le_skip _ _ _ _ _ _ _ (inr (omega arith))
        (le-set_le_skip _ _ _ _ _ _ _ (inl (omega arith)) (le-set_le _ _ _ _ (omega arith))));
  imm_field = le-set_le _ _ _ _ (omega (arith, f));
  op3_field =
      le-set_le_skip _ _ _ _ _ _ _ (inr (omega arith))
        (le-set_le_skip _ _ _ _ _ _ _ (inr (omega arith)) (le-set_le _ _ _ _ (omega arith)));
}
