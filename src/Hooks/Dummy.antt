-- ===== src/Hooks/Dummy.antt =====
-- efihooks.hpp: what the constructor of `DummyInterface` leaves in memory.
use efiperun_mod.Prelude.{
  ℕ, zero, suc, ◌+◌, ◌*◌, ◌^◌, ◌≡◌, ◌≤◌, ◌<◌, refl, ◌∙◌, ◌⊎◌, inl, inr, arith, Bool-cases, ◌==◌,
  ==_iff,
}
use efiperun_mod.Loader.Bytes.{Bytes, le, set_le, le-congr, le-set_le, set_le_below, set_le_above}
use efiperun_mod.Hooks.{
  data_at, op1_at, op1_index_at, op2_at, op2_imm_at, op3_at, hook_size, construct, get_func,
  guid_index, add_hooks, dummy_interface,
}
use efiperun_mod.Hooks.Layout.{IsHook, construct-IsHook}
use efiperun_mod.Hooks.Calls.{Calls, IsHook-Calls}

-- memory is as it was but between `low` and `high`
abbrev pub Keeps : ℕ → ℕ → Bytes → Bytes → Type 0
Keeps low high mem mem' = (q : ℕ) → (q < low) ⊎ (high ≤ q) → mem' q ≡ mem q

set_le-Keeps : (k a v : ℕ) (mem : Bytes) → Keeps a (a + k) mem (set_le k a v mem)
set_le-Keeps k a v mem q (inl h) = set_le_below k a v q mem h
set_le-Keeps k a v mem q (inr h) = set_le_above k a v q mem h

-- one write more between `low` and `high`
Keeps-set_le :
    (k a v low high : ℕ) (mem m : Bytes)
    → low ≤ a
    → a + k ≤ high
    → Keeps low high mem m
    → Keeps low high mem (set_le k a v m)
Keeps-set_le k a v low high mem m l h w q (inl x) =
    set_le_below k a v q m (omega arith) ∙ w q (inl x)
Keeps-set_le k a v low high mem m l h w q (inr x) =
    set_le_above k a v q m (omega arith) ∙ w q (inr x)

construct-Keeps :
    (fix size this pfn value : ℕ) (mem : Bytes)
    → Keeps this (this + hook_size size) mem (construct fix size this pfn value mem)
unfolding construct
construct-Keeps fix size this pfn value mem =
    Keeps-set_le _ _ _ _ _ _ _ (omega arith) (omega arith) (
      Keeps-set_le _ _ _ _ _ _ _ (omega arith) (omega arith) (
        Keeps-set_le _ _ _ _ _ _ _ (omega arith) (omega arith) (
          Keeps-set_le _ _ _ _ _ _ _ (omega arith) (omega arith) (
            Keeps-set_le _ _ _ _ _ _ _ (omega arith) (omega arith) (
              Keeps-set_le _ _ _ _ _ _ _ (omega arith) (omega arith)
                (Keeps-set_le _ _ _ _ _ _ _ (omega arith) (omega arith) (λ q c. refl)))))))

le-Keeps :
    (k a low high : ℕ) (m m' : Bytes)
    → (a + k ≤ low) ⊎ (high ≤ a)
    → Keeps low high m m'
    → le k a m' ≡ le k a m
le-Keeps k a low high m m' (inl h) w = le-congr k a m' m (λ q l u. w q (inl (omega arith)))
le-Keeps k a low high m m' (inr h) w = le-congr k a m' m (λ q l u. w q (inr (omega arith)))

-- a hook that the change does not reach
IsHook-Keeps :
    (fix size this pfn value low high : ℕ) (m m' : Bytes)
    → (this + hook_size size ≤ low) ⊎ (high ≤ this)
    → Keeps low high m m'
    → IsHook fix size this pfn value m
    → IsHook fix size this pfn value m'
IsHook-Keeps fix size this pfn value low high m m' c w h = record {
  pfn_field = same 8 this (omega arith) (omega arith) ∙ h.pfn_field;
  data_field = same size (data_at this) (omega arith) (omega arith) ∙ h.data_field;
  op1_field = same 3 (op1_at size this) (omega arith) (omega arith) ∙ h.op1_field;
  index_field = same 4 (op1_index_at size this) (omega arith) (omega arith) ∙ h.index_field;
  op2_field = same 2 (op2_at size this) (omega arith) (omega arith) ∙ h.op2_field;
  imm_field = same 8 (op2_imm_at size this) (omega arith) (omega arith) ∙ h.imm_field;
  op3_field = same 2 (op3_at size this) (omega arith) (omega arith) ∙ h.op3_field;
}
  where
    apart : (k a : ℕ) → this ≤ a → a + k ≤ this + hook_size size → (a + k ≤ low) ⊎ (high ≤ a)
    apart k a l u = elim c [ inl x ↦ inl (omega arith) | inr x ↦ inr (omega arith) ]

    same : (k a : ℕ) → this ≤ a → a + k ≤ this + hook_size size → le k a m' ≡ le k a m
    same k a l u = le-Keeps k a low high m m' (apart k a l u) w

-- The section's facts: the interface and the storage of its hooks do not overlap, nor wrap.
module _ (fix page_size this hooks guid pfn num : ℕ) (f : fix < 2 ^ 64) (p : pfn < 2 ^ 64)
    (g : guid < 2 ^ 128) (n : num < 2 ^ 32) (room : hooks + 47 * num < 2 ^ 64)
    (apart : (hooks + 47 * num ≤ this) ⊎ (this + 8 * num ≤ hooks)) where
  -- entry `j` of the interface is the code pointer of hook `j`
  IsEntry : Bytes → ℕ → Type 0
  IsEntry mem j =
      IsHook fix 20 (hooks + 47 * j) pfn (guid_index guid j) mem
      × (le 8 (this + 8 * j) mem ≡ op1_at 20 (hooks + 47 * j))

  hook_apart :
      (i j : ℕ)
      → i < num
      → j < num
      → (hooks + 47 * j + hook_size 20 ≤ this + 8 * i) ⊎ (this + 8 * i + 8 ≤ hooks + 47 * j)
  hook_apart i j h l = elim apart [ inl x ↦ inl (omega arith) | inr x ↦ inr (omega arith) ]

  pointer_apart :
      (i j : ℕ)
      → i < num
      → j < num
      → (this + 8 * j + 8 ≤ hooks + 47 * i) ⊎ (hooks + 47 * i + hook_size 20 ≤ this + 8 * j)
  pointer_apart i j h l = elim apart [ inl x ↦ inr (omega arith) | inr x ↦ inl (omega arith) ]

  -- one round of the loop
  round : ℕ → Bytes → Bytes
  round i mem =
      set_le 8 (this + 8 * i) (op1_at 20 (hooks + 47 * i))
        (construct fix 20 (hooks + 47 * i) pfn (guid_index guid i) mem)

  round_old : (i j : ℕ) (mem : Bytes) → i < num → j < i → IsEntry mem j → IsEntry (round i mem) j
  unfolding round IsEntry
  round_old i j mem h l (hook, pointer) =
      let built = construct fix 20 (hooks + 47 * i) pfn (guid_index guid i) mem in
      let low = hooks + 47 * i in
      let keeps : Keeps low (low + hook_size 20) mem built =
        construct-Keeps fix 20 low pfn (guid_index guid i) mem in
      let keeps' : Keeps (this + 8 * i) (this + 8 * i + 8) built (round i mem) =
        set_le-Keeps 8 (this + 8 * i) (op1_at 20 low) built in
      (
        IsHook-Keeps fix 20 (hooks + 47 * j) pfn (guid_index guid j) (this + 8 * i)
            (this + 8 * i + 8) built (round i mem) (hook_apart i j h (omega arith)) keeps'
            (IsHook-Keeps fix 20 (hooks + 47 * j) pfn (guid_index guid j) low (low + hook_size 20)
              mem built (inl (omega arith)) keeps hook),
        le-Keeps 8 (this + 8 * j) (this + 8 * i) (this + 8 * i + 8) built (round i mem)
              (inl (omega arith)) keeps'
            ∙ le-Keeps 8 (this + 8 * j) low (low + hook_size 20) mem built
                (pointer_apart i j h (omega arith)) keeps
            ∙ pointer,
      )

  round_new : (i : ℕ) (mem : Bytes) → i < num → IsEntry (round i mem) i
  unfolding round IsEntry
  round_new i mem h =
      let built = construct fix 20 (hooks + 47 * i) pfn (guid_index guid i) mem in
      (
        IsHook-Keeps fix 20 (hooks + 47 * i) pfn (guid_index guid i) (this + 8 * i)
            (this + 8 * i + 8) built (round i mem) (hook_apart i i h h)
            (set_le-Keeps 8 (this + 8 * i) (op1_at 20 (hooks + 47 * i)) built)
            (construct-IsHook fix 20 (hooks + 47 * i) pfn (guid_index guid i) mem f p
              (omega arith)),
        le-set_le 8 (this + 8 * i) (op1_at 20 (hooks + 47 * i)) built (omega arith),
      )

  add_hooks-IsEntry :
      (k i : ℕ) (mem : Bytes)
      → i + k ≡ num
      → ((j : ℕ) → j < i → IsEntry mem j)
      → (j : ℕ) → j < num
      → IsEntry (add_hooks fix page_size this hooks guid pfn k i mem) j
  unfolding add_hooks get_func round
  add_hooks-IsEntry zero i mem e old j h = old j (omega arith)
  add_hooks-IsEntry (suc k) i mem e old j l =
      add_hooks-IsEntry k (suc i) (round i mem) (omega arith)
        (λ j h. elim (Bool-cases (j == i)) [
          | inl t ↦ rw ((==_iff j i).0 t) (round_new i mem (omega arith))
          | inr t ↦ round_old i j mem (omega arith) (ground arith) (old j (ground arith))
        ])
        j l

  -- Where the interface and its hooks do not overlap, the hooks end below 2 ^ 64, and the addresses
  -- of the functions, the GUID and the number of entries fit in their words, every entry of a new
  -- DummyInterface calls the function it was made with, with the GUID and the entry's own index as
  -- its data.
  pub dummy_interface-Calls :
      (mem : Bytes) (j : ℕ)
      → j < num
      → let mem' = dummy_interface num fix page_size this hooks guid pfn mem in
        Calls fix 20 (le 8 (this + 8 * j) mem') pfn (guid_index guid j) mem'
  unfolding dummy_interface IsEntry
  dummy_interface-Calls mem j h =
      let entry = add_hooks-IsEntry num 0 mem (omega arith) (λ i l. absurd (omega arith)) j h in
      rw (entry.1) (
        IsHook-Calls fix 20 (hooks + 47 * j) pfn (guid_index guid j) _ (omega arith) (omega arith)
          entry.0)
