-- ===== src/Hooks.antt =====
-- efihooks.hpp: the class `GenericHook`, machine code that calls a function with its data, and
-- `DummyInterface`, an interface made of such hooks.
pub mod Layout
pub mod Cpu
pub mod Calls
pub mod Pages
pub mod Dummy
use efiperun_mod.Prelude.{
  ℕ, zero, suc, ◌+◌, ◌-◌, ◌*◌, ◌/◌, ◌%◌, ◌^◌, Bool, ◌==◌, if◌then◌else◌, List, [], ◌∷◌,
}
use efiperun_mod.Loader.Bytes.{Bytes, le, set_le}

-- A hook with `size` bytes of data: packed, so that each field stands where the one before ends.
abbrev pub data_at : ℕ → ℕ
data_at this = this + 8

abbrev pub op1_at : ℕ → ℕ → ℕ
op1_at size this = data_at this + size

abbrev pub op1_index_at : ℕ → ℕ → ℕ
op1_index_at size this = op1_at size this + 3

abbrev pub op2_at : ℕ → ℕ → ℕ
op2_at size this = op1_index_at size this + 4

abbrev pub op2_imm_at : ℕ → ℕ → ℕ
op2_imm_at size this = op2_at size this + 2

abbrev pub op3_at : ℕ → ℕ → ℕ
op3_at size this = op2_imm_at size this + 8

abbrev pub hook_size : ℕ → ℕ
hook_size size = 8 + size + 19

-- `((intptr_t)this)-((intptr_t)&op2)`, kept in an `int`
abbrev pub distance : ℕ → ℕ → ℕ
distance size this = (this + 2 ^ 64 - op2_at size this) % 2 ^ 32

-- the constructor: the members in their order, then its body; `fix` is the address of `fix_hook`
unfoldable pub construct : ℕ → ℕ → ℕ → ℕ → ℕ → Bytes → Bytes
construct fix size this pfn value mem =
    let mem1 = set_le 8 this pfn mem in
    let mem2 = set_le size (data_at this) value mem1 in
    let mem3 = set_le 3 (op1_at size this) 0x158d4c mem2 in
    let mem4 = set_le 2 (op2_at size this) 0xb848 mem3 in
    let mem5 = set_le 2 (op3_at size this) 0xe0ff mem4 in
    let mem6 = set_le 4 (op1_index_at size this) (distance size this) mem5 in
    set_le 8 (op2_imm_at size this) fix mem6

-- the page of an address; the page size is a power of two
unfoldable pub page_of : ℕ → ℕ → ℕ
page_of page_size addr = addr / page_size * page_size

-- `get_func`: the code pointer, and the pages that it makes executable
unfoldable pub get_func : ℕ → ℕ → ℕ → ℕ × List ℕ
get_func page_size size this =
    let page1 = page_of page_size (op1_at size this) in
    let page2 = page_of page_size (op3_at size this + 2 - 1) in
    (op1_at size this, if page2 == page1 then page1 ∷ [] else (page1 ∷ page2 ∷ []))

-- `fix_hook`, with what is in `r10`: the function that it calls, and the address of the data
unfoldable pub fix_hook : ℕ → Bytes → ℕ × ℕ
fix_hook r10 mem = (le 8 r10 mem, data_at r10)

-- a `GuidIndex` as the number of its 20 bytes
abbrev pub guid_index : ℕ → ℕ → ℕ
guid_index guid index = guid + 2 ^ 128 * index

abbrev pub guid_index_size : ℕ
guid_index_size = 20

-- The loop of the constructor of `DummyInterface` from `i` on, for `k` more hooks: they stand one
-- after another at `hooks`, which was reserved, and their code pointers go to `this`.
unfoldable pub add_hooks : ℕ → ℕ → ℕ → ℕ → ℕ → ℕ → ℕ → ℕ → Bytes → Bytes
add_hooks fix page_size this hooks guid pfn zero i mem = mem
add_hooks fix page_size this hooks guid pfn (suc k) i mem =
    let hook = hooks + hook_size guid_index_size * i in
    let mem' = construct fix guid_index_size hook pfn (guid_index guid i) mem in
    let mem'' = set_le 8 (this + 8 * i) (get_func page_size guid_index_size hook).0 mem' in
    add_hooks fix page_size this hooks guid pfn k (suc i) mem''

unfoldable pub dummy_interface : ℕ → ℕ → ℕ → ℕ → ℕ → ℕ → ℕ → Bytes → Bytes
dummy_interface num fix page_size this hooks guid pfn mem =
    add_hooks fix page_size this hooks guid pfn num 0 mem
