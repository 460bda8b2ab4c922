-- ===== src/Hooks/Calls.antt =====
-- efihooks.hpp: what a call of a hook's code pointer does.
use efiperun_mod.Prelude.{ℕ, ◌+◌, ◌%◌, ◌^◌, ◌≡◌, ◌<◌, refl, ap, ◌∙◌, some, arith}
use efiperun_mod.Loader.Bytes.{Bytes, le}
use efiperun_mod.Hooks.{
  data_at, op1_at, op2_at, op3_at, hook_size, distance, construct, get_func, fix_hook,
}
use efiperun_mod.Hooks.Cpu.{
  Cpu, execute, executes, sign_extend, execute_lea, execute_mov, execute_jmp,
}
use efiperun_mod.Hooks.Layout.{IsHook, construct-IsHook}

distance_lem :
    (size this : ℕ)
    → this + hook_size size < 2 ^ 64
    → size < 2 ^ 30
    → (op2_at size this + sign_extend (distance size this)) % 2 ^ 64 ≡ this
distance_lem size this h s = ground arith

three :
    (mem : Bytes) (c c1 c2 c3 : Cpu)
    → execute mem c ≡ some c1
    → execute mem c1 ≡ some c2
    → execute mem c2 ≡ some c3
    → executes 3 mem c ≡ some c3
unfolding executes
three mem c c1 c2 c3 e1 e2 e3 = rw (e1, e2, e3) refl

hook_runs :
    (fix size this pfn value : ℕ) (mem : Bytes) (r10 rax : ℕ)
    → this + hook_size size < 2 ^ 64
    → size < 2 ^ 30
    → IsHook fix size this pfn value mem
    → executes 3 mem (record { rip = op1_at size this; r10 = r10; rax = rax })
      ≡ some (record { rip = fix; r10 = this; rax = fix })
hook_runs fix size this pfn value mem r10 rax h s w =
    let c : Cpu = record { rip = op1_at size this; r10 = r10; rax = rax } in
    let c1 : Cpu = record { rip = op2_at size this; r10 = this; rax = rax } in
    let c2 : Cpu = record { rip = op3_at size this; r10 = this; rax = fix } in
    three mem c c1 c2 (record { rip = fix; r10 = this; rax = fix })
      (execute_lea mem c w.op1_field ∙ ground (arith, w.index_field, distance_lem size this h s))
      (execute_mov mem c1 w.op2_field ∙ ground (arith, w.imm_field))
      (execute_jmp mem c2 w.op3_field)

-- A call of the code at `code` comes to a call of `pfn` with the address of the data: the three
-- instructions end at `fix_hook`, which reads both from `r10`.
pub record Calls (fix size code pfn value : ℕ) (mem : Bytes) : Type 0 where
  pub this : ℕ
  pub runs :
      (r10 rax : ℕ)
      → executes 3 mem (record { rip = code; r10 = r10; rax = rax })
        ≡ some (record { rip = fix; r10 = this; rax = fix })
  pub calls : fix_hook this mem ≡ (pfn, data_at this)
  pub holds : le size (data_at this) mem ≡ value

pub IsHook-Calls :
    (fix size this pfn value : ℕ) (mem : Bytes)
    → this + hook_size size < 2 ^ 64
    → size < 2 ^ 30
    → IsHook fix size this pfn value mem
    → Calls fix size (op1_at size this) pfn value mem
IsHook-Calls fix size this pfn value mem h s w = record {
  this = this;
  runs = λ r10 rax. hook_runs fix size this pfn value mem r10 rax h s w;
  calls = unfold fix_hook in ap (λ x. (x, data_at this)) w.pfn_field;
  holds = w.data_field;
}

-- Where the hook ends below 2 ^ 64, its data take fewer than 2 ^ 30 bytes and fit in them, and the
-- two functions have 64-bit addresses, a call of the code pointer of a hook, once it is
-- constructed, calls the hook's function with the address of the data that were given, whatever
-- the registers hold.
pub construct-Calls :
    (fix size this pfn value page_size : ℕ) (mem : Bytes)
    → fix < 2 ^ 64
    → pfn < 2 ^ 64
    → value < 256 ^ size
    → this + hook_size size < 2 ^ 64
    → size < 2 ^ 30
    → Calls fix size
        (get_func page_size size this).0
        pfn
        value
        (construct fix size this pfn value mem)
unfolding get_func
construct-Calls fix size this pfn value page_size mem f p v h s =
    IsHook-Calls fix size this pfn value (construct fix size this pfn value mem) h s
      (construct-IsHook fix size this pfn value mem f p v)
