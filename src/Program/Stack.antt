-- ===== src/Program/Stack.antt =====
-- efiperun.cpp: what `stack_init` registers.
use mathlib.Core.Path.{subst}
use efiperun_mod.Prelude.{
  ℕ, ◌+◌, ◌-◌, ◌*◌, ◌/◌, ◌%◌, ◌^◌, ◌≡◌, ◌<◌, refl, ap, ◌∙◌, some, arith, not_zero,
}
use efiperun_mod.RangeMap.Intervals.{IsFrom}
use efiperun_mod.RangeMap.Insert.{Updates}
use efiperun_mod.Memory.{MemoryMap, MemoryBlock, point, block_end, register_memory}
use efiperun_mod.Memory.Fresh.{IsFree, register_empty, register_free}
use efiperun_mod.Program.{
  Bounds, read_stackhi, read_stacklo, with_bounds, register_stack, stack_init,
}

-- the end of the page with the address
abbrev pub page_end : ℕ → ℕ
page_end a = (a / 4096 + 1) * 4096

abbrev pub unset : Bounds
unset = record { stackhi = 0; stacklo = 0 }

-- the bounds that `stack_init` finds, and the block that it registers
found : ℕ → ℕ → Bounds
found startstack limit = record {
  stackhi = page_end startstack;
  stacklo = (page_end startstack + 2 ^ 64 - limit) % 2 ^ 64;
}

stack_block : ℕ → ℕ → MemoryBlock
stack_block hi lo = record { start = lo; size = (hi + 2 ^ 64 - lo) % 2 ^ 64; name = "STACK" }

read_lem :
    (startstack limit : ℕ)
    → page_end startstack < 2 ^ 63
    → limit < 2 ^ 64
    → read_stacklo (some limit) (read_stackhi (some startstack) unset) ≡ found startstack limit
unfolding found
read_lem startstack limit h l =
    let hi : (startstack / 4096 * 4096 + 4095 + 1) % 2 ^ 64 ≡ page_end startstack = omega arith in
    let small : limit % 2 ^ 64 ≡ limit = omega arith in
    rw (hi, not_zero (page_end startstack) (omega arith), small) refl

register_lem :
    (b : Bounds) (m : MemoryMap)
    → 0 < b.stackhi
    → 0 < b.stacklo
    → register_stack b m ≡ with_bounds b (register_memory (stack_block b.stackhi b.stacklo) m)
unfolding stack_block
register_lem b m h l = rw (not_zero b.stackhi h, not_zero b.stacklo l) refl

-- the call on bounds that are not null and fit in words
init_lem :
    (startstack limit lo : ℕ) (m : MemoryMap)
    → page_end startstack < 2 ^ 63
    → limit < 2 ^ 64
    → (page_end startstack + 2 ^ 64 - limit) % 2 ^ 64 ≡ lo
    → 0 < lo
    → stack_init (some startstack) (some limit) unset m
      ≡ with_bounds
          (record { stackhi = page_end startstack; stacklo = lo })
          (register_memory (stack_block (page_end startstack) lo) m)
unfolding stack_init
init_lem startstack limit lo m h l e pos =
    let b : found startstack limit ≡ record { stackhi = page_end startstack; stacklo = lo } =
      unfold found in rw e refl in
    ap (λ b. register_stack b m) (read_lem startstack limit h l ∙ b)
    ∙ register_lem (record { stackhi = page_end startstack; stacklo = lo }) m (omega arith) pos

-- Called with no bounds yet and a well-formed map, where the kernel's start of the stack lies in
-- user memory and the limit of its size is positive and below the end of that page, stack_init
-- registers as STACK exactly the range of the limit's size below the end of the page, if nothing is
-- registered there.
pub stack_init-Updates :
    (startstack limit : ℕ) (m : MemoryMap)
    → page_end startstack < 2 ^ 63
    → 0 < limit
    → limit < page_end startstack
    → IsFrom 0 m
    → IsFree (point (page_end startstack - limit)) (point (page_end startstack)) m
    → (m' : MemoryMap) × (stack_init (some startstack) (some limit) unset m
        ≡ some
            (record { stackhi = page_end startstack; stacklo = page_end startstack - limit }, m'))
      × Updates
          (point (page_end startstack - limit))
          (point (page_end startstack))
          (some "STACK")
          m
          m'
unfolding block_end point stack_block
stack_init-Updates startstack limit m h pos lt f free =
    let hi = page_end startstack in
    let lo = page_end startstack - limit in
    let same : block_end (stack_block hi lo) ≡ point hi = omega arith in
    let (m', run, u) =
      register_free (stack_block hi lo) m f (λ q low high. free q low (omega (arith, same))) in
    (
      m',
      init_lem startstack limit lo m h (omega arith) (omega arith) (omega arith)
          ∙ ap (with_bounds (record { stackhi = hi; stacklo = lo })) run,
      subst (λ r. Updates (point lo) r (some "STACK") m m') same u,
    )

-- Called with no bounds yet, where the kernel's start of the stack lies in user memory and the
-- limit is RLIM_INFINITY, stack_init registers nothing: the start of the stack that it computes
-- lies one above its end.
pub stack_init-unlimited :
    (startstack : ℕ) (m : MemoryMap)
    → page_end startstack < 2 ^ 63
    → stack_init (some startstack) (some (2 ^ 64 - 1)) unset m
      ≡ some (record { stackhi = page_end startstack; stacklo = page_end startstack + 1 }, m)
unfolding block_end point stack_block
stack_init-unlimited startstack m h =
    let hi = page_end startstack in
    init_lem startstack (2 ^ 64 - 1) (hi + 1) m h (omega arith) (omega arith) (omega arith)
    ∙ ap (with_bounds (record { stackhi = hi; stacklo = hi + 1 }))
        (register_empty (stack_block hi (hi + 1)) m (omega arith))
