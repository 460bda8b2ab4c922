-- ===== src/Program.antt =====
-- efiperun.cpp: `stack_init`, `register_debug_module` and `main`.
pub mod Order
pub mod Stack
use Prim.Native.String.{String}
use efiperun_mod.Prelude.{
  ℕ, ◌+◌, ◌-◌, ◌*◌, ◌/◌, ◌%◌, ◌^◌, Bool, true, false, not, ◌&&◌, ◌||◌, ltb, ◌==◌, if◌then◌else◌,
  Option, none, some, List, [], ◌∷◌, ◌++◌, map, length,
}
use efiperun_mod.Memory.{MemoryMap, string_eq, register_memory}

-- the static `stackhi` and `stacklo`
pub record Bounds : Type 0 where
  pub stackhi : ℕ
  pub stacklo : ℕ

-- `if (!stackhi)`, on the number that `fscanf` reads, if it does: `stackhi|=0xfff; stackhi+=1`
abbrev pub read_stackhi : Option ℕ → Bounds → Bounds
read_stackhi none b = b
read_stackhi (some startstack) b =
    if b.stackhi == 0
    then record { stackhi = (startstack / 4096 * 4096 + 4095 + 1) % 2 ^ 64; stacklo = b.stacklo }
    else b

-- `if (!stacklo && stackhi)`, on the limit that `getrlimit` gives, if it does
abbrev pub read_stacklo : Option ℕ → Bounds → Bounds
read_stacklo none b = b
read_stacklo (some rlim_cur) b =
    if b.stacklo == 0 && not (b.stackhi == 0)
    then record { stackhi = b.stackhi; stacklo = (b.stackhi + 2 ^ 64 - rlim_cur % 2 ^ 64) % 2 ^ 64 }
    else b

abbrev pub with_bounds : Bounds → Option MemoryMap → Option (Bounds × MemoryMap)
with_bounds b none = none
with_bounds b (some m) = some (b, m)

-- `if (stackhi && stacklo)`
abbrev pub register_stack : Bounds → MemoryMap → Option (Bounds × MemoryMap)
register_stack b m =
    if b.stackhi == 0 || b.stacklo == 0
    then some (b, m)
    else with_bounds b (
        register_memory
          (record {
            start = b.stacklo;
            size = (b.stackhi + 2 ^ 64 - b.stacklo) % 2 ^ 64;
            name = "STACK";
          })
          m)

unfoldable pub stack_init : Option ℕ → Option ℕ → Bounds → MemoryMap → Option (Bounds × MemoryMap)
stack_init startstack rlim_cur b m =
    register_stack (read_stacklo rlim_cur (read_stackhi startstack b)) m

-- `g_init_fns` and `g_run_fns`, of function addresses
pub record Modules : Type 0 where
  pub inits : List ℕ
  pub runs : List ℕ

abbrev pub push_back : ℕ → List ℕ → List ℕ
push_back f fns = if f == 0 then fns else fns ++ (f ∷ [])

unfoldable pub register_debug_module : ℕ → ℕ → Modules → Modules
register_debug_module init run m = record {
  inits = push_back init m.inits;
  runs = push_back run m.runs;
}

-- what `main` does: messages and calls
pub data Event : Type 0 where
  usage : Event
  warning : Event
  stack_initialized : Event
  hooks_initialized : Event
  called : ℕ → Event
  ran_pe : String → String → Event

-- `argv[i]`; `main` reads none from `argc` on
abbrev pub argument : ℕ → List String → String
argument i [] = ""
argument i (a ∷ argv) = if i == 0 then a else argument (i - 1) argv

abbrev pub is_unsafe : String → Bool
is_unsafe a = string_eq.equal a "--unsafe"

-- the two conditions of `main`
abbrev pub misused : List String → Bool
misused argv =
    ltb (length argv) 2
    || ltb 3 (length argv)
    || (length argv == 3 && not (is_unsafe (argument 1 argv)))
    || (length argv == 2 && is_unsafe (argument 1 argv))

abbrev pub unconfirmed : List String → Bool
unconfirmed argv = length argv == 2 || not (is_unsafe (argument 1 argv))

-- `main`: the exit status, and what it does
unfoldable pub main : Modules → List String → ℕ × List Event
main m argv =
    if misused argv then (1, usage ∷ []) else if unconfirmed argv then (1, warning ∷ []) else (
      0,
      stack_initialized
          ∷ hooks_initialized
          ∷ (map called m.inits ++ (ran_pe "MAIN_PE_IMAGE" (argument 2 argv) ∷ map called m.runs)),
    )
