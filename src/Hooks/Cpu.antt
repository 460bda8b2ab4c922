-- ===== src/Hooks/Cpu.antt =====
-- The three instructions of a hook, as efihooks.hpp names them beside their bytes.
use efiperun_mod.Prelude.{
  ℕ, zero, suc, ◌+◌, ◌-◌, ◌%◌, ◌^◌, ◌≡◌, refl, false, ltb, ◌==◌, if◌then◌else◌, Option, none, some,
  arith,
}
use efiperun_mod.Loader.Bytes.{Bytes, le}

pub record Cpu : Type 0 where
  pub rip : ℕ
  pub r10 : ℕ
  pub rax : ℕ

-- a 32-bit displacement as a 64-bit one
abbrev pub sign_extend : ℕ → ℕ
sign_extend d = if ltb d (2 ^ 31) then d else d + (2 ^ 64 - 2 ^ 32)

-- `lea IND32(%rip),%r10`, `movabs IMM64,%rax` and `jmpq *%rax`; any other is not known
unfoldable pub execute : Bytes → Cpu → Option Cpu
execute mem c =
    if le 3 c.rip mem == 0x158d4c
    then some (record c {
      rip = c.rip + 7;
      r10 = (c.rip + 7 + sign_extend (le 4 (c.rip + 3) mem)) % 2 ^ 64;
    })
    else if le 2 c.rip mem == 0xb848
    then some (record c { rip = c.rip + 10; rax = le 8 (c.rip + 2) mem })
    else if le 2 c.rip mem == 0xe0ff
    then some (record c { rip = c.rax })
    else none

infixl 5 ◌>>=◌
abbrev pub ◌>>=◌ : Option Cpu → (Cpu → Option Cpu) → Option Cpu
none >>= f = none
some c >>= f = f c

-- `n` instructions
unfoldable pub executes : ℕ → Bytes → Cpu → Option Cpu
executes zero mem c = some c
executes (suc n) mem c = execute mem c >>= executes n mem

not_lea :
    (a w : ℕ) (mem : Bytes)
    → le 2 a mem ≡ w
    → (w == 0x8d4c) ≡ false
    → w % 65536 ≡ w
    → (le 3 a mem == 0x158d4c) ≡ false
unfolding le
not_lea a w mem e n s = ground arith

pub execute_lea :
    (mem : Bytes) (c : Cpu)
    → le 3 c.rip mem ≡ 0x158d4c
    → execute mem c
      ≡ some (record c {
        rip = c.rip + 7;
        r10 = (c.rip + 7 + sign_extend (le 4 (c.rip + 3) mem)) % 2 ^ 64;
      })
unfolding execute
execute_lea mem c e = rw e refl

pub execute_mov :
    (mem : Bytes) (c : Cpu)
    → le 2 c.rip mem ≡ 0xb848
    → execute mem c ≡ some (record c { rip = c.rip + 10; rax = le 8 (c.rip + 2) mem })
unfolding execute
execute_mov mem c e = rw (not_lea c.rip 0xb848 mem e refl refl, e) refl

pub execute_jmp :
    (mem : Bytes) (c : Cpu)
    → le 2 c.rip mem ≡ 0xe0ff
    → execute mem c ≡ some (record c { rip = c.rax })
unfolding execute
execute_jmp mem c e = rw (not_lea c.rip 0xe0ff mem e refl refl, e) refl
