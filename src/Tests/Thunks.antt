-- ===== src/Tests/Thunks.antt =====
-- Hooks at concrete addresses.
use efiperun_mod.Prelude.{◌+◌, ◌*◌, ◌≡◌, refl, some, inr, arith}
use efiperun_mod.Loader.Bytes.{Bytes, le, set_le}
use efiperun_mod.Hooks.{construct, get_func, guid_index, dummy_interface}
use efiperun_mod.Hooks.Cpu.{Cpu, execute, executes}
use efiperun_mod.Hooks.Calls.{Calls, construct-Calls}
use efiperun_mod.Hooks.Dummy.{dummy_interface-Calls}

abbrev zeros : Bytes
zeros q = 0

-- `fix_hook` at 0x401000, a hook of 8 bytes of data at 0x7f0010, its function at 0x402000
abbrev thunk : Bytes
thunk = construct 0x401000 8 0x7f0010 0x402000 0x403000 zeros

abbrev start : Cpu
start = record { rip = 0x7f0020; r10 = 1; rax = 2 }

thunk_runs :
    executes 3 thunk start ≡ some (record { rip = 0x401000; r10 = 0x7f0010; rax = 0x401000 })
unfolding executes execute construct le set_le
thunk_runs = refl

construct-Calls_example :
    Calls 0x401000 8
      (get_func 4096 8 0x7f0010).0
      0x402000
      0x403000
      (construct 0x401000 8 0x7f0010 0x402000 0x403000 zeros)
construct-Calls_example =
    construct-Calls 0x401000 8 0x7f0010 0x402000 0x403000 4096 zeros (omega arith) (omega arith)
      (omega arith) (omega arith) (omega arith)

dummy_interface-Calls_example :
    let mem = dummy_interface 80 0x401000 4096 0x7e0000 0x7f0000 99 0x402000 zeros in
    Calls 0x401000 20 (le 8 (0x7e0000 + 8 * 5) mem) 0x402000 (guid_index 99 5) mem
dummy_interface-Calls_example =
    dummy_interface-Calls 0x401000 4096 0x7e0000 0x7f0000 99 0x402000 80 (omega arith) (omega arith)
      (omega arith) (omega arith) (omega arith) (inr (omega arith)) zeros 5 (omega arith)
