-- ===== src/Services/Guarded.antt =====
-- stubs.cpp: `SetMem` and `CopyMem` change memory only where it is registered.
use mathlib.Core.Path.{subst}
use efiperun_mod.Prelude.{
  arith, ℕ, ◌+◌, ◌%◌, ◌^◌, ◌≡◌, ◌<◌, refl, Bool, true, false, some, ◌⊎◌, inl, inr, not_zero,
}
use efiperun_mod.RangeMap.Intervals.{IsFrom}
use efiperun_mod.Loader.Bytes.{Bytes}
use efiperun_mod.Memory.{MemoryMap, string_eq, point}
use efiperun_mod.Memory.Access.{IsAnswer, can_access-IsAnswer}
use efiperun_mod.Services.{memset, memcpy, guarded, set_mem, copy_mem}

-- whether all of `len` bytes at `base` have an owner
abbrev pub Answers : ℕ → ℕ → MemoryMap → Bool → Type 0
Answers base len m t = IsAnswer (point base) (point ((len + base) % 2 ^ 64)) m t

-- What `SetMem` comes to where the range does not wrap round: all its bytes and its first address
-- have an owner and the bytes are set, or one of them has none and nothing changes.
abbrev pub IsFilled : ℕ → ℕ → ℕ → MemoryMap → Bytes → Bytes → Type 0
IsFilled buffer size value m mem mem' =
    (IsAnswer (point buffer) (point buffer + size) m true × (mem' ≡ memset buffer value size mem))
    ⊎ (IsAnswer (point buffer) (point buffer + size) m false × (mem' ≡ mem))

-- what `CopyMem` comes to
abbrev pub IsCopied : ℕ → ℕ → ℕ → MemoryMap → Bytes → Bytes → Type 0
IsCopied destination source length m mem mem' =
    (Answers source length m true
      × Answers destination length m true
      × (mem' ≡ memcpy destination source length mem))
    ⊎ ((Answers source length m false ⊎ Answers destination length m false) × (mem' ≡ mem))

guarded-IsFilled :
    (buffer size value : ℕ) (m : MemoryMap) (mem : Bytes) (t : Bool)
    → IsAnswer (point buffer) (point buffer + size) m t
    → (mem' : Bytes) × (guarded (some t) (some (memset buffer value size mem)) mem ≡ some mem')
      × IsFilled buffer size value m mem mem'
guarded-IsFilled buffer size value m mem true a =
    (memset buffer value size mem, refl, inl (a, refl))
guarded-IsFilled buffer size value m mem false a = (mem, refl, inr (a, refl))

range_end :
    (base len : ℕ) → point base + len < 2 ^ 64 → point ((len + base) % 2 ^ 64) ≡ point base + len
unfolding point
range_end base len h = omega arith

-- Over a well-formed map, SetMem of a buffer that is not NULL, and whose range does not pass the
-- greatest signed address, ends. Where the buffer's address and every byte of the range have an
-- owner it sets the bytes of the range and no other; where one of them has none it changes nothing.
pub set_mem-IsFilled :
    (buffer size value : ℕ) (m : MemoryMap) (mem : Bytes)
    → IsFrom 0 m
    → 0 < buffer
    → point buffer + size < 2 ^ 64
    → (mem' : Bytes) × (set_mem buffer size value m mem ≡ some mem')
      × IsFilled buffer size value m mem mem'
unfolding set_mem
set_mem-IsFilled buffer size value m mem f h below =
    let (t, run, ans) = can_access-IsAnswer buffer size m f in
    rw (not_zero buffer h, run)
      (guarded-IsFilled buffer size value m mem t
        (subst (λ hi. IsAnswer (point buffer) hi m t) (range_end buffer size below) ans))

guarded-IsCopied :
    (d s n : ℕ) (m : MemoryMap) (mem : Bytes) (t u : Bool)
    → Answers s n m t
    → Answers d n m u
    → (mem' : Bytes) × (guarded (some t) (guarded (some u) (some (memcpy d s n mem)) mem) mem
        ≡ some mem')
      × IsCopied d s n m mem mem'
guarded-IsCopied d s n m mem true true a b = (memcpy d s n mem, refl, inl (a, b, refl))
guarded-IsCopied d s n m mem true false a b = (mem, refl, inr (inr b, refl))
guarded-IsCopied d s n m mem false u a b = (mem, refl, inr (inl a, refl))

-- Over a well-formed map CopyMem between buffers that are not NULL ends. It copies the bytes where
-- every one of both ranges has an owner, and changes nothing where one has none.
pub copy_mem-IsCopied :
    (destination source length : ℕ) (m : MemoryMap) (mem : Bytes)
    → IsFrom 0 m
    → 0 < destination
    → 0 < source
    → (mem' : Bytes) × (copy_mem destination source length m mem ≡ some mem')
      × IsCopied destination source length m mem mem'
unfolding copy_mem
copy_mem-IsCopied d s n m mem f h h' =
    let (t, run, ans) = can_access-IsAnswer s n m f in
    let (u, run', ans') = can_access-IsAnswer d n m f in
    rw (not_zero d h, not_zero s h', run, run') (guarded-IsCopied d s n m mem t u ans ans')
