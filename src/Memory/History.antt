-- ===== src/Memory/History.antt =====
-- efiperun.cpp: the owners after a sequence of calls of `register_memory`.
use Prim.Native.String.{String}
use efiperun_mod.Prelude.{
  ℕ, ◌≡◌, ◌<◌, ◌^◌, refl, sym, ◌∙◌, false, if◌then◌else◌, Option, none, some, List, [], ◌∷◌,
}
use mathlib.Core.Path.{subst}
use mathlib.Core.Option.{some-injective}
use efiperun_mod.RangeMap.Intervals.{within, view, IsFrom}
use efiperun_mod.RangeMap.Insert.{Updates}
use efiperun_mod.RangeMap.Erase.{overhangs}
use efiperun_mod.Memory.{
  MemoryMap, MemoryBlock, string_eq, point, block_end, register_memory, lookup_memory,
}
use efiperun_mod.Memory.Register.{register_memory-Updates, Describes, lookup_memory-Describes}

-- a block that is not empty and does not wrap round, where no interval of the map starts at its
-- start and ends after its end
abbrev pub IsClear : MemoryBlock → MemoryMap → Type 0
IsClear block m =
    (point block.start < block_end block)
    × (overhangs (point block.start) (block_end block) m ≡ false)

-- `m` is what registering the blocks, the newest first, makes of the empty map.
pub data Reached : List MemoryBlock → MemoryMap → Type 0 where
  start : Reached [] []
  step :
      {blocks : List MemoryBlock} {m m' : MemoryMap} (block : MemoryBlock)
      → Reached blocks m
      → IsClear block m
      → register_memory block m ≡ some m'
      → Reached (block ∷ blocks) m'

-- the name of the newest block that holds the point
abbrev pub owner : List MemoryBlock → ℕ → Option String
owner [] q = none
owner (block ∷ blocks) q =
    let older = owner blocks q in
    if within (point block.start) (block_end block) q then some block.name else older

-- the map is well-formed and gives every point its owner
pub record IsTracked (blocks : List MemoryBlock) (m : MemoryMap) : Type 0 where
  pub ordered : IsFrom 0 m
  pub reads : (q : ℕ) → view m q ≡ owner blocks q

step-IsTracked :
    (block : MemoryBlock) (blocks : List MemoryBlock) (m m' : MemoryMap)
    → IsTracked blocks m
    → Updates (point block.start) (block_end block) (some block.name) m m'
    → IsTracked (block ∷ blocks) m'
step-IsTracked block blocks m m' t u = record {
  ordered = u.ordered;
  reads = λ q. u.reads q ∙ rw (t.reads q) refl;
}

reached-IsTracked :
    {blocks : List MemoryBlock} {m : MemoryMap} → Reached blocks m → IsTracked blocks m
reached-IsTracked start = record { ordered = tt; reads = λ q. unfold view in refl }
reached-IsTracked (step {blocks} {m} {m'} block r (lt, clear) run) =
    let t = reached-IsTracked r in
    let (m'', run', u) = register_memory-Updates block m t.ordered lt clear in
    step-IsTracked block blocks m m' t (
      subst (λ x. Updates (point block.start) (block_end block) (some block.name) m x)
        (some-injective m'' m' (sym run' ∙ run)) u)

-- In every state that registrations of clear blocks reach from the empty map, lookup_memory names
-- for each address the newest block that holds it, or the null block where none does; it gives as
-- start the start of the interval of the map that holds the address, and the address's offset from
-- there; and a further clear block can be registered.
pub lookup_memory-Reached :
    (blocks : List MemoryBlock) (m : MemoryMap)
    → Reached blocks m
    → ((addr : ℕ)
        → addr < 2 ^ 64
        → Describes addr m (owner blocks (point addr)) (lookup_memory addr m))
      × ((block : MemoryBlock)
          → IsClear block m
          → (m' : MemoryMap) × (register_memory block m ≡ some m') × Reached (block ∷ blocks) m')
lookup_memory-Reached blocks m r =
    let t = reached-IsTracked r in
    (
      λ addr h.
          subst (λ o. Describes addr m o (lookup_memory addr m)) (t.reads (point addr))
            (lookup_memory-Describes addr m h t.ordered),
      λ block (lt, clear).
          let (m', run, u) = register_memory-Updates block m t.ordered lt clear in
          (m', run, step block r (lt, clear) run),
    )
