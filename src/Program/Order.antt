-- ===== src/Program/Order.antt =====
-- efiperun.cpp: what `main` runs and in which order.
use Prim.Native.String.{String}
use mathlib.Core.List.{append_assoc, append-nil}
use efiperun_mod.Prelude.{
  ℕ, ◌≡◌, refl, sym, ◌∙◌, Bool, true, ◌==◌, if◌then◌else◌, List, [], ◌∷◌, ◌++◌, map, arith,
  Bool-cases, inl, inr,
}
use efiperun_mod.Program.{
  Modules, push_back, register_debug_module, Event, usage, warning, stack_initialized,
  hooks_initialized, called, ran_pe, is_unsafe, misused, main,
}

-- what the constructors of the modules register, one after another
abbrev pub register_all : List (ℕ × ℕ) → Modules → Modules
register_all [] m = m
register_all ((init, run) ∷ fns) m = register_all fns (register_debug_module init run m)

-- the addresses that are not null
abbrev pub present : List ℕ → List ℕ
present [] = []
present (f ∷ fns) = let rest = present fns in if f == 0 then rest else f ∷ rest

abbrev pub no_modules : Modules
no_modules = record { inits = []; runs = [] }

-- what `main` is for: a run of the file only after `--unsafe`, between the functions of the
-- modules; the warning for a lone file name; else the usage
abbrev pub expected : List (ℕ × ℕ) → List String → ℕ × List Event
expected fns (program ∷ a ∷ []) = if is_unsafe a then (1, usage ∷ []) else (1, warning ∷ [])
expected fns (program ∷ a ∷ file ∷ []) =
    if is_unsafe a
    then (
      0,
      stack_initialized
          ∷ hooks_initialized
          ∷ (map called (present (map (λ f. f.0) fns))
              ++ (ran_pe "MAIN_PE_IMAGE" file ∷ map called (present (map (λ f. f.1) fns)))),
    )
    else (1, usage ∷ [])
expected fns argv = (1, usage ∷ [])

push_back-present :
    (f : ℕ) (fns old : List ℕ) → push_back f old ++ present fns ≡ old ++ present (f ∷ fns)
push_back-present f fns old = elim (Bool-cases (f == 0)) [
  | inl t ↦ rw t refl
  | inr t ↦ rw t (append_assoc old (f ∷ []) (present fns))
]

registered_lem :
    (fns : List (ℕ × ℕ)) (m : Modules)
    → ((register_all fns m).inits ≡ m.inits ++ present (map (λ f. f.0) fns))
      × ((register_all fns m).runs ≡ m.runs ++ present (map (λ f. f.1) fns))
unfolding register_debug_module
registered_lem [] m = (sym (append-nil m.inits), sym (append-nil m.runs))
registered_lem ((init, run) ∷ fns) m =
    let (a, b) = registered_lem fns (register_debug_module init run m) in
    (
      a ∙ push_back-present init (map (λ f. f.0) fns) m.inits,
      b ∙ push_back-present run (map (λ f. f.1) fns) m.runs,
    )

if_true {ℓ} : {A : Type ℓ} (b : Bool) (x y : A) → b ≡ true → (if b then x else y) ≡ x
if_true b x y h = rw h refl

many : (p a f b : String) (argv : List String) → misused (p ∷ a ∷ f ∷ b ∷ argv) ≡ true
many p a f b argv = ground arith

-- Whatever functions the debug modules register, main runs a file exactly when it is called with
-- --unsafe and a file name: it then initialises the stack and the hooks, calls the init functions
-- that are not null in the order of their registration, loads and runs the file, calls the run
-- functions likewise, and returns 0. With one other argument it prints the warning, and otherwise
-- the usage, and returns 1 without anything else.
pub main-expected :
    (fns : List (ℕ × ℕ)) (argv : List String)
    → main (register_all fns no_modules) argv ≡ expected fns argv
unfolding main
main-expected fns [] = refl
main-expected fns (p ∷ []) = refl
main-expected fns (p ∷ a ∷ []) = elim (Bool-cases (is_unsafe a)) [
  | inl t ↦ rw t refl
  | inr t ↦ rw t refl
]
main-expected fns (p ∷ a ∷ f ∷ []) = elim (Bool-cases (is_unsafe a)) [
  | inl t ↦ rw (t, (registered_lem fns no_modules).0, (registered_lem fns no_modules).1) refl
  | inr t ↦ rw t refl
]
main-expected fns (p ∷ a ∷ f ∷ b ∷ argv) =
    if_true (misused (p ∷ a ∷ f ∷ b ∷ argv)) _ _ (many p a f b argv)
