-- ===== src/Variables/Replies.antt =====
-- stubs.cpp: what `GetVariable` answers and writes.
use efiperun_mod.Prelude.{
  ℕ, ◌≡◌, ◌≤◌, ◌<◌, refl, Bool, true, false, ltb, if◌then◌else◌, Option, none, some, List, length,
  arith, Bool-cases, inl, inr, ◌⊎◌,
}
use efiperun_mod.Status.{invalid_parameter, not_found, buffer_too_small}
use efiperun_mod.Protocols.Multi.{MultiMap}
use efiperun_mod.Variables.{
  VariableData, Variable, data_size, Reply, returned, no_return, get_variable, reply,
  get_variable_service,
}

-- What the caller may rely on: nothing is written with a status, and data that are written are all
-- the bytes of a variable found for runtime access, and fit in the buffer.
abbrev pub IsReply : (ℕ → Bool) → Bool → ℕ → Option VariableData → Reply → Type 0
IsReply is_runtime has_attributes size none r = r ≡ returned not_found
IsReply is_runtime has_attributes size (some v) (returned s) =
    ((s ≡ not_found) × (is_runtime v.attributes ≡ false))
    ⊎ ((s ≡ buffer_too_small) × (is_runtime v.attributes ≡ true) × (size < data_size v))
IsReply is_runtime has_attributes size (some v) (no_return written a) =
    (is_runtime v.attributes ≡ true)
    × (written ≡ v.contents)
    × (length written ≤ size)
    × (a ≡ (if has_attributes then some v.attributes else none))

reply-IsReply :
    {K : Type 0} (g : MultiMap K Variable) (is_runtime : ℕ → Bool) (has_attributes : Bool)
    (size : ℕ) (o : Option VariableData)
    → IsReply is_runtime has_attributes size o (reply g is_runtime has_attributes size o)
reply-IsReply g is_runtime has_attributes size none = refl
reply-IsReply g is_runtime has_attributes size (some v) =
    elim (Bool-cases (is_runtime v.attributes)) [
      | inr t ↦ rw t (inl (refl, t))
      | inl t ↦ elim (Bool-cases (ltb size (data_size v))) [
        | inl l ↦ rw (t, l) (inr (refl, t, ground arith))
        | inr l ↦ rw (t, l) (t, refl, ground arith, refl)
      ]
    ]

-- the same, with a null pointer among the arguments as an error
abbrev pub IsAnswered :
    {K : Type 0} (g : MultiMap K Variable)
    → (ℕ → Bool)
    → (Variable → List ℕ)
    → g.Store
    → Bool
    → Option (List ℕ)
    → Option K
    → Option ℕ
    → Bool
    → Reply
    → Type 0
IsAnswered g is_runtime behind m a none guid size has_data r = r ≡ returned invalid_parameter
IsAnswered g is_runtime behind m a (some name) none size has_data r = r ≡ returned invalid_parameter
IsAnswered g is_runtime behind m a (some name) (some guid) none has_data r =
    r ≡ returned invalid_parameter
IsAnswered g is_runtime behind m a (some name) (some guid) (some size) false r =
    r ≡ returned invalid_parameter
IsAnswered g is_runtime behind m a (some name) (some guid) (some size) true r =
    IsReply is_runtime a size (get_variable g behind guid name m) r

-- GetVariable answers EFI_INVALID_PARAMETER where an argument that it needs is null, EFI_NOT_FOUND
-- exactly where the variable is not found or not for runtime access, and EFI_BUFFER_TOO_SMALL where
-- it does not fit, and writes nothing then; else it writes the variable's data, all of which fit,
-- and its attributes where they are asked for, and comes to its end with no status.
pub get_variable_service-IsAnswered :
    {K : Type 0} (g : MultiMap K Variable) (is_runtime : ℕ → Bool) (behind : Variable → List ℕ)
    (m : g.Store) (a : Bool) (name : Option (List ℕ)) (guid : Option K) (size : Option ℕ)
    (has_data : Bool)
    → IsAnswered g is_runtime behind m a name guid size has_data
        (get_variable_service g is_runtime behind name guid a size has_data m)
unfolding get_variable_service
get_variable_service-IsAnswered g is_runtime behind m a none guid size has_data = refl
get_variable_service-IsAnswered g is_runtime behind m a (some name) none size has_data = refl
get_variable_service-IsAnswered g is_runtime behind m a (some name) (some guid) none has_data = refl
get_variable_service-IsAnswered g is_runtime behind m a (some name) (some guid) (some size) false =
    refl
get_variable_service-IsAnswered g is_runtime behind m a (some name) (some guid) (some size) true =
    reply-IsReply g is_runtime a size (get_variable g behind guid name m)
