-- ===== src/Variables.antt =====
-- efihooks.cpp: the variable store `g_variables`; stubs.cpp: `GetVariable` and `SetVariable`.
pub mod Found
pub mod Replies
use efiperun_mod.Prelude.{
  ℕ, zero, suc, ◌+◌, ◌-◌, ◌*◌, ◌/◌, ◌%◌, ◌^◌, Bool, true, false, ◌&&◌, ltb, ◌==◌, if◌then◌else◌,
  Option, none, some, List, [], ◌∷◌, ◌++◌, length,
}
use efiperun_mod.Prelude.Text.{take}
use efiperun_mod.Status.{Status, success, invalid_parameter, not_found, buffer_too_small}
use efiperun_mod.Protocols.Multi.{MultiMap}

-- `variable_data`; the data are the bytes that `data` points to
pub record VariableData : Type 0 where
  pub contents : List ℕ
  pub attributes : ℕ

abbrev pub data_size : VariableData → ℕ
data_size v = length v.contents

-- an element of `g_variables`: the characters in the allocation of the name, and the data
abbrev pub Variable : Type 0
Variable = List ℕ × VariableData

-- `memcmp(a, b, n*sizeof(char16_t))==0`
abbrev pub same_chars : ℕ → List ℕ → List ℕ → Bool
same_chars zero a b = true
same_chars (suc n) (x ∷ a) (y ∷ b) = x == y && same_chars n a b
same_chars (suc n) a b = false

-- `char_traits<char16_t>::length` as an `unsigned int`, of a string without its terminator
abbrev pub char_length : List ℕ → ℕ
char_length s = length s % 2 ^ 32

-- The test of the loop. A stored name has no terminator: it is measured and compared together with
-- what stands behind its allocation, up to the next zero.
abbrev pub is_name : List ℕ → List ℕ → Bool
is_name el_name name =
    char_length el_name == char_length name && same_chars (char_length name) el_name name

abbrev pub find_name : (Variable → List ℕ) → List ℕ → List Variable → Option VariableData
find_name behind name [] = none
find_name behind name (v ∷ vs) =
    let rest = find_name behind name vs in if is_name (v.0 ++ behind v) name then some v.1 else rest

-- what a call of `GetVariable` comes to: a status, or the end of the function with no `return`
-- after the data, and the attributes where they are asked for, have been written
pub data Reply : Type 0 where
  returned : Status → Reply
  no_return : List ℕ → Option ℕ → Reply

module _ {K : Type 0} (g : MultiMap K Variable) where
  -- `behind` is what the memory holds behind the name of each element
  unfoldable pub get_variable : (Variable → List ℕ) → K → List ℕ → g.Store → Option VariableData
  get_variable behind guid name m = find_name behind name (g.equal_range guid m)

  -- the name's bytes are counted by an `unsigned int`; its terminator is not copied
  unfoldable pub set_variable : K → List ℕ → List ℕ → ℕ → g.Store → g.Store
  set_variable guid name contents attributes m =
      let var_name = take (length name * 2 % 2 ^ 32 / 2) name in
      g.emplace guid (var_name, record { contents = contents; attributes = attributes }) m

  -- `GetVariable` with what `get_variable` has found; `is_runtime` tests the attributes for
  -- `EFI_VARIABLE_RUNTIME_ACCESS`, `size` is `*DataSize`
  abbrev pub reply : (ℕ → Bool) → Bool → ℕ → Option VariableData → Reply
  reply is_runtime has_attributes size none = returned not_found
  reply is_runtime has_attributes size (some v) =
      if is_runtime v.attributes
      then (if ltb size (data_size v)
          then returned buffer_too_small
          else no_return v.contents (if has_attributes then some v.attributes else none))
      else returned not_found

  -- `GetVariable`; a null pointer is `none` or `false`
  unfoldable pub get_variable_service :
      (ℕ → Bool)
      → (Variable → List ℕ)
      → Option (List ℕ)
      → Option K
      → Bool
      → Option ℕ
      → Bool
      → g.Store
      → Reply
  get_variable_service is_runtime behind (some name) (some guid) has_attributes (some size) true m =
      reply is_runtime has_attributes size (get_variable behind guid name m)
  get_variable_service is_runtime behind name guid has_attributes size has_data m =
      returned invalid_parameter

  -- `SetVariable` ignores the call
  unfoldable pub set_variable_service : Bool → Bool → Bool → g.Store → Status × g.Store
  set_variable_service has_name has_guid has_data m =
      if has_name && has_guid && has_data then (not_found, m) else (invalid_parameter, m)
