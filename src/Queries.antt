-- ===== src/Queries.antt =====
-- stubs.cpp: `InstallMultipleProtocolInterfaces`, and the services that only answer: the monotonic
-- counts, `InSmm`, `GetSmstLocation`, `QueryMode`.
pub mod Installed
use efiperun_mod.Prelude.{
  ℕ, ◌/◌, ◌%◌, ◌^◌, Bool, true, false, ◌==◌, if◌then◌else◌, Option, none, some, List, [], ◌∷◌,
}
use efiperun_mod.Status.{Status, success, invalid_parameter, unsupported}
use efiperun_mod.Protocols.{install_protocol_interface}
use efiperun_mod.Protocols.Multi.{MultiMap}

-- Where a service stores a number through a pointer that may be null: the status, and the number
-- where it is stored.
abbrev pub store : Bool → ℕ → Status × Option ℕ
store false x = (invalid_parameter, none)
store true x = (success, some x)

-- `GetNextMonotonicCount`, `GetNextHighMonotonicCount`, on what `__rdtsc` gives
unfoldable pub get_next_monotonic_count : Bool → ℕ → Status × Option ℕ
get_next_monotonic_count has_count tsc = store has_count tsc

unfoldable pub get_next_high_monotonic_count : Bool → ℕ → Status × Option ℕ
get_next_high_monotonic_count has_count tsc = store has_count (tsc / 2 ^ 32 % 2 ^ 32)

-- `InSmm`: FALSE
unfoldable pub in_smm : Bool → Status × Option ℕ
in_smm has_in_smm = store has_in_smm 0

-- `GetSmstLocation`, where `smst` is what `get_smst` returns
unfoldable pub get_smst_location : Bool → ℕ → Status × Option ℕ
get_smst_location has_smst smst = store has_smst smst

abbrev pub where_wanted : Bool → ℕ → Option ℕ
where_wanted wanted x = if wanted then some x else none

-- `QueryMode`, with `*Columns` and `*Rows` where they are set
unfoldable pub query_mode : ℕ → Bool → Bool → Status × Option ℕ × Option ℕ
query_mode mode has_columns has_rows =
    if mode == 0
    then (success, where_wanted has_columns 80, where_wanted has_rows 25)
    else (unsupported, none, none)

module _ {K : Type 0} (g : MultiMap K (ℕ × ℕ)) where
  -- the loop of `InstallMultipleProtocolInterfaces`, over the arguments before the null protocol
  unfoldable pub install_each : Option ℕ → List (K × ℕ) → g.Store → g.Store
  install_each handle [] m = m
  install_each handle ((guid, intf) ∷ args) m =
      install_each handle args (install_protocol_interface g handle (some guid) true intf m).1

  unfoldable pub install_multiple_protocol_interfaces :
      Option ℕ → List (K × ℕ) → g.Store → Status × g.Store
  install_multiple_protocol_interfaces none args m = (invalid_parameter, m)
  install_multiple_protocol_interfaces (some handle) args m =
      (success, install_each (some handle) args m)
