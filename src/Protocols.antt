-- ===== src/Protocols.antt =====
-- efihooks.cpp: the protocol database `g_interfaces`; stubs.cpp: the services that read and fill it.
pub mod Multi
pub mod Find
pub mod Again
pub mod Services
use efiperun_mod.Prelude.{
  ℕ, zero, suc, ◌+◌, ◌-◌, Bool, true, false, ◌==◌, if◌then◌else◌, Option, none, some, List, [], ◌∷◌,
  ◌++◌, length,
}
use efiperun_mod.Status.{Status, success, invalid_parameter, not_found}
use efiperun_mod.Protocols.Multi.{MultiMap}

-- How the loop of `find_protocol` ends: at its `return`, or with `nullintf` and `firstintf`.
pub data Scan : Type 0 where
  returned : ℕ → Scan
  scanned : ℕ → ℕ → Scan

-- the loop; a handle and an interface are addresses, `NULL` is 0
unfoldable pub scan : ℕ → ℕ → ℕ → List (ℕ × ℕ) → Scan
scan handle nullintf firstintf [] = scanned nullintf firstintf
scan handle nullintf firstintf ((el_handle, el_intf) ∷ elems) =
    let rest =
      scan handle (if el_handle == 0 then el_intf else nullintf)
        (if firstintf == 0 then el_intf else firstintf) elems in
    if el_handle == handle then returned el_intf else rest

-- `while (handles.size()<n) handles.emplace_back(handles.size())`, for `k` more elements
unfoldable pub grow : ℕ → List ℕ → List ℕ
grow zero handles = handles
grow (suc k) handles = grow k (handles ++ (length handles ∷ []))

module _ {K : Type 0} (g : MultiMap K (ℕ × ℕ)) where
  -- after the loop; `dummy` is the address of the new `DummyInterface`
  abbrev pub after_scan : K → ℕ → g.Store → Scan → ℕ × g.Store
  after_scan guid dummy m (returned intf) = (intf, m)
  after_scan guid dummy m (scanned nullintf firstintf) =
      if nullintf == 0
      then (if firstintf == 0 then (dummy, g.emplace guid (0, dummy) m) else (firstintf, m))
      else (nullintf, m)

  unfoldable pub find_protocol : K → ℕ → ℕ → g.Store → ℕ × g.Store
  find_protocol guid handle dummy m =
      after_scan guid dummy m (scan handle 0 0 (g.equal_range guid m))

  unfoldable pub count_handles : K → g.Store → ℕ
  count_handles guid m = length (g.equal_range guid m)

  unfoldable pub install_protocol : K → ℕ → ℕ → g.Store → g.Store
  install_protocol guid handle intf m = g.emplace guid (handle, intf) m

  -- `HandleProtocol`: a null `Protocol` is `none`; the second result is `*Interface` where it is set
  unfoldable pub handle_protocol : ℕ → Option K → Bool → ℕ → g.Store → Status × Option ℕ × g.Store
  handle_protocol handle none has_interface dummy m = (invalid_parameter, none, m)
  handle_protocol handle (some guid) false dummy m = (invalid_parameter, none, m)
  handle_protocol handle (some guid) true dummy m =
      let found = find_protocol guid handle dummy m in (success, some found.0, found.1)

  unfoldable pub locate_protocol : Option K → Bool → ℕ → g.Store → Status × Option ℕ × g.Store
  locate_protocol protocol has_interface dummy m = handle_protocol 0 protocol has_interface dummy m

  -- `InstallProtocolInterface`: the handle is `*Handle`, or `none` where `Handle` is null
  unfoldable pub install_protocol_interface :
      Option ℕ → Option K → Bool → ℕ → g.Store → Status × g.Store
  install_protocol_interface handle protocol false intf m = (invalid_parameter, m)
  install_protocol_interface handle none true intf m = (invalid_parameter, m)
  install_protocol_interface none (some guid) true intf m = (invalid_parameter, m)
  install_protocol_interface (some handle) (some guid) true intf m =
      (success, install_protocol guid handle intf m)

  -- `LocateHandleBuffer`: whether `NoHandles` and `Buffer` are there, whether the search is
  -- `ByProtocol`, and the static vector. On success it is `*Buffer`, and the number is `*NoHandles`.
  unfoldable pub locate_handle_buffer :
      Bool → Bool → Bool → Option K → List ℕ → g.Store → Status × Option ℕ × List ℕ
  locate_handle_buffer false has_buffer by_protocol protocol handles m =
      (invalid_parameter, none, handles)
  locate_handle_buffer true false by_protocol protocol handles m =
      (invalid_parameter, none, handles)
  locate_handle_buffer true true false protocol handles m = (not_found, none, handles)
  locate_handle_buffer true true true none handles m = (invalid_parameter, none, handles)
  locate_handle_buffer true true true (some guid) handles m =
      let n = count_handles guid m in
      if n == 0
      then (not_found, none, handles)
      else (success, some n, grow (n - length handles) handles)
