-- ===== src/Protocols/Services.antt =====
-- stubs.cpp: the protocol services over the database.
use efiperun_mod.Prelude.{
  ℕ, zero, suc, ◌+◌, ◌-◌, ◌<◌, ◌≤◌, ◌≡◌, refl, ap, ◌∙◌, true, false, ◌==◌, if◌then◌else◌, Option,
  none, some, List, [], ◌∷◌, ◌++◌, length, get_elem?, get_elem?-append_left, get_elem?-length,
  length-snoc, arith, Bool-cases, inl, inr, ==_iff, not_zero,
}
use efiperun_mod.Status.{Status, success, not_found}
use efiperun_mod.Protocols.{
  count_handles, handle_protocol, install_protocol_interface, grow, locate_handle_buffer,
}
use efiperun_mod.Protocols.Multi.{MultiMap}
use efiperun_mod.Protocols.Find.{HasInterfaces, has_handle}
use efiperun_mod.Protocols.Again.{find_protocol-install_protocol}

-- the elements are their own indices
abbrev pub IsCounting : List ℕ → Type 0
IsCounting handles = (i : ℕ) → i < length handles → get_elem? handles i ≡ some i

last_lem :
    (handles : List ℕ) (i : ℕ)
    → i < length (handles ++ (length handles ∷ []))
    → i == length handles ≡ false
    → i < length handles
last_lem handles i h t = ground (arith, length-snoc handles (length handles))

IsCounting-append :
    (handles : List ℕ) → IsCounting handles → IsCounting (handles ++ (length handles ∷ []))
IsCounting-append handles c i h = elim (Bool-cases (i == length handles)) [
  | inl t ↦ rw ((==_iff i (length handles)).0 t) (get_elem?-length handles (length handles))
  | inr t ↦
      get_elem?-append_left handles (length handles ∷ []) i (last_lem handles i h t)
      ∙ c i (last_lem handles i h t)
]

grow-IsCounting :
    (k : ℕ) (handles : List ℕ)
    → IsCounting handles
    → (length (grow k handles) ≡ k + length handles) × IsCounting (grow k handles)
unfolding grow
grow-IsCounting zero handles c = (omega arith, c)
grow-IsCounting (suc k) handles c =
    let rest = grow-IsCounting k (handles ++ (length handles ∷ [])) (IsCounting-append handles c) in
    (rest.0 ∙ omega (arith, length-snoc handles (length handles)), rest.1)

-- what `LocateHandleBuffer` leaves for `n` entries under the protocol
abbrev pub IsLocated : ℕ → List ℕ → Status × Option ℕ × List ℕ → Type 0
IsLocated zero handles r = r ≡ (not_found, none, handles)
IsLocated (suc k) handles r =
    (r.0 ≡ success) × (r.1 ≡ some (suc k)) × (suc k ≤ length r.2) × IsCounting r.2

located_lem :
    (n : ℕ) (handles : List ℕ)
    → IsCounting handles
    → IsLocated n handles (
        if n == 0
        then (not_found, none, handles)
        else (success, some n, grow (n - length handles) handles))
located_lem zero handles c = refl
located_lem (suc k) handles c =
    let grown = grow-IsCounting (suc k - length handles) handles c in
    rw (not_zero (suc k) (omega arith)) (refl, refl, omega (arith, grown.0), grown.1)

module _ {K : Type 0} (g : MultiMap K (ℕ × ℕ)) where
  -- With all arguments given and the static vector counting from 0, LocateHandleBuffer returns
  -- EFI_NOT_FOUND where the GUID has no entry, and else the number of entries with a vector of
  -- at least that many handles that counts from 0 again.
  pub locate_handle_buffer-IsLocated :
      (guid : K) (handles : List ℕ) (m : g.Store)
      → IsCounting handles
      → IsLocated
          (count_handles g guid m)
          handles
          (locate_handle_buffer g true true true (some guid) handles m)
  unfolding locate_handle_buffer
  locate_handle_buffer-IsLocated guid handles m c = located_lem (count_handles g guid m) handles c

  -- After InstallProtocolInterface of a non-NULL interface under a handle that had none for the
  -- GUID, where no interface under the GUID is NULL, HandleProtocol finds that interface under
  -- the handle, and there is one entry more.
  pub handle_protocol-install :
      (guid : K) (handle intf dummy : ℕ) (m : g.Store)
      → HasInterfaces (g.equal_range guid m)
      → has_handle handle (g.equal_range guid m) ≡ false
      → 0 < intf
      → let installed = install_protocol_interface g (some handle) (some guid) true intf m in
        (installed.0 ≡ success)
        × (handle_protocol g handle (some guid) true dummy installed.1
            ≡ (success, some intf, installed.1))
        × (count_handles g guid installed.1 ≡ suc (count_handles g guid m))
  unfolding install_protocol_interface handle_protocol
  handle_protocol-install guid handle intf dummy m u n h =
      let found = find_protocol-install_protocol g guid handle intf dummy m u n h in
      (refl, ap (λ x. (success, some x.0, x.1)) found.0, found.1)
