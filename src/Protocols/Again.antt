-- ===== src/Protocols/Again.antt =====
-- efihooks.cpp: one call of the protocol database after another.
use efiperun_mod.Prelude.{
  ℕ, suc, ◌<◌, ◌≡◌, refl, sym, ap, ◌∙◌, true, false, ◌==◌, some, List, [], ◌∷◌, ◌++◌, length, arith,
  Bool-cases, inl, inr, length-append,
}
use mathlib.Core.Bool.{true≢false}
use efiperun_mod.Protocols.{find_protocol, install_protocol, count_handles}
use efiperun_mod.Protocols.Multi.{MultiMap, Inserted}
use efiperun_mod.Protocols.Find.{
  HasInterfaces, has_handle, first_of, documented, answer, find_protocol-documented,
}

documented-some :
    (handle : ℕ) (l : List (ℕ × ℕ))
    → has_handle handle l ≡ true
    → documented handle l ≡ some (first_of handle l)
documented-some handle [] h = absurd (true≢false (sym h))
documented-some handle (e ∷ l) h = rw h refl

same_handle : (handle : ℕ) → (handle == handle) ≡ true
same_handle handle = ground arith

has_handle-inserted :
    (handle i : ℕ) (pre post : List (ℕ × ℕ))
    → has_handle handle (pre ++ ((handle, i) ∷ post)) ≡ true
has_handle-inserted handle i [] post = rw (same_handle handle) refl
has_handle-inserted handle i ((h, j) ∷ pre) post = elim (Bool-cases (h == handle)) [
  | inl t ↦ rw t refl
  | inr t ↦ rw t (has_handle-inserted handle i pre post)
]

first_of-inserted :
    (handle i : ℕ) (pre post : List (ℕ × ℕ))
    → has_handle handle (pre ++ post) ≡ false
    → first_of handle (pre ++ ((handle, i) ∷ post)) ≡ i
first_of-inserted handle i [] post e = rw (same_handle handle) refl
first_of-inserted handle i ((h, j) ∷ pre) post e = elim (Bool-cases (h == handle)) [
  | inl t ↦ absurd (true≢false (rw t at e))
  | inr t ↦ rw t (first_of-inserted handle i pre post (rw t at e))
]

HasInterfaces-inserted :
    (handle i : ℕ) (pre post : List (ℕ × ℕ))
    → 0 < i
    → HasInterfaces (pre ++ post)
    → HasInterfaces (pre ++ ((handle, i) ∷ post))
HasInterfaces-inserted handle i [] post h u = (h, u)
HasInterfaces-inserted handle i (e ∷ pre) post h (p, u) =
    (p, HasInterfaces-inserted handle i pre post h u)

documented-Inserted :
    (handle i : ℕ) (l l' : List (ℕ × ℕ))
    → Inserted (handle, i) l l'
    → has_handle handle l ≡ false
    → documented handle l' ≡ some i
documented-Inserted handle i l l' (pre, post, e, e') n = rw e' (
    documented-some handle (pre ++ ((handle, i) ∷ post)) (has_handle-inserted handle i pre post)
    ∙ ap some (first_of-inserted handle i pre post (rw e at n)))

HasInterfaces-Inserted :
    (handle i : ℕ) (l l' : List (ℕ × ℕ))
    → Inserted (handle, i) l l'
    → 0 < i
    → HasInterfaces l
    → HasInterfaces l'
HasInterfaces-Inserted handle i l l' (pre, post, e, e') h u =
    rw e' (HasInterfaces-inserted handle i pre post h (rw e at u))

length-Inserted {ℓ} :
    {V : Type ℓ} (v : V) (l l' : List V) → Inserted v l l' → length l' ≡ suc (length l)
length-Inserted v l l' (pre, post, e, e') =
    rw (e, e', length-append pre post, length-append pre (v ∷ post)) (omega arith)

-- a lone entry under the null handle is found under every handle
documented-single : (handle i : ℕ) → documented handle ((0, i) ∷ []) ≡ some i
documented-single handle i = elim (Bool-cases (0 == handle)) [
  | inl t ↦ rw t refl
  | inr t ↦ rw t refl
]

Inserted-nil {ℓ} : {V : Type ℓ} (v : V) (l : List V) → Inserted v [] l → l ≡ v ∷ []
Inserted-nil v l ([], [], e, e') = e'
Inserted-nil v l ([], x ∷ post, e, e') = absurd (cc)
Inserted-nil v l (x ∷ pre, post, e, e') = absurd (cc)

module _ {K : Type 0} (g : MultiMap K (ℕ × ℕ)) where
  pub find_protocol-install_protocol :
      (guid : K) (handle intf dummy : ℕ) (m : g.Store)
      → HasInterfaces (g.equal_range guid m)
      → has_handle handle (g.equal_range guid m) ≡ false
      → 0 < intf
      → (find_protocol g guid handle dummy (install_protocol g guid handle intf m)
          ≡ (intf, install_protocol g guid handle intf m))
        × (count_handles g guid (install_protocol g guid handle intf m)
            ≡ suc (count_handles g guid m))
  unfolding install_protocol count_handles
  find_protocol-install_protocol guid handle intf dummy m u n h =
      let put : Inserted (handle, intf) (g.equal_range guid m)
          (g.equal_range guid (g.emplace guid (handle, intf) m)) =
        g.range_emplace guid (handle, intf) m in
      (
        find_protocol-documented g guid handle dummy (g.emplace guid (handle, intf) m)
              (HasInterfaces-Inserted handle intf _ _ put h u)
            ∙ ap (answer g guid dummy (g.emplace guid (handle, intf) m))
                (documented-Inserted handle intf _ _ put n),
        length-Inserted (handle, intf) _ _ put,
      )

  again_lem :
      (guid : K) (handle dummy dummy' : ℕ) (m : g.Store) (l : List (ℕ × ℕ))
      → l ≡ g.equal_range guid m
      → HasInterfaces l
      → 0 < dummy
      → let found = answer g guid dummy m (documented handle l) in
        find_protocol g guid handle dummy' found.1 ≡ found
  again_lem guid handle dummy dummy' m (e ∷ l) at u h =
      find_protocol-documented g guid handle dummy' m (rw (← at) u)
      ∙ ap (λ x. answer g guid dummy' m (documented handle x)) (sym at)
  again_lem guid handle dummy dummy' m [] at u h =
      let one : g.equal_range guid (g.emplace guid (0, dummy) m) ≡ (0, dummy) ∷ [] =
        Inserted-nil (0, dummy) _ (rw (← at) at (g.range_emplace guid (0, dummy) m)) in
      find_protocol-documented g guid handle dummy' (g.emplace guid (0, dummy) m) (rw one (h, tt))
      ∙ ap (answer g guid dummy' (g.emplace guid (0, dummy) m))
          (ap (documented handle) one ∙ documented-single handle dummy)

  -- Where no interface under the GUID is NULL and the address of a dummy is not, asking again
  -- for the same GUID and handle returns the same interface and changes nothing, a dummy made
  -- the first time included.
  pub find_protocol-again :
      (guid : K) (handle dummy dummy' : ℕ) (m : g.Store)
      → HasInterfaces (g.equal_range guid m)
      → 0 < dummy
      → let found = find_protocol g guid handle dummy m in
        find_protocol g guid handle dummy' found.1 ≡ found
  find_protocol-again guid handle dummy dummy' m u h =
      rw (find_protocol-documented g guid handle dummy m u)
        (again_lem guid handle dummy dummy' m (g.equal_range guid m) refl u h)
