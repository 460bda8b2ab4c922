-- ===== src/Setup/Published.antt =====
-- efihooks.cpp: which interfaces `efi_hooks_init` publishes.
use efiperun_mod.Prelude.{
  ℕ, ◌≡◌, ◌≢◌, ◌<◌, refl, sym, ap, ◌∙◌, Bool, true, not, ◌&&◌, ◌==◌, &&-eq-true, arith, List, [],
  ◌∷◌, ◌++◌, ◌⊎◌, inl, inr, Bool-cases, not_zero,
}
use mathlib.Core.Path.{subst}
use efiperun_mod.Guid.Defs.{Guid}
use efiperun_mod.Protocols.{scan, find_protocol, install_protocol}
use efiperun_mod.Protocols.Multi.{MultiMap, Inserted}
use efiperun_mod.Setup.{
  Table, debug_mask, smm_base, graphics_output, hii_database, acpi_support, device_path,
  loaded_image, State, perform, perform_all,
}
use efiperun_mod.Setup.Services.{runtime_actions, boot_actions, console_actions}
use efiperun_mod.Setup.Tables.{
  debug_mask_actions, smm_actions, graphics_actions, hii_actions, acpi_actions, image_actions,
  link_actions, debug_mask_guid, smm_base_guid, smm_cpu_io_guid, graphics_output_guid,
  hii_database_guid, acpi_support_guid, device_path_guid, loaded_image_guid,
}
use efiperun_mod.Setup.Init.{init_actions, efi_hooks_init}

-- the pair is in the list
abbrev pub Listed : Guid → ℕ → List (Guid × ℕ) → Type 0
Listed k v [] = ⊥
Listed k v ((j, w) ∷ l) = ((k ≡ j) × (v ≡ w)) ⊎ Listed k v l

-- the GUID is not in the list
abbrev pub IsAbsent : Guid → List (Guid × ℕ) → Type 0
IsAbsent k [] = Unit
IsAbsent k ((j, w) ∷ l) = (j ≢ k) × IsAbsent k l

-- the GUIDs differ in their first fields
apart : Guid → List (Guid × ℕ) → Bool
apart k [] = true
apart k ((j, w) ∷ l) = not (j.data1 == k.data1) && apart k l

all_apart : List (Guid × ℕ) → Bool
all_apart [] = true
all_apart ((j, w) ∷ l) = apart j l && all_apart l

differ : (j k : Guid) → not (j.data1 == k.data1) ≡ true → j ≢ k
differ j k h e = absurd (ground (arith, ap (λ x. x.data1) e))

apart-IsAbsent : (k : Guid) (l : List (Guid × ℕ)) → apart k l ≡ true → IsAbsent k l
unfolding apart
apart-IsAbsent k [] h = tt
apart-IsAbsent k ((j, w) ∷ l) h =
    let (a, b) = &&-eq-true (not (j.data1 == k.data1)) (apart k l) h in
    (differ j k a, apart-IsAbsent k l b)

absent-Listed : (j k : Guid) (v : ℕ) (l : List (Guid × ℕ)) → IsAbsent j l → Listed k v l → j ≢ k
absent-Listed j k v [] a s = elim s [ ]
absent-Listed j k v ((i, w) ∷ l) (n, a) (inl (e, f)) = λ q. n (sym e ∙ sym q)
absent-Listed j k v ((i, w) ∷ l) (n, a) (inr m) = absent-Listed j k v l a m

single {ℓ} : {A : Type ℓ} (v : A) (l : List A) → Inserted v [] l → l ≡ v ∷ []
single v l ([], after, e, f) = f ∙ ap (λ t. v ∷ t) (sym e)
single v l (x ∷ b, after, e, f) = absurd (cc)

module _ (g : MultiMap Guid (ℕ × ℕ)) where
  -- the interfaces, one after another, under the null handle
  abbrev pub emplace_all : List (Guid × ℕ) → g.Store → g.Store
  emplace_all [] m = m
  emplace_all ((j, w) ∷ l) m = emplace_all l (g.emplace j (0, w) m)

  range_absent :
      (k : Guid) (l : List (Guid × ℕ)) (m : g.Store)
      → IsAbsent k l
      → g.equal_range k (emplace_all l m) ≡ g.equal_range k m
  range_absent k [] m a = refl
  range_absent k ((j, w) ∷ l) m (n, a) =
      range_absent k l (g.emplace j (0, w) m) a ∙ g.range_other j k (0, w) m n

  range-Listed :
      (k : Guid) (v : ℕ) (l : List (Guid × ℕ)) (m : g.Store)
      → all_apart l ≡ true
      → g.equal_range k m ≡ []
      → Listed k v l
      → g.equal_range k (emplace_all l m) ≡ (0, v) ∷ []
  unfolding all_apart
  range-Listed k v [] m h e s = elim s [ ]
  range-Listed k v ((j, w) ∷ l) m h e (inl (p, q)) =
      let (a, b) = &&-eq-true (apart j l) (all_apart l) h in
      rw (p, q)
        (range_absent j l (g.emplace j (0, w) m) (apart-IsAbsent j l a)
          ∙ single (0, w) (g.equal_range j (g.emplace j (0, w) m))
              (subst (λ r. Inserted (0, w) r (g.equal_range j (g.emplace j (0, w) m)))
                (ap (λ i. g.equal_range i m) (sym p) ∙ e) (g.range_emplace j (0, w) m)))
  range-Listed k v ((j, w) ∷ l) m h e (inr s) =
      let (a, b) = &&-eq-true (apart j l) (all_apart l) h in
      range-Listed k v l (g.emplace j (0, w) m) b
        (g.range_other j k (0, w) m (absent-Listed j k v l (apart-IsAbsent j l a) s) ∙ e) s

  find_single :
      (k : Guid) (v handle new : ℕ) (m : g.Store)
      → 0 < v
      → g.equal_range k m ≡ (0, v) ∷ []
      → find_protocol g k handle new m ≡ (v, m)
  unfolding find_protocol scan
  find_single k v handle new m h e = elim (Bool-cases (0 == handle)) [
    | inl t ↦ rw (e, t) refl
    | inr t ↦ rw (e, t, not_zero v h) refl
  ]

  find_new :
      (k : Guid) (handle new : ℕ) (m : g.Store)
      → g.equal_range k m ≡ []
      → find_protocol g k handle new m ≡ (new, g.emplace k (0, new) m)
  unfolding find_protocol scan
  find_new k handle new m e = rw e refl

  module _ (place size : Table → ℕ) (dummy : ℕ) where
    abbrev pub before : List (Guid × ℕ)
    before = (debug_mask_guid, place debug_mask) ∷ (smm_base_guid, place smm_base) ∷ []

    abbrev pub after : List (Guid × ℕ)
    after =
        (graphics_output_guid, place graphics_output)
        ∷ (hii_database_guid, place hii_database)
        ∷ (acpi_support_guid, place acpi_support)
        ∷ (device_path_guid, place device_path)
        ∷ (loaded_image_guid, place loaded_image)
        ∷ []

    interfaces_lem :
        (s : State g)
        → (efi_hooks_init g place size dummy s).interfaces
          ≡ emplace_all after
              (find_protocol g smm_cpu_io_guid 0 dummy (emplace_all before s.interfaces)).1
    unfolding efi_hooks_init init_actions runtime_actions boot_actions console_actions
        debug_mask_actions smm_actions graphics_actions hii_actions acpi_actions image_actions
        link_actions perform perform_all install_protocol
    interfaces_lem s = refl

    -- the interfaces after `efi_hooks_init`: the published ones, and the dummy of the lookup
    abbrev pub published : List (Guid × ℕ)
    published = before ++ ((smm_cpu_io_guid, dummy) ∷ after)

    emplaced_lem :
        (s : State g)
        → s.interfaces ≡ g.empty
        → (efi_hooks_init g place size dummy s).interfaces ≡ emplace_all published g.empty
    emplaced_lem s e =
        interfaces_lem s
        ∙ ap (λ x. emplace_all after x.1)
            (ap (λ m. find_protocol g smm_cpu_io_guid 0 dummy (emplace_all before m)) e
              ∙ find_new smm_cpu_io_guid 0 dummy (emplace_all before g.empty) (
                  range_absent smm_cpu_io_guid before g.empty
                    (apart-IsAbsent smm_cpu_io_guid before (unfold apart in refl))
                  ∙ g.range_empty smm_cpu_io_guid))

    -- Started on an empty database, where the tables and the new DummyInterface do not stand at the
    -- address 0, efi_hooks_init leaves one in which find_protocol gives for each of the seven GUIDs
    -- published the table published, and for the GUID of EFI_SMM_CPU_IO the dummy, whatever the
    -- handle; a GUID that is none of the eight gets a new dummy.
    pub find_protocol-efi_hooks_init :
        (s : State g)
        → s.interfaces ≡ g.empty
        → (k : Guid) (handle new : ℕ)
        → let m = (efi_hooks_init g place size dummy s).interfaces in
          ((v : ℕ) → Listed k v published → 0 < v → find_protocol g k handle new m ≡ (v, m))
          × (IsAbsent k published → find_protocol g k handle new m ≡ (new, g.emplace k (0, new) m))
    find_protocol-efi_hooks_init s e k handle new =
        let eq = emplaced_lem s e in
        (
          λ v at pos. rw eq (
              find_single k v handle new (emplace_all published g.empty) pos (
                range-Listed k v published g.empty (unfold all_apart apart in refl)
                  (g.range_empty k) at)),
          λ no. rw eq (
              find_new k handle new (emplace_all published g.empty)
                (range_absent k published g.empty no ∙ g.range_empty k)),
        )
