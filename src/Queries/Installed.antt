-- ===== src/Queries/Installed.antt =====
-- stubs.cpp: what `InstallMultipleProtocolInterfaces` leaves in the database.
use mathlib.Core.List.{Memᴰ}
use mathlib.Core.Path.{subst}
use efiperun_mod.Prelude.{ℕ, ◌≡◌, refl, sym, Option, none, some, List, [], ◌∷◌, ◌++◌}
use efiperun_mod.Status.{Status, success, invalid_parameter}
use efiperun_mod.Protocols.{install_protocol_interface, install_protocol}
use efiperun_mod.Protocols.Multi.{MultiMap, Inserted}
use efiperun_mod.Queries.{install_each, install_multiple_protocol_interfaces}

module _ {A : Type 0} where
  mem-insert : (v : A) (before after : List A) → Memᴰ v (before ++ (v ∷ after))
  mem-insert v [] after = Memᴰ.head refl
  mem-insert v (x ∷ before) after = Memᴰ.tail (mem-insert v before after)

  mem-wider :
      (a v : A) (before after : List A) → Memᴰ a (before ++ after) → Memᴰ a (before ++ (v ∷ after))
  mem-wider a v [] after m = Memᴰ.tail m
  mem-wider a v (x ∷ before) after (Memᴰ.head e) = Memᴰ.head e
  mem-wider a v (x ∷ before) after (Memᴰ.tail m) = Memᴰ.tail (mem-wider a v before after m)

  inserted-mem : (v : A) (l l' : List A) → Inserted v l l' → Memᴰ v l'
  inserted-mem v l l' (before, after, e, f) =
      subst (λ t. Memᴰ v t) (sym f) (mem-insert v before after)

  inserted-wider : (a v : A) (l l' : List A) → Inserted v l l' → Memᴰ a l → Memᴰ a l'
  inserted-wider a v l l' (before, after, e, f) m =
      subst (λ t. Memᴰ a t) (sym f) (mem-wider a v before after (subst (λ t. Memᴰ a t) e m))

module _ {K : Type 0} (g : MultiMap K (ℕ × ℕ)) where
  -- Every interface of the arguments is under its protocol, with the handle.
  abbrev pub AreInstalled : ℕ → List (K × ℕ) → g.Store → Type 0
  AreInstalled handle [] m = Unit
  AreInstalled handle ((guid, intf) ∷ args) m =
      Memᴰ (handle, intf) (g.equal_range guid m) × AreInstalled handle args m

  module _ (eqK : (j k : K) → Dec (j ≡ k)) where
    keeps_lem :
        (handle : ℕ) (k guid : K) (intf : ℕ) (m : g.Store) (a : ℕ × ℕ)
        → Memᴰ a (g.equal_range k m)
        → Memᴰ a (g.equal_range k (g.emplace guid (handle, intf) m))
    keeps_lem handle k guid intf m a x = elim (eqK guid k) [
      | yes e ↦
          subst (λ i. Memᴰ a (g.equal_range i (g.emplace guid (handle, intf) m))) e
            (inserted-wider a (handle, intf) (g.equal_range guid m)
              (g.equal_range guid (g.emplace guid (handle, intf) m))
              (g.range_emplace guid (handle, intf) m)
              (subst (λ i. Memᴰ a (g.equal_range i m)) (sym e) x))
      | no n ↦ subst (λ t. Memᴰ a t) (sym (g.range_other guid k (handle, intf) m n)) x
    ]

    each_keeps :
        (handle : ℕ) (args : List (K × ℕ)) (m : g.Store) (k : K) (a : ℕ × ℕ)
        → Memᴰ a (g.equal_range k m)
        → Memᴰ a (g.equal_range k (install_each g (some handle) args m))
    unfolding install_each install_protocol_interface install_protocol
    each_keeps handle [] m k a x = x
    each_keeps handle ((guid, intf) ∷ args) m k a x =
        each_keeps handle args (g.emplace guid (handle, intf) m) k a
          (keeps_lem handle k guid intf m a x)

    each_installs :
        (handle : ℕ) (args : List (K × ℕ)) (m : g.Store)
        → AreInstalled handle args (install_each g (some handle) args m)
    unfolding install_each install_protocol_interface install_protocol
    each_installs handle [] m = tt
    each_installs handle ((guid, intf) ∷ args) m =
        let m' = g.emplace guid (handle, intf) m in
        (
          each_keeps handle args m' guid (handle, intf)
              (inserted-mem (handle, intf) (g.equal_range guid m) (g.equal_range guid m')
                (g.range_emplace guid (handle, intf) m)),
          each_installs handle args m',
        )

    -- What InstallMultipleProtocolInterfaces promises of its answer: an error and nothing changed
    -- without a handle, else success, every interface of the arguments under its protocol, and what
    -- was there still there.
    abbrev pub IsInstalled : Option ℕ → List (K × ℕ) → g.Store → Status × g.Store → Type 0
    IsInstalled none args m r = r ≡ (invalid_parameter, m)
    IsInstalled (some handle) args m r =
        (r.0 ≡ success)
        × AreInstalled handle args r.1
        × ((k : K) (a : ℕ × ℕ) → Memᴰ a (g.equal_range k m) → Memᴰ a (g.equal_range k r.1))

    -- Without a handle InstallMultipleProtocolInterfaces returns an error and changes nothing; with
    -- one it succeeds, every interface of the arguments is then under its protocol with the handle,
    -- and every entry that was there still is.
    pub install_multiple_protocol_interfaces-IsInstalled :
        (handle : Option ℕ) (args : List (K × ℕ)) (m : g.Store)
        → IsInstalled handle args m (install_multiple_protocol_interfaces g handle args m)
    unfolding install_multiple_protocol_interfaces
    install_multiple_protocol_interfaces-IsInstalled none args m = refl
    install_multiple_protocol_interfaces-IsInstalled (some handle) args m =
        (refl, each_installs handle args m, λ k a x. each_keeps handle args m k a x)
