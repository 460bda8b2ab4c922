-- ===== src/Tests/Handles.antt =====
-- The protocol database at concrete contents, with numbers for GUIDs.
use efiperun_mod.Prelude.{ℕ, zero, suc, ◌≡◌, refl, true, some, List, [], ◌∷◌, arith, nat_eq}
use efiperun_mod.Status.{success}
use efiperun_mod.Protocols.{
  scan, find_protocol, count_handles, handle_protocol, install_protocol_interface,
  locate_handle_buffer,
}
use efiperun_mod.Protocols.Multi.{MultiMap, list_map}
use efiperun_mod.Protocols.Find.{
  HasInterfaces, documented, answer, find_protocol-documented, find_protocol-null,
}
use efiperun_mod.Protocols.Services.{
  IsCounting, IsLocated, locate_handle_buffer-IsLocated, handle_protocol-install,
}

abbrev lists : MultiMap ℕ (ℕ × ℕ)
lists = list_map nat_eq

-- three interfaces under 7, one of them under the null handle, and a null one under 8
abbrev database : List (ℕ × (ℕ × ℕ))
database = (7, (5, 0x5000)) ∷ (7, (0, 0x6000)) ∷ (8, (9, 0)) ∷ (7, (6, 0x7000)) ∷ []

found_handle : (find_protocol lists 7 6 0x9000 database).0 ≡ 0x7000
unfolding find_protocol scan
found_handle = refl

found_null : (find_protocol lists 7 4 0x9000 database).0 ≡ 0x6000
unfolding find_protocol scan
found_null = refl

found_dummy : find_protocol lists 3 4 0x9000 database ≡ (0x9000, (3, (0, 0x9000)) ∷ database)
unfolding find_protocol scan
found_dummy = refl

interfaces_lem : HasInterfaces (lists.equal_range 7 database)
interfaces_lem = (omega arith, (omega arith, (omega arith, tt)))

find_protocol-documented_example :
    find_protocol lists 7 4 0x9000 database
    ≡ answer lists 7 0x9000 database (documented 4 (lists.equal_range 7 database))
find_protocol-documented_example = find_protocol-documented lists 7 4 0x9000 database interfaces_lem

find_protocol-null_example :
    find_protocol lists 8 4 0x9000 database ≡ (0x9000, (8, (0, 0x9000)) ∷ database)
find_protocol-null_example = find_protocol-null lists 8 4 0x9000 database (refl, tt) refl

counting_lem : IsCounting (0 ∷ [])
counting_lem zero h = refl
counting_lem (suc i) h = absurd (omega arith)

locate_handle_buffer-IsLocated_example :
    IsLocated
      (count_handles lists 7 database)
      (0 ∷ [])
      (locate_handle_buffer lists true true true (some 7) (0 ∷ []) database)
locate_handle_buffer-IsLocated_example =
    locate_handle_buffer-IsLocated lists 7 (0 ∷ []) database counting_lem

handle_protocol-install_example :
    let installed = install_protocol_interface lists (some 4) (some 7) true 0x8000 database in
    (installed.0 ≡ success)
    × (handle_protocol lists 4 (some 7) true 0x9000 installed.1
        ≡ (success, some 0x8000, installed.1))
    × (count_handles lists 7 installed.1 ≡ suc (count_handles lists 7 database))
handle_protocol-install_example =
    handle_protocol-install lists 7 4 0x8000 0x9000 database interfaces_lem refl (omega arith)
