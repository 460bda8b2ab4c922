-- ===== src/Tests/Stores.antt =====
-- Variables, the console, the ACPI tables, the protocols of the start and the services that only
-- answer, at concrete inputs.

use efiperun_mod.Prelude.{
  ℕ, ◌+◌, ◌≡◌, ◌≢◌, ◌<◌, ◌%◌, ◌/◌, ◌↔◌, ◌&&◌, inl, inr, Bool-cases, ==_iff, &&-eq-true, refl, ap,
  if◌then◌else◌, leb, ◌==◌, Bool, true, false, none, some, List, [], ◌∷◌, ◌++◌, length, arith,
  nat_eq,
}
use efiperun_mod.Protocols.{find_protocol}
use efiperun_mod.Protocols.Multi.{MultiMap, list_map}
use efiperun_mod.Variables.{Variable, get_variable, set_variable, get_variable_service}
use efiperun_mod.Variables.Found.{read_name, stored, get_variable-set_variable}
use efiperun_mod.Variables.Replies.{IsAnswered, get_variable_service-IsAnswered}
use efiperun_mod.Console.{encode, char16_print}
use efiperun_mod.Console.Lines.{kept, first_line, other_lines, prefixed, char16_print-prefixed}
use efiperun_mod.Directory.Walk.{paths}
use efiperun_mod.Acpi.{File, load_acpi_tables}
use efiperun_mod.Acpi.Tables.{tables_of, load_acpi_tables-tables_of}
use efiperun_mod.Queries.{install_multiple_protocol_interfaces}
use efiperun_mod.Queries.Installed.{IsInstalled, install_multiple_protocol_interfaces-IsInstalled}
use efiperun_mod.Guid.Defs.{Guid}
use efiperun_mod.Setup.{Table, State}
use efiperun_mod.Setup.Init.{efi_hooks_init}
use efiperun_mod.Setup.Tables.{smm_base_guid}
use efiperun_mod.Setup.Published.{Listed, IsAbsent, published, find_protocol-efi_hooks_init}

abbrev variables : MultiMap ℕ Variable
variables = list_map nat_eq

-- the memory behind a name holds the character 9 and then a zero
abbrev behind : Variable → List ℕ
behind v = 9 ∷ []

get_variable-set_variable_example :
    let m = set_variable variables 7 (b'a' ∷ b'b' ∷ []) (1 ∷ 2 ∷ []) 4 [] in
    let found = get_variable variables behind 7 (b'a' ∷ b'b' ∷ []) m in
    let v = stored variables behind 7 (b'a' ∷ b'b' ∷ []) (b'a' ∷ b'b' ∷ []) (1 ∷ 2 ∷ []) 4 [] in
    (read_name behind v ≡ b'a' ∷ b'b' ∷ [] → found ≡ some v.1)
    × (read_name behind v ≢ b'a' ∷ b'b' ∷ [] → found ≡ none)
get_variable-set_variable_example =
    get_variable-set_variable variables behind 7 (b'a' ∷ b'b' ∷ []) (b'a' ∷ b'b' ∷ []) (1 ∷ 2 ∷ [])
      4 [] (omega arith) (omega arith) (omega arith) (unfold get_variable in refl)

abbrev is_runtime : ℕ → Bool
is_runtime attributes = attributes / 4 % 2 == 1

get_variable_service-IsAnswered_example :
    IsAnswered variables is_runtime behind [] true (some (b'a' ∷ [])) (some 7) (some 16) true (
      get_variable_service variables is_runtime behind
        (some (b'a' ∷ []))
        (some 7)
        true
        (some 16)
        true
        [])
get_variable_service-IsAnswered_example =
    get_variable_service-IsAnswered variables is_runtime behind [] true (some (b'a' ∷ [])) (some 7)
      (some 16) true

-- a character is its own byte
abbrev one_byte : ℕ → ℕ → List ℕ × ℕ
one_byte s c = (c ∷ [], s)

char16_print-prefixed_example :
    let text = kept (encode one_byte 0 (b'o' ∷ 10 ∷ 13 ∷ b'k' ∷ [])) in
    char16_print one_byte 6 0 (b'>' ∷ []) (b'o' ∷ 10 ∷ 13 ∷ b'k' ∷ []) ≡ (
      if leb 6 16
      then (prefixed (b'>' ∷ []) (first_line text ∷ other_lines text), true)
      else (b'>' ∷ [], false))
char16_print-prefixed_example =
    char16_print-prefixed one_byte 6 0 (b'>' ∷ []) (b'o' ∷ 10 ∷ 13 ∷ b'k' ∷ [])

two_lines :
    char16_print one_byte 6 0 (b'>' ∷ []) (b'o' ∷ 10 ∷ 13 ∷ b'k' ∷ [])
    ≡ (b'>' ∷ b'o' ∷ 10 ∷ b'>' ∷ b'k' ∷ 10 ∷ [], true)
two_lines = char16_print-prefixed one_byte 6 0 (b'>' ∷ []) (b'o' ∷ 10 ∷ 13 ∷ b'k' ∷ [])

-- files of 36 bytes, the tables by the length of the path
abbrev files : List ℕ → File
files path = record { opens = true; st_size = some 36; delivers = 36; table = 0x1000 + length path }

abbrev dumped : List (List ℕ)
dumped = (b'.' ∷ []) ∷ (b'A' ∷ []) ∷ (b'.' ∷ b'.' ∷ []) ∷ (b'B' ∷ b'B' ∷ []) ∷ []

load_acpi_tables-tables_of_example :
    load_acpi_tables files (b'd' ∷ []) dumped (0x900 ∷ [])
    ≡ some ((0x900 ∷ []) ++ tables_of files (paths (b'd' ∷ []) dumped))
load_acpi_tables-tables_of_example =
    load_acpi_tables-tables_of files (b'd' ∷ []) dumped (0x900 ∷ [])
      (omega arith, (omega arith, tt))

abbrev lists : MultiMap ℕ (ℕ × ℕ)
lists = list_map nat_eq

nat_dec : (j k : ℕ) → Dec (j ≡ k)
nat_dec j k = elim (Bool-cases (j == k)) [
  | inl t ↦ yes ((==_iff j k).0 t)
  | inr t ↦ no (λ e. absurd (ground (arith, e)))
]

install_multiple_protocol_interfaces-IsInstalled_example :
    IsInstalled lists nat_dec
      (some 3)
      ((7, 0x5000) ∷ (8, 0x6000) ∷ [])
      []
      (install_multiple_protocol_interfaces lists (some 3) ((7, 0x5000) ∷ (8, 0x6000) ∷ []) [])
install_multiple_protocol_interfaces-IsInstalled_example =
    install_multiple_protocol_interfaces-IsInstalled lists nat_dec (some 3)
      ((7, 0x5000) ∷ (8, 0x6000) ∷ []) []

abbrev guid_same : Guid → Guid → Bool
guid_same a b =
    a.data1 == b.data1
    && (a.data2 == b.data2
        && (a.data3 == b.data3
            && (a.b0 == b.b0
                && (a.b1 == b.b1
                    && (a.b2 == b.b2
                        && (a.b3 == b.b3
                            && (a.b4 == b.b4
                                && (a.b5 == b.b5 && (a.b6 == b.b6 && (a.b7 == b.b7))))))))))

guid_iff : (a b : Guid) → (guid_same a b ≡ true) ↔ (a ≡ b)
guid_iff a b = (
  λ h.
      let (e0, h1) =
        &&-eq-true (a.data1 == b.data1)
          (a.data2 == b.data2
            && (a.data3 == b.data3
                && (a.b0 == b.b0
                    && (a.b1 == b.b1
                        && (a.b2 == b.b2
                            && (a.b3 == b.b3
                                && (a.b4 == b.b4
                                    && (a.b5 == b.b5 && (a.b6 == b.b6 && (a.b7 == b.b7))))))))))
          h in
      let (e1, h2) =
        &&-eq-true (a.data2 == b.data2)
          (a.data3 == b.data3
            && (a.b0 == b.b0
                && (a.b1 == b.b1
                    && (a.b2 == b.b2
                        && (a.b3 == b.b3
                            && (a.b4 == b.b4
                                && (a.b5 == b.b5 && (a.b6 == b.b6 && (a.b7 == b.b7)))))))))
          h1 in
      let (e2, h3) =
        &&-eq-true (a.data3 == b.data3)
          (a.b0 == b.b0
            && (a.b1 == b.b1
                && (a.b2 == b.b2
                    && (a.b3 == b.b3
                        && (a.b4 == b.b4 && (a.b5 == b.b5 && (a.b6 == b.b6 && (a.b7 == b.b7))))))))
          h2 in
      let (e3, h4) =
        &&-eq-true (a.b0 == b.b0)
          (a.b1 == b.b1
            && (a.b2 == b.b2
                && (a.b3 == b.b3
                    && (a.b4 == b.b4 && (a.b5 == b.b5 && (a.b6 == b.b6 && (a.b7 == b.b7)))))))
          h3 in
      let (e4, h5) =
        &&-eq-true (a.b1 == b.b1)
          (a.b2 == b.b2
            && (a.b3 == b.b3
                && (a.b4 == b.b4 && (a.b5 == b.b5 && (a.b6 == b.b6 && (a.b7 == b.b7))))))
          h4 in
      let (e5, h6) =
        &&-eq-true (a.b2 == b.b2)
          (a.b3 == b.b3 && (a.b4 == b.b4 && (a.b5 == b.b5 && (a.b6 == b.b6 && (a.b7 == b.b7)))))
          h5 in
      let (e6, h7) =
        &&-eq-true (a.b3 == b.b3)
          (a.b4 == b.b4 && (a.b5 == b.b5 && (a.b6 == b.b6 && (a.b7 == b.b7)))) h6 in
      let (e7, h8) =
        &&-eq-true (a.b4 == b.b4) (a.b5 == b.b5 && (a.b6 == b.b6 && (a.b7 == b.b7))) h7 in
      let (e8, h9) = &&-eq-true (a.b5 == b.b5) (a.b6 == b.b6 && (a.b7 == b.b7)) h8 in
      let (e9, h10) = &&-eq-true (a.b6 == b.b6) (a.b7 == b.b7) h9 in
      cc (
        (==_iff a.data1 b.data1).0 e0,
        (==_iff a.data2 b.data2).0 e1,
        (==_iff a.data3 b.data3).0 e2,
        (==_iff a.b0 b.b0).0 e3,
        (==_iff a.b1 b.b1).0 e4,
        (==_iff a.b2 b.b2).0 e5,
        (==_iff a.b3 b.b3).0 e6,
        (==_iff a.b4 b.b4).0 e7,
        (==_iff a.b5 b.b5).0 e8,
        (==_iff a.b6 b.b6).0 e9,
        (==_iff a.b7 b.b7).0 h10,
      ),
  λ e. rw e (ground arith),
)

abbrev guid_map : MultiMap Guid (ℕ × ℕ)
guid_map = list_map (record { equal = guid_same; equal_iff = guid_iff })

abbrev initial : State guid_map
initial = record { fields = []; interfaces = []; blocks = [] }

-- the tables, at one address
abbrev at_page : Table → ℕ
at_page t = 0x600000

abbrev of_bytes : Table → ℕ
of_bytes t = 64

find_protocol-efi_hooks_init_example :
    let m = (efi_hooks_init guid_map at_page of_bytes 0x700000 initial).interfaces in
    ((v : ℕ)
      → Listed smm_base_guid v (published guid_map at_page of_bytes 0x700000)
      → 0 < v
      → find_protocol guid_map smm_base_guid 5 0x800000 m ≡ (v, m))
    × (IsAbsent smm_base_guid (published guid_map at_page of_bytes 0x700000)
        → find_protocol guid_map smm_base_guid 5 0x800000 m
          ≡ (0x800000, guid_map.emplace smm_base_guid (0, 0x800000) m))
find_protocol-efi_hooks_init_example =
    find_protocol-efi_hooks_init guid_map at_page of_bytes 0x700000 initial refl smm_base_guid 5
      0x800000

smm_base_found :
    (find_protocol guid_map smm_base_guid 5 0x800000
      (efi_hooks_init guid_map at_page of_bytes 0x700000 initial).interfaces).0
    ≡ 0x600000
smm_base_found =
    ap (λ x. x.0)
      ((find_protocol-efi_hooks_init guid_map at_page of_bytes 0x700000 initial refl smm_base_guid 5
          0x800000).0
        0x600000 (inr (inl (refl, refl))) (omega arith))
