-- ===== src/Acpi/Tables.antt =====
-- stubs.cpp, debugmodule_example.cpp: the ACPI tables that a module sees.
use efiperun_mod.Prelude.{
  ℕ, ◌≡◌, ◌<◌, ◌≤◌, refl, sym, ap, ◌∙◌, true, ◌&&◌, if◌then◌else◌, none, some, List, [], ◌∷◌, ◌++◌,
  length, get_elem?, get_elem?-append_left, get_elem?-length, length-snoc, arith, Bool-cases, inl,
  inr, not_zero, leb-eq-false, le→leb,
}
use mathlib.Core.List.{append_assoc, append-nil}
use efiperun_mod.Status.{success, not_found}
use efiperun_mod.Directory.Walk.{paths, visit, for_each-paths}
use efiperun_mod.Acpi.{
  AcpiTables, get_acpi_table, set_acpi_table, File, reads, load_acpi_table, load_acpi_tables,
}

-- the tables of the files that can be read to the end of the size that they have, and are not empty
abbrev pub tables_of : (List ℕ → File) → List (List ℕ) → List ℕ
tables_of files [] = []
tables_of files (p ∷ ps) =
    let rest = tables_of files ps in
    let file = files p in
    if file.opens && reads file.st_size file.delivers then file.table ∷ rest else rest

-- `malloc` succeeds for each of the files
abbrev pub HasTables : (List ℕ → File) → List (List ℕ) → Type 0
HasTables files [] = Unit
HasTables files (p ∷ ps) = (0 < (files p).table) × HasTables files ps

set_lem :
    (table : ℕ) (tables : AcpiTables)
    → 0 < table
    → set_acpi_table table tables ≡ (success, tables ++ (table ∷ []))
unfolding set_acpi_table
set_lem table tables h = rw (not_zero table h) refl

visit-tables_of :
    (files : List ℕ → File) (ps : List (List ℕ)) (tables : AcpiTables)
    → HasTables files ps
    → visit (load_acpi_table files) ps tables ≡ tables ++ tables_of files ps
unfolding load_acpi_table
visit-tables_of files [] tables h = sym (append-nil tables)
visit-tables_of files (p ∷ ps) tables (h, hs) =
    elim (Bool-cases ((files p).opens && reads (files p).st_size (files p).delivers)) [
      | inr t ↦ rw t (visit-tables_of files ps tables hs)
      | inl t ↦
          rw (t, set_lem (files p).table tables h)
            (visit-tables_of files ps (tables ++ ((files p).table ∷ [])) hs
              ∙ append_assoc tables ((files p).table ∷ []) (tables_of files ps))
    ]

-- Where malloc does not fail, load_acpi_tables ends, and puts behind the tables that there are those
-- of the files of the directory that open and are read to their size, which is not 0, in the
-- order of readdir.
pub load_acpi_tables-tables_of :
    (files : List ℕ → File) (path : List ℕ) (entries : List (List ℕ)) (tables : AcpiTables)
    → HasTables files (paths path entries)
    → load_acpi_tables files path entries tables
      ≡ some (tables ++ tables_of files (paths path entries))
unfolding load_acpi_tables
load_acpi_tables-tables_of files path entries tables h =
    for_each-paths (load_acpi_table files) path entries tables
    ∙ ap some (visit-tables_of files (paths path entries) tables h)

get_in :
    (index : ℕ) (tables : AcpiTables)
    → index < length tables
    → get_acpi_table index true tables ≡ (success, get_elem? tables index)
unfolding get_acpi_table
get_in index tables h = rw (leb-eq-false (length tables) index h) refl

get_out :
    (index : ℕ) (tables : AcpiTables)
    → length tables ≤ index
    → get_acpi_table index true tables ≡ (not_found, none)
unfolding get_acpi_table
get_out index tables h = rw (le→leb (length tables) index h) refl

-- SetAcpiTable of a table that is not null succeeds; GetAcpiTable then gives it at the index after
-- those there were, gives these at their old indices, and finds none at any other index, a negative
-- one, which is taken as a number from 2 ^ 63 on, included.
pub get_acpi_table-set_acpi_table :
    (table : ℕ) (tables : AcpiTables)
    → 0 < table
    → let (status, tables') = set_acpi_table table tables in
      (status ≡ success)
      × (get_acpi_table (length tables) true tables' ≡ (success, some table))
      × ((i : ℕ) → i < length tables → get_acpi_table i true tables' ≡ get_acpi_table i true tables)
      × ((i : ℕ) → length tables < i → get_acpi_table i true tables' ≡ (not_found, none))
get_acpi_table-set_acpi_table table tables h = rw (set_lem table tables h) (
  refl,
  get_in (length tables) (tables ++ (table ∷ [])) (omega (arith, length-snoc tables table))
      ∙ ap (λ x. (success, x)) (get_elem?-length tables table),
  λ i l.
      get_in i (tables ++ (table ∷ [])) (omega (arith, length-snoc tables table))
      ∙ ap (λ x. (success, x)) (get_elem?-append_left tables (table ∷ []) i l)
      ∙ sym (get_in i tables l),
  λ i l. get_out i (tables ++ (table ∷ [])) (omega (arith, length-snoc tables table)),
)
