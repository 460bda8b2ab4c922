-- ===== src/Acpi.antt =====
-- stubs.cpp: `GetAcpiTable` and `SetAcpiTable`; debugmodule_example.cpp: `load_acpi_tables`.
pub mod Tables
use efiperun_mod.Prelude.{
  ℕ, suc, ◌^◌, Bool, true, false, ◌&&◌, leb, ltb, ◌==◌, if◌then◌else◌, Option, none, some, List, [],
  ◌∷◌, ◌++◌, length, get_elem?,
}
use efiperun_mod.Status.{Status, success, invalid_parameter, not_found}
use efiperun_mod.Directory.{begin, for_each}

-- `g_acpi_tables`
abbrev pub AcpiTables : Type 0
AcpiTables = List ℕ

-- `GetAcpiTable`: the index is an `INTN`, which the comparison takes as its 64-bit pattern; the
-- second result is `*Table` where it is set
unfoldable pub get_acpi_table : ℕ → Bool → AcpiTables → Status × Option ℕ
get_acpi_table index has_table tables =
    if leb (length tables) index
    then (not_found, none)
    else if has_table
    then (success, get_elem? tables index)
    else (invalid_parameter, none)

-- `SetAcpiTable`; a null `Table` is 0
unfoldable pub set_acpi_table : ℕ → AcpiTables → Status × AcpiTables
set_acpi_table table tables =
    if table == 0 then (invalid_parameter, tables) else (success, tables ++ (table ∷ []))

-- What the system has for a path: whether `fopen` opens it, the size that `fstat` gives, how many
-- bytes `fread` can deliver, and the address that `malloc` gives for the table.
pub record File : Type 0 where
  pub opens : Bool
  pub st_size : Option ℕ
  pub delivers : ℕ
  pub table : ℕ

-- `1==fread(table,st.st_size,1,fp)`: one item of `st_size` bytes; of an item of no bytes, none is read
unfoldable pub reads : Option ℕ → ℕ → Bool
reads none delivers = false
reads (some size) delivers = ltb 0 size && leb size delivers

-- the body of the loop of `load_acpi_tables`
unfoldable pub load_acpi_table : (List ℕ → File) → List ℕ → AcpiTables → AcpiTables
load_acpi_table files path tables =
    let file = files path in
    if file.opens && reads file.st_size file.delivers
    then (set_acpi_table file.table tables).1
    else tables

-- `load_acpi_tables`, where the protocol found is the one that `efi_hooks_init` publishes
unfoldable pub load_acpi_tables :
    (List ℕ → File) → List ℕ → List (List ℕ) → AcpiTables → Option AcpiTables
load_acpi_tables files path entries tables =
    for_each (suc (length entries)) (load_acpi_table files) path (begin path (some entries)) tables
