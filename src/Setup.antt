-- ===== src/Setup.antt =====
-- efihooks.cpp: `efi_hooks_init`, as the list of its statements and what each does.
pub mod Services
pub mod Tables
pub mod Init
pub mod Published
use Prim.Native.String.{String}
use efiperun_mod.Prelude.{
  ℕ, Bool, true, false, ◌&&◌, ◌==◌, if◌then◌else◌, Option, none, some, List, [], ◌∷◌, ◌++◌,
}
use efiperun_mod.Memory.{MemoryBlock, string_eq}
use efiperun_mod.Services.{concat}
use efiperun_mod.Guid.Defs.{Guid}
use efiperun_mod.Protocols.{Scan, returned, scanned, scan, find_protocol, install_protocol}
use efiperun_mod.Protocols.Multi.{MultiMap}

-- the static tables of the file
pub data Table : Type 0 where
  system_table : Table
  con_in : Table
  con_out : Table
  std_err : Table
  con_out_mode : Table
  runtime_services : Table
  boot_services : Table
  configuration_table : Table
  debug_mask : Table
  smm_base : Table
  smm_system_table : Table
  graphics_output : Table
  graphics_output_mode : Table
  hii_database : Table
  acpi_support : Table
  device_path : Table
  loaded_image : Table

-- their names, as the macros' `#s` spells them
abbrev pub table_name : Table → String
table_name system_table = "g_efi_system_table"
table_name con_in = "g_efi_system_table_ConIn"
table_name con_out = "g_efi_system_table_ConOut"
table_name std_err = "g_efi_system_table_StdErr"
table_name con_out_mode = "g_efi_system_table_ConOut_Mode"
table_name runtime_services = "g_efi_system_table_RuntimeServices"
table_name boot_services = "g_efi_system_table_BootServices"
table_name configuration_table = "g_efi_system_table_ConfigurationTable"
table_name debug_mask = "g_efi_debug_mask_protocol"
table_name smm_base = "g_efi_smm_base_protocol"
table_name smm_system_table = "g_efi_smm_system_table"
table_name graphics_output = "g_efi_graphics_output_protocol"
table_name graphics_output_mode = "g_efi_graphics_output_protocol_Mode"
table_name hii_database = "g_efi_hii_database_protocol"
table_name acpi_support = "g_efi_acpi_support_protocol"
table_name device_path = "g_empty_efi_device_path_protocol"
table_name loaded_image = "g_efi_loaded_image_protocol"

-- What a field of a table holds: a thunk of `new_abort_hook` or `new_dummy_hook` with its name, a
-- function of the program, the address of a table, an interface or a number.
pub data Value : Type 0 where
  abort_thunk : String → Value
  dummy_thunk : String → Value
  function : String → Value
  table : Table → Value
  interface : ℕ → Value
  number : ℕ → Value

-- A statement of `efi_hooks_init`: an assignment to a field, `g_interfaces.emplace` of a table under
-- the null handle, `register_memory` of a table, or an assignment of what `find_protocol` gives.
pub data Action : Type 0 where
  assign : Table → String → Value → Action
  publish : Guid → Table → Action
  register : Table → String → Action
  locate : Table → String → Guid → String → Action

-- `#s "::" #m`
abbrev pub hook_name : Table → String → String
hook_name t m = concat (table_name t) (concat "::" m)

-- the macros
abbrev pub aborthook : Table → String → Action
aborthook t m = assign t m (abort_thunk (hook_name t m))

abbrev pub dummyhook : Table → String → Action
dummyhook t m = assign t m (dummy_thunk (hook_name t m))

module _ (g : MultiMap Guid (ℕ × ℕ)) where
  -- the fields assigned, the newest first; `g_interfaces`; and the blocks that `register_memory` was
  -- called with, the newest first
  pub record State : Type 0 where
    pub fields : List (Table × String × Value)
    pub interfaces : g.Store
    pub blocks : List MemoryBlock

  -- where the tables stand and their sizes, and where a new `DummyInterface<80>` is put
  module _ (place size : Table → ℕ) (dummy : ℕ) where
    -- the constructor of `DummyInterface<80>` registers its pointers
    abbrev pub dummy_blocks : String → Scan → List MemoryBlock → List MemoryBlock
    dummy_blocks name (returned intf) blocks = blocks
    dummy_blocks name (scanned nullintf firstintf) blocks =
        if nullintf == 0 && firstintf == 0
        then record { start = dummy; size = 640; name = name } ∷ blocks
        else blocks

    unfoldable pub perform : Action → State → State
    perform (assign t m v) s = record {
      fields = (t, m, v) ∷ s.fields;
      interfaces = s.interfaces;
      blocks = s.blocks;
    }
    perform (publish guid t) s = record {
      fields = s.fields;
      interfaces = install_protocol g guid 0 (place t) s.interfaces;
      blocks = s.blocks;
    }
    perform (register t name) s = record {
      fields = s.fields;
      interfaces = s.interfaces;
      blocks = record { start = place t; size = size t; name = name } ∷ s.blocks;
    }
    perform (locate t m guid name) s =
        let found = find_protocol g guid 0 dummy s.interfaces in
        record {
          fields = (t, m, interface found.0) ∷ s.fields;
          interfaces = found.1;
          blocks = dummy_blocks name (scan 0 0 0 (g.equal_range guid s.interfaces)) s.blocks;
        }

    unfoldable pub perform_all : List Action → State → State
    perform_all [] s = s
    perform_all (a ∷ actions) s = perform_all actions (perform a s)
