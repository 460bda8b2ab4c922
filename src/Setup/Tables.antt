-- ===== src/Setup/Tables.antt =====
-- efihooks.cpp, `efi_hooks_init`: the protocols that it publishes, and their GUIDs (efi_guid.c).
use efiperun_mod.Prelude.{List, [], ◌∷◌}
use efiperun_mod.Guid.Defs.{Guid, guid}
use efiperun_mod.Setup.{
  Action, assign, publish, register, locate, function, table, number, aborthook, dummyhook,
  acpi_support, boot_services, con_in, con_out, con_out_mode, configuration_table, debug_mask,
  device_path, graphics_output, graphics_output_mode, hii_database, loaded_image, runtime_services,
  smm_base, smm_system_table, std_err, system_table,
}

abbrev pub debug_mask_guid : Guid
debug_mask_guid = guid 0x4c8a2451 0xc207 0x405b 0x96 0x94 0x99 0xea 0x13 0x25 0x13 0x41

abbrev pub smm_base_guid : Guid
smm_base_guid = guid 0x1390954d 0xda95 0x4227 0x93 0x28 0x72 0x82 0xc2 0x17 0xda 0xa8

abbrev pub smm_cpu_io_guid : Guid
smm_cpu_io_guid = guid 0x5f439a0b 0x45d8 0x4682 0xa4 0xf4 0xf0 0x57 0x6b 0x51 0x34 0x41

abbrev pub graphics_output_guid : Guid
graphics_output_guid = guid 0x9042a9de 0x23dc 0x4a38 0x96 0xfb 0x7a 0xde 0xd0 0x80 0x51 0x6a

abbrev pub hii_database_guid : Guid
hii_database_guid = guid 0xef9fc172 0xa1b2 0x4693 0xb3 0x27 0x6d 0x32 0xfc 0x41 0x60 0x42

abbrev pub acpi_support_guid : Guid
acpi_support_guid = guid 0xdbff9d55 0x89b7 0x46da 0xbd 0xdf 0x67 0x7d 0x3d 0xc0 0x24 0x1d

abbrev pub device_path_guid : Guid
device_path_guid = guid 0x09576e91 0x6d3f 0x11d2 0x8e 0x39 0x00 0xa0 0xc9 0x69 0x72 0x3b

abbrev pub loaded_image_guid : Guid
loaded_image_guid = guid 0x5b1b31a1 0x9562 0x11d2 0x8e 0x3f 0x00 0xa0 0xc9 0x69 0x72 0x3b

-- the debug mask protocol
unfoldable pub debug_mask_actions : List Action
debug_mask_actions =
    assign debug_mask "Revision" (number 0x00010000)
    ∷ dummyhook debug_mask "GetDebugMask"
    ∷ dummyhook debug_mask "SetDebugMask"
    ∷ publish debug_mask_guid debug_mask
    ∷ register debug_mask "EFI_DEBUG_MASK_PROTOCOL"
    ∷ []

-- the protocol and the table of the system management mode
unfoldable pub smm_actions : List Action
smm_actions =
    dummyhook smm_base "Register"
    ∷ aborthook smm_base "UnRegister"
    ∷ aborthook smm_base "Communicate"
    ∷ dummyhook smm_base "RegisterCallback"
    ∷ assign smm_base "InSmm" (function "InSmm")
    ∷ aborthook smm_base "SmmAllocatePool"
    ∷ aborthook smm_base "SmmFreePool"
    ∷ assign smm_base "GetSmstLocation" (function "GetSmstLocation")
    ∷ publish smm_base_guid smm_base
    ∷ register smm_base "EFI_SMM_BASE_PROTOCOL"
    ∷ aborthook smm_system_table "SmmInstallConfigurationTable"
    ∷ locate smm_system_table "SmmIo" smm_cpu_io_guid "GUID:EFI_SMM_CPU_IO::PROTOCOL"
    ∷ aborthook smm_system_table "SmmAllocatePool"
    ∷ aborthook smm_system_table "SmmFreePool"
    ∷ aborthook smm_system_table "SmmAllocatePages"
    ∷ aborthook smm_system_table "SmmFreePages"
    ∷ aborthook smm_system_table "SmmStartupThisAp"
    ∷ []

-- the graphics output protocol
unfoldable pub graphics_actions : List Action
graphics_actions =
    dummyhook graphics_output "QueryMode"
    ∷ aborthook graphics_output "SetMode"
    ∷ aborthook graphics_output "Blt"
    ∷ assign graphics_output "Mode" (table graphics_output_mode)
    ∷ publish graphics_output_guid graphics_output
    ∷ register graphics_output "EFI_GRAPHICS_OUTPUT_PROTOCOL"
    ∷ []

-- the database of the human interface
unfoldable pub hii_actions : List Action
hii_actions =
    dummyhook hii_database "NewPackageList"
    ∷ aborthook hii_database "RemovePackageList"
    ∷ aborthook hii_database "UpdatePackageList"
    ∷ aborthook hii_database "ListPackageLists"
    ∷ aborthook hii_database "ExportPackageLists"
    ∷ aborthook hii_database "RegisterPackageNotify"
    ∷ aborthook hii_database "UnregisterPackageNotify"
    ∷ aborthook hii_database "FindKeyboardLayouts"
    ∷ aborthook hii_database "GetKeyboardLayout"
    ∷ aborthook hii_database "SetKeyboardLayout"
    ∷ aborthook hii_database "GetPackageListHandle"
    ∷ publish hii_database_guid hii_database
    ∷ register hii_database "EFI_HII_DATABASE_PROTOCOL"
    ∷ []

-- the ACPI support protocol and the empty device path
unfoldable pub acpi_actions : List Action
acpi_actions =
    assign acpi_support "GetAcpiTable" (function "GetAcpiTable")
    ∷ assign acpi_support "SetAcpiTable" (function "SetAcpiTable")
    ∷ aborthook acpi_support "PublishTables"
    ∷ publish acpi_support_guid acpi_support
    ∷ register acpi_support "EFI_ACPI_SUPPORT_PROTOCOL"
    ∷ publish device_path_guid device_path
    ∷ register device_path "EFI_DEVICE_PATH_PROTOCOL"
    ∷ []

-- the loaded image protocol
unfoldable pub image_actions : List Action
image_actions =
    assign loaded_image "SystemTable" (table system_table)
    ∷ assign loaded_image "FilePath" (table device_path)
    ∷ aborthook loaded_image "Unload"
    ∷ publish loaded_image_guid loaded_image
    ∷ register loaded_image "EFI_LOADED_IMAGE_PROTOCOL"
    ∷ []

-- the tables that the system table and the others point to
unfoldable pub link_actions : List Action
link_actions =
    assign system_table "ConIn" (table con_in)
    ∷ assign con_out "Mode" (table con_out_mode)
    ∷ assign std_err "Mode" (table con_out_mode)
    ∷ assign system_table "ConOut" (table con_out)
    ∷ assign system_table "StdErr" (table std_err)
    ∷ assign system_table "RuntimeServices" (table runtime_services)
    ∷ assign system_table "BootServices" (table boot_services)
    ∷ assign system_table "ConfigurationTable" (table configuration_table)
    ∷ assign smm_system_table "SmmConfigurationTable" (table configuration_table)
    ∷ []
