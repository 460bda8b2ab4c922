-- ===== src/Guid/Names/Part1.antt =====
-- efi_guid.c, lines 868 to 1009: the names in the array, whose entries point at the GUIDs in the
-- order of the file.
use Prim.Native.String.{String}
use efiperun_mod.Prelude.{List, [], ◌∷◌}

unfoldable pub names_1 : List String
names_1 =
    "APP_PKG_TOKEN_SPACE" ∷ "ARM_JUNO_TOKEN_SPACE" ∷ "ARM_TOKEN_SPACE" ∷ "ARM_MP_CORE_INFO"
    ∷ "ARM_MP_CORE_INFO_PPI" ∷ "VIRTUAL_UNCACHED_PAGES_PROTOCOL" ∷ "ARM_PLATFORM_TOKEN_SPACE"
    ∷ "VARIABLE_RUNTIME_DXE_FILE" ∷ "ARM_GLOBAL_VARIABLE" ∷ "ARM_BOOT_MON_FS_FILE_INFO"
    ∷ "ARM_PLATFORM_UPDATE_FDT_EVENT" ∷ "ARM_GLOBAL_VARIABLE_PPI"
    ∷ "ARM_REAL_VIEW_EB_PKG_TOKEN_SPACE" ∷ "ARM_VEXPRESS_TOKEN_SPACE"
    ∷ "ARM_VIRTUALIZATION_TOKEN_SPACE" ∷ "EARLY_PL011_BASE_ADDRESS" ∷ "BEAGLE_BOARD_TOKEN_SPACE"
    ∷ "EFI_RUNTIME_CRYPT_PROTOCOL" ∷ "EFI_PCI_EXPRESS_BASE_ADDRESS" ∷ "EFI_ACPI_DESCRIPTION"
    ∷ "EFI_FLASH_MAP_HOB" ∷ "EFI_PCI_OPTION_ROM_TABLE" ∷ "DUET_CONSOLE_OUT_CONFIG"
    ∷ "DXE_CORE_FILE_NAME" ∷ "LDR_MEMORY_DESCRIPTOR" ∷ "EFI_SMM_BASE_THUNK_COMMUNICATION"
    ∷ "EFI_BOOT_STATE" ∷ "EFI_EDK_COMPATIBILITY_PKG_TOKEN_SPACE"
    ∷ "FRAMEWORK_BDS_FRONT_PAGE_FORMSET" ∷ "ECP_PEI_PCI_CFG_PPI" ∷ "EFI_PRINT_PROTOCOL"
    ∷ "EFI_SMM_BASE_HELPER_READY_PROTOCOL" ∷ "EMBEDDED_TOKEN_SPACE" ∷ "FDT_TABLE"
    ∷ "HARDWARE_INTERRUPT_PROTOCOL" ∷ "EFI_DEBUG_SUPPORT_PERIODIC_CALLBACK_PROTOCOL"
    ∷ "EFI_EBL_ADD_COMMAND_PROTOCOL" ∷ "EMBEDDED_DEVICE" ∷ "EMBEDDED_EXTERNAL_DEVICE_PROTOCOL"
    ∷ "EMBEDDED_GPIO_PROTOCOL" ∷ "PE_COFF_LOADER_PROTOCOL" ∷ "EFI_MMC_HOST_PROTOCOL"
    ∷ "ANDROID_FASTBOOT_TRANSPORT_PROTOCOL" ∷ "ANDROID_FASTBOOT_PLATFORM_PROTOCOL"
    ∷ "USB_DEVICE_PROTOCOL" ∷ "EMU_THUNK_PROTOCOL" ∷ "EMU_IO_THUNK_PROTOCOL"
    ∷ "EMU_GRAPHICS_WINDOW_PROTOCOL" ∷ "EMU_THREAD_THUNK_PROTOCOL" ∷ "EMU_BLOCK_IO_PROTOCOL"
    ∷ "EMU_SNP_PROTOCOL" ∷ "EMU_THUNK_PPI" ∷ "EMULATOR_PKG_TOKEN_SPACE" ∷ "EMU_SYSTEM_CONFIG"
    ∷ "EMU_VIRTUAL_DISKS" ∷ "EMU_PHYSICAL_DISKS" ∷ "EFI_INTEL_FRAMEWORK_MODULE_PKG_TOKEN_SPACE"
    ∷ "EFI_DATA_HUB_STATUS_CODE_RECORD" ∷ "TIANO_CUSTOM_DECOMPRESS" ∷ "LZMA_CUSTOM_DECOMPRESS"
    ∷ "LZMA_F86_CUSTOM_DECOMPRESS" ∷ "EFI_ACPI_VARIABLE_COMPATIBLITY" ∷ "EFI_LEGACY_BIOS"
    ∷ "EFI_LEGACY_DEV_ORDER_VARIABLE" ∷ "EFI_UPDATE_DATA_FILE" ∷ "BLOCK_IO_VENDOR"
    ∷ "FRONT_PAGE_FORM_SET" ∷ "BOOT_MANAGER_FORM_SET" ∷ "DEVICE_MANAGER_FORM_SET"
    ∷ "DRIVER_HEALTH_FORM_SET" ∷ "BOOT_MAINT_FORM_SET" ∷ []

unfoldable pub names_2 : List String
names_2 =
    "FILE_EXPLORE_FORM_SET" ∷ "BDS_LIB_STRING_PACKAGE" ∷ "LAST_ENUM_LANG"
    ∷ "HD_BOOT_DEVICE_PATH_VARIABL" ∷ "EFI_VGA_MINI_PORT_PROTOCOL" ∷ "EFI_ISA_IO_PROTOCOL"
    ∷ "EFI_ISA_ACPI_PROTOCOL" ∷ "EFI_PS2_POLICY_PROTOCOL" ∷ "EFI_OEMBADGING_PROTOCOL"
    ∷ "EXIT_PM_AUTH_PROTOCOL" ∷ "EFI_CACHE_SUB_CLASS" ∷ "EFI_MEMORY_SUB_CLASS"
    ∷ "EFI_MISC_SUB_CLASS" ∷ "EFI_PROCESSOR_SUB_CLASS" ∷ "EFI_CAPSULE" ∷ "EFI_CONFIG_FILE_NAME"
    ∷ "EFI_SMM_PEI_SMRAM_MEMORY_RESERVE" ∷ "SMM_COMMUNICATE_HEADER" ∷ "EFI_FIRMWARE_FILE_SYSTEM"
    ∷ "EFI_PEI_IDE_BLOCK_IO_PPI" ∷ "EFI_PEI144_FLOPPY_BLOCK_IO_PPI"
    ∷ "EFI_PEI_BOOT_SCRIPT_EXECUTER_PPI" ∷ "EFI_PEI_SECURITY_PPI" ∷ "EFI_PEI_SMBUS_PPI"
    ∷ "EFI_PCI_CFG_PPI_IN_SERVICE_TABLE" ∷ "EFI_PEI_READ_ONLY_VARIABLE_PPI"
    ∷ "EFI_PEI_SECTION_EXTRACTION_PPI" ∷ "EFI_PEI_FV_FILE_LOADER_PPI" ∷ "EFI_FIND_FV_PPI"
    ∷ "EFI_PEI_S3_RESUME_PPI" ∷ "EFI_ACPI_S3_SAVE_PROTOCOL" ∷ "EFI_ACPI_SUPPORT_PROTOCOL"
    ∷ "EFI_BOOT_SCRIPT_SAVE_PROTOCOL" ∷ "EFI_LEGACY_BIOS_PROTOCOL"
    ∷ "EFI_LEGACY_BIOS_PLATFORM_PROTOCOL" ∷ "EFI_LEGACY_INTERRUPT_PROTOCOL"
    ∷ "EFI_LEGACY_REGION_PROTOCOL" ∷ "EFI_LEGACY8259_PROTOCOL" ∷ "EFI_CPU_IO_PROTOCOL"
    ∷ "EFI_DATA_HUB_PROTOCOL" ∷ "EFI_FIRMWARE_VOLUME_PROTOCOL" ∷ "EFI_SECTION_EXTRACTION_PROTOCOL"
    ∷ "EFI_HII_PROTOCOL" ∷ "EFI_HII_COMPATIBILITY_PROTOCOL" ∷ "FRAMEWORK_EFI_MP_SERVICE_PROTOCOL"
    ∷ "EFI_SMM_BASE_PROTOCOL" ∷ "EFI_SMM_ACCESS_PROTOCOL" ∷ "EFI_SMM_CONTROL_PROTOCOL"
    ∷ "EFI_SMM_SW_DISPATCH_PROTOCOL" ∷ "EFI_SMM_SX_DISPATCH_PROTOCOL"
    ∷ "EFI_SMM_PERIODIC_TIMER_DISPATCH_PROTOCOL" ∷ "EFI_SMM_USB_DISPATCH_PROTOCOL"
    ∷ "EFI_SMM_GPI_DISPATCH_PROTOCOL" ∷ "EFI_SMM_STANDBY_BUTTON_DISPATCH_PROTOCOL"
    ∷ "EFI_SMM_POWER_BUTTON_DISPATCH_PROTOCOL" ∷ "EFI_SMM_ICHN_DISPATCH_PROTOCOL" ∷ "EFI_SMM_CPU_IO"
    ∷ "EFI_FORM_CALLBACK_PROTOCOL" ∷ "EFI_FORM_BROWSER_PROTOCOL"
    ∷ "EFI_FORM_BROWSER_COMPATIBILITY_PROTOCOL" ∷ "FRAMERWORK_EFI_FIRMWARE_VOLUME_BLOCK_PROTOCOL"
    ∷ "EFI_SMM_CPU_SAVE_STATE_PROTOCOL" ∷ "INTEL_FSP_PKG_TOKEN_SPACE" ∷ "FSP_HEADER_FILE"
    ∷ "FSP_BOOT_LOADER_TEMPORARY_MEMORY" ∷ "FSP_RESERVED_MEMORY_RESOURCE_HOB"
    ∷ "FSP_NON_VOLATILE_STORAGE_HOB" ∷ "FSP_RESERVED_MEMORY_RESOURCE_HOB_TSEG"
    ∷ "FSP_RESERVED_MEMORY_RESOURCE_HOB_GFX" ∷ "FSP_RESERVED_MEMORY_RESOURCE_HOB_MISC"
    ∷ "FSP_WRAPPER_TOKEN_SPACE" ∷ []
