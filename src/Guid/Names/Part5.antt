-- ===== src/Guid/Names/Part5.antt =====
-- efi_guid.c, lines 1436 to 1577: the names in the array, whose entries point at the GUIDs in the
-- order of the file.
use Prim.Native.String.{String}
use efiperun_mod.Prelude.{List, [], ◌∷◌}

unfoldable pub names_9 : List String
names_9 =
    "EFI_UDP4_PROTOCOL" ∷ "EFI_MTFTP4_SERVICE_BINDING_PROTOCOL" ∷ "EFI_MTFTP4_PROTOCOL"
    ∷ "EFI_AUTHENTICATION_INFO_PROTOCOL" ∷ "EFI_HASH_SERVICE_BINDING_PROTOCOL" ∷ "EFI_HASH_PROTOCOL"
    ∷ "EFI_TCG_PROTOCOL" ∷ "EFI_TR_EEPROTOCOL" ∷ "EFI_FORM_BROWSER2_PROTOCOL"
    ∷ "EFI_HII_STRING_PROTOCOL" ∷ "EFI_HII_IMAGE_PROTOCOL" ∷ "EFI_HII_CONFIG_ROUTING_PROTOCOL"
    ∷ "EFI_HII_DATABASE_PROTOCOL" ∷ "EFI_HII_FONT_PROTOCOL" ∷ "EFI_HII_CONFIG_ACCESS_PROTOCOL"
    ∷ "EFI_HII_PACKAGE_LIST_PROTOCOL" ∷ "EFI_IP6_SERVICE_BINDING_PROTOCOL" ∷ "EFI_IP6_PROTOCOL"
    ∷ "EFI_IP6_CONFIG_PROTOCOL" ∷ "EFI_MTFTP6_SERVICE_BINDING_PROTOCOL" ∷ "EFI_MTFTP6_PROTOCOL"
    ∷ "EFI_DHCP6_SERVICE_BINDING_PROTOCOL" ∷ "EFI_DHCP6_PROTOCOL"
    ∷ "EFI_UDP6_SERVICE_BINDING_PROTOCOL" ∷ "EFI_UDP6_PROTOCOL"
    ∷ "EFI_TCP6_SERVICE_BINDING_PROTOCOL" ∷ "EFI_TCP6_PROTOCOL" ∷ "EFI_VLAN_CONFIG_PROTOCOL"
    ∷ "EFI_EAP_PROTOCOL" ∷ "EFI_EAP_MANAGEMENT_PROTOCOL" ∷ "EFI_FTP4_SERVICE_BINDING_PROTOCOL"
    ∷ "EFI_FTP4_PROTOCOL" ∷ "EFI_IP_SEC_CONFIG_PROTOCOL" ∷ "EFI_DRIVER_HEALTH_PROTOCOL"
    ∷ "EFI_DEFERRED_IMAGE_LOAD_PROTOCOL" ∷ "EFI_USER_CREDENTIAL_PROTOCOL"
    ∷ "EFI_USER_MANAGER_PROTOCOL" ∷ "EFI_ATA_PASS_THRU_PROTOCOL"
    ∷ "EFI_FIRMWARE_MANAGEMENT_PROTOCOL" ∷ "EFI_IP_SEC_PROTOCOL" ∷ "EFI_IP_SEC2_PROTOCOL"
    ∷ "EFI_KMS_PROTOCOL" ∷ "EFI_BLOCK_IO2_PROTOCOL" ∷ "EFI_STORAGE_SECURITY_COMMAND_PROTOCOL"
    ∷ "EFI_USER_CREDENTIAL2_PROTOCOL" ∷ "EFI_DISK_IO2_PROTOCOL" ∷ "EFI_TIMESTAMP_PROTOCOL"
    ∷ "EFI_RNG_PROTOCOL" ∷ "EFI_ADAPTER_INFORMATION_PROTOCOL" ∷ "EFI_NETWORK_PKG_TOKEN_SPACE"
    ∷ "IP6_CONFIG_NV_DATA" ∷ "ISCSI_CONFIG" ∷ "EFI_WIN_NT_PASS_THROUGH" ∷ "EFI_WIN_NT_CONSOLE"
    ∷ "EFI_WIN_NT_UGA" ∷ "EFI_WIN_NT_GOP" ∷ "EFI_WIN_NT_SERIAL_PORT" ∷ "EFI_WIN_NT_FILE_SYSTEM"
    ∷ "EFI_WIN_NT_PHYSICAL_DISKS" ∷ "EFI_WIN_NT_VIRTUAL_DISKS" ∷ "EFI_NT32_PKG_TOKEN_SPACE"
    ∷ "EFI_WIN_NT_SYSTEM_CONFIG" ∷ "PEI_NT_THUNK_PPI" ∷ "PEI_NT_AUTO_SCAN_PPI"
    ∷ "NT_PEI_LOAD_FILE_PPI" ∷ "NT_FWH_PPI" ∷ "WIN_NT_BUS_DRIVER" ∷ "EFI_WIN_NT_THUNK_PROTOCOL"
    ∷ "EFI_WIN_NT_IO_PROTOCOL" ∷ "OMAP35XX_TOKEN_SPACE" ∷ "OPTION_ROM_PKG_TOKEN_SPACE" ∷ []

unfoldable pub names_10 : List String
names_10 =
    "UEFI_OVMF_PKG_TOKEN_SPACE" ∷ "EFI_XEN_INFO" ∷ "OVMF_PLATFORM_CONFIG" ∷ "VIRTIO_MMIO_TRANSPORT"
    ∷ "VIRTIO_DEVICE_PROTOCOL" ∷ "BLOCK_MMIO_PROTOCOL" ∷ "XEN_BUS_PROTOCOL"
    ∷ "PC_AT_CHIPSET_PKG_TOKEN_SPACE" ∷ "PERFORMANCE_PKG_TOKEN_SPACE" ∷ "EFI_TSC_FREQUENCY"
    ∷ "ACPI10_TABLE" ∷ "ACPI_TABLE" ∷ "PEI_CAPSULE_ON_DATA_CD" ∷ "PEI_CAPSULE_ON_FAT_FLOPPY_DISK"
    ∷ "PEI_CAPSULE_ON_FAT_IDE_DISK" ∷ "PEI_CAPSULE_ON_FAT_USB_DISK" ∷ "DXE_DEBUGPORT_EXT_PROTOCOL"
    ∷ "DXE_DEBUG_CMD_PROTOCOL" ∷ "DXE_DEBUG_DISPATCH_PROTOCOL"
    ∷ "EFI_ALERT_STANDARD_FORMAT_PROTOCOL" ∷ "EFI_DEBUGPORT_PROTOCOL" ∷ "EFI_MP_SERVICES_PROTOCOL"
    ∷ "EFI_PEI_PE_COFF_LOADER" ∷ "EFI_SIMPLE_TEXT_INPUT_PROTOCOL"
    ∷ "EFI_SIMPLE_TEXT_OUTPUT_PROTOCOL" ∷ "EFI_TCG_PRIVATE_INTERFACE" ∷ "MPS_TABLE"
    ∷ "PDM_WINDOW_BUTTON" ∷ "PDM_WINDOW_SPIN" ∷ "PEI_CACHE_PPI" ∷ "PEI_DEBUG_DISPATCH_PPI"
    ∷ "PEI_POST_BOOT_SCRIPT_TABLE_PPI" ∷ "PEI_SMBUS_POLICY_PPI" ∷ "PHOENIX_DESKTOP_MESSAGE_PROTOCOL"
    ∷ "PHOENIX_DESKTOP_WINDOW_PROTOCOL" ∷ "PHOENIX_GDI_PROTOCOL"
    ∷ "PHOENIX_SMM_CORE_SERVICES_PROTOCOL" ∷ "PHOENIX_EFI_SMM_SW_SMI_PROTOCOL"
    ∷ "PHOENIX_SMM_WATCHDOG_TIMER_PROTOCOL" ∷ "SAL_SYSTEM_TABLE" ∷ "SCT_ISA_HC_PPI"
    ∷ "SCT_ISA_HC_PROTOCOL" ∷ "SMBIOS_TABLE" ∷ "PEI_SPEAKER_INTERFACE_PPI"
    ∷ "PEI_MFG_MEMORY_TEST_PPI" ∷ "PEI_SHA256_HASH_PPI" ∷ "EFI_PLATFORM_BOOT_MODE"
    ∷ "EFI_PLATFORM_INFO" ∷ "EFI_MEMORY_CONFIG_DATA" ∷ "PLATFORM_MODULE_TOKEN_SPACE"
    ∷ "EFI_SERIAL_PORT_TOKEN_SPACE" ∷ "EFI_ICH_TOKEN_SPACE" ∷ "EFI_PCH_TOKEN_SPACE"
    ∷ "EFI_SIO_VARIABLE" ∷ "PROCESSOR_PRODUCER" ∷ "EFI_POWER_ON_HOB" ∷ "EFI_PLATFORM_CPU_INFO"
    ∷ "EFI_BIOS_ID" ∷ "EFI_BOARD_FEATURES" ∷ "ITK_DATA_VAR" ∷ "DMI_DATA" ∷ "IDCC_DATA_HUB"
    ∷ "EFI_SETUP_VARIABLE" ∷ "MFG_MODE_VARIABLE" ∷ "EFI_ACPI_TABLE_STORAGE"
    ∷ "ACPIOSFRMFG_STRING_VARIABLE" ∷ "ACPIOSFRREF_DATA_BLOCK_VARIABLE"
    ∷ "ACPIOSFRMODEL_STRING_VARIABLE" ∷ "EFI_PCI_LAN_INFO" ∷ "EFI_NORMAL_SETUP" ∷ "FIRMWARE_ID" ∷ []
