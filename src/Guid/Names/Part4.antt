-- ===== src/Guid/Names/Part4.antt =====
-- efi_guid.c, lines 1294 to 1435: the names in the array, whose entries point at the GUIDs in the
-- order of the file.
use Prim.Native.String.{String}
use efiperun_mod.Prelude.{List, [], ◌∷◌}

unfoldable pub names_7 : List String
names_7 =
    "EFI_VARIABLE_ARCH_PROTOCOL" ∷ "EFI_WATCHDOG_TIMER_ARCH_PROTOCOL"
    ∷ "EFI_STATUS_CODE_RUNTIME_PROTOCOL" ∷ "EFI_SMBUS_HC_PROTOCOL" ∷ "EFI_FIRMWARE_VOLUME2_PROTOCOL"
    ∷ "EFI_FIRMWARE_VOLUME_BLOCK_PROTOCOL" ∷ "EFI_CAPSULE_ARCH_PROTOCOL" ∷ "EFI_MP_SERVICE_PROTOCOL"
    ∷ "EFI_PCI_HOST_BRIDGE_RESOURCE_ALLOCATION_PROTOCOL" ∷ "EFI_PCI_PLATFORM_PROTOCOL"
    ∷ "EFI_PCI_OVERRIDE_PROTOCOL" ∷ "EFI_PCI_ENUMERATION_COMPLETE_PROTOCOL"
    ∷ "EFI_INCOMPATIBLE_PCI_DEVICE_SUPPORT_PROTOCOL" ∷ "EFI_PCI_HOT_PLUG_INIT_PROTOCOL"
    ∷ "EFI_PCI_HOT_PLUG_REQUEST_PROTOCOL" ∷ "EFI_IDE_CONTROLLER_INIT_PROTOCOL"
    ∷ "EFI_DISK_INFO_PROTOCOL" ∷ "EFI_SMBIOS_PROTOCOL" ∷ "EFI_S3_SAVE_STATE_PROTOCOL"
    ∷ "EFI_S3_SMM_SAVE_STATE_PROTOCOL" ∷ "EFI_RSC_HANDLER_PROTOCOL" ∷ "EFI_SMM_RSC_HANDLER_PROTOCOL"
    ∷ "EFI_ACPI_SDT_PROTOCOL" ∷ "EFI_SIO_PROTOCOL" ∷ "EFI_SMM_CPU_IO2_PROTOCOL"
    ∷ "EFI_SMM_BASE2_PROTOCOL" ∷ "EFI_SMM_ACCESS2_PROTOCOL" ∷ "EFI_SMM_CONTROL2_PROTOCOL"
    ∷ "EFI_SMM_CONFIGURATION_PROTOCOL" ∷ "EFI_SMM_READY_TO_LOCK_PROTOCOL"
    ∷ "EFI_DXE_SMM_READY_TO_LOCK_PROTOCOL" ∷ "EFI_SMM_COMMUNICATION_PROTOCOL"
    ∷ "EFI_SMM_STATUS_CODE_PROTOCOL" ∷ "EFI_SMM_CPU_PROTOCOL"
    ∷ "EFI_SMM_PCI_ROOT_BRIDGE_IO_PROTOCOL" ∷ "EFI_SMM_SW_DISPATCH2_PROTOCOL"
    ∷ "EFI_SMM_SX_DISPATCH2_PROTOCOL" ∷ "EFI_SMM_PERIODIC_TIMER_DISPATCH2_PROTOCOL"
    ∷ "EFI_SMM_USB_DISPATCH2_PROTOCOL" ∷ "EFI_SMM_GPI_DISPATCH2_PROTOCOL"
    ∷ "EFI_SMM_STANDBY_BUTTON_DISPATCH2_PROTOCOL" ∷ "EFI_SMM_POWER_BUTTON_DISPATCH2_PROTOCOL"
    ∷ "EFI_SMM_IO_TRAP_DISPATCH2_PROTOCOL" ∷ "EFI_PCD_PROTOCOL"
    ∷ "EFI_FIRMWARE_VOLUME_BLOCK2_PROTOCOL" ∷ "EFI_CPU_IO2_PROTOCOL" ∷ "EFI_LEGACY_REGION2_PROTOCOL"
    ∷ "EFI_SAL_MCA_INIT_PMI_PROTOCOL" ∷ "EFI_EXTENDED_SAL_BOOT_SERVICE_PROTOCOL"
    ∷ "EFI_EXTENDED_SAL_BASE_IO_SERVICES_PROTOCOL" ∷ "EFI_EXTENDED_SAL_STALL_SERVICES_PROTOCOL"
    ∷ "EFI_EXTENDED_SAL_RTC_SERVICES_PROTOCOL" ∷ "EFI_EXTENDED_SAL_VARIABLE_SERVICES_PROTOCOL"
    ∷ "EFI_EXTENDED_SAL_MTC_SERVICES_PROTOCOL" ∷ "EFI_EXTENDED_SAL_RESET_SERVICES_PROTOCOL"
    ∷ "EFI_EXTENDED_SAL_STATUS_CODE_SERVICES_PROTOCOL"
    ∷ "EFI_EXTENDED_SAL_FV_BLOCK_SERVICES_PROTOCOL" ∷ "EFI_EXTENDED_SAL_MP_SERVICES_PROTOCOL"
    ∷ "EFI_EXTENDED_SAL_PAL_SERVICES_PROTOCOL" ∷ "EFI_EXTENDED_SAL_BASE_SERVICES_PROTOCOL"
    ∷ "EFI_EXTENDED_SAL_MCA_SERVICES_PROTOCOL" ∷ "EFI_EXTENDED_SAL_PCI_SERVICES_PROTOCOL"
    ∷ "EFI_EXTENDED_SAL_CACHE_SERVICES_PROTOCOL" ∷ "EFI_EXTENDED_SAL_MCA_LOG_SERVICES_PROTOCOL"
    ∷ "EFI_SECURITY2_ARCH_PROTOCOL" ∷ "EFI_SMM_END_OF_DXE_PROTOCOL" ∷ "EFI_GET_PCD_INFO_PROTOCOL"
    ∷ "EFI_I2C_MASTER_PROTOCOL" ∷ "EFI_I2C_IO_PROTOCOL" ∷ "EFI_I2C_ENUMERATE_PROTOCOL"
    ∷ "EFI_I2C_HOST_PROTOCOL" ∷ []

unfoldable pub names_8 : List String
names_8 =
    "EFI_I2C_BUS_CONFIGURATION_MANAGEMENT_PROTOCOL" ∷ "EFI_DEBUG_PORT_PROTOCOL"
    ∷ "EFI_DEBUG_SUPPORT_PROTOCOL" ∷ "EFI_DECOMPRESS_PROTOCOL" ∷ "EFI_DEVICE_IO_PROTOCOL"
    ∷ "EFI_DEVICE_PATH_PROTOCOL" ∷ "EFI_DEVICE_PATH_FROM_TEXT_PROTOCOL"
    ∷ "EFI_DEVICE_PATH_TO_TEXT_PROTOCOL" ∷ "EFI_DEVICE_PATH_UTILITIES_PROTOCOL"
    ∷ "EFI_DRIVER_BINDING_PROTOCOL" ∷ "EFI_PLATFORM_DRIVER_OVERRIDE_PROTOCOL"
    ∷ "EFI_DRIVER_FAMILY_OVERRIDE_PROTOCOL" ∷ "EFI_BUS_SPECIFIC_DRIVER_OVERRIDE_PROTOCOL"
    ∷ "EFI_DRIVER_DIAGNOSTICS2_PROTOCOL" ∷ "EFI_DRIVER_DIAGNOSTICS_PROTOCOL"
    ∷ "EFI_COMPONENT_NAME2_PROTOCOL" ∷ "EFI_COMPONENT_NAME_PROTOCOL"
    ∷ "EFI_DRIVER_CONFIGURATION2_PROTOCOL" ∷ "EFI_DRIVER_CONFIGURATION_PROTOCOL"
    ∷ "EFI_PLATFORM_TO_DRIVER_CONFIGURATION_PROTOCOL" ∷ "EFI_DRIVER_SUPPORTED_EFI_VERSION_PROTOCOL"
    ∷ "EFI_SIMPLE_TEXT_IN_PROTOCOL" ∷ "EFI_SIMPLE_TEXT_INPUT_EX_PROTOCOL"
    ∷ "EFI_SIMPLE_TEXT_OUT_PROTOCOL" ∷ "EFI_SIMPLE_POINTER_PROTOCOL"
    ∷ "EFI_ABSOLUTE_POINTER_PROTOCOL" ∷ "EFI_SERIAL_IO_PROTOCOL" ∷ "EFI_GRAPHICS_OUTPUT_PROTOCOL"
    ∷ "EFI_EDID_DISCOVERED_PROTOCOL" ∷ "EFI_EDID_ACTIVE_PROTOCOL" ∷ "EFI_EDID_OVERRIDE_PROTOCOL"
    ∷ "EFI_UGA_IO_PROTOCOL" ∷ "EFI_UGA_DRAW_PROTOCOL" ∷ "EFI_LOADED_IMAGE_PROTOCOL"
    ∷ "EFI_LOADED_IMAGE_DEVICE_PATH_PROTOCOL" ∷ "EFI_LOAD_FILE_PROTOCOL" ∷ "EFI_LOAD_FILE2_PROTOCOL"
    ∷ "EFI_SIMPLE_FILE_SYSTEM_PROTOCOL" ∷ "EFI_TAPE_IO_PROTOCOL" ∷ "EFI_DISK_IO_PROTOCOL"
    ∷ "EFI_BLOCK_IO_PROTOCOL" ∷ "EFI_UNICODE_COLLATION_PROTOCOL" ∷ "EFI_UNICODE_COLLATION2_PROTOCOL"
    ∷ "EFI_PCI_ROOT_BRIDGE_IO_PROTOCOL" ∷ "EFI_PCI_IO_PROTOCOL" ∷ "EFI_SCSI_IO_PROTOCOL"
    ∷ "EFI_EXT_SCSI_PASS_THRU_PROTOCOL" ∷ "EFI_SCSI_PASS_THRU_PROTOCOL"
    ∷ "EFI_ISCSI_INITIATOR_NAME_PROTOCOL" ∷ "EFI_USB2_HC_PROTOCOL" ∷ "EFI_USB_HC_PROTOCOL"
    ∷ "EFI_USB_IO_PROTOCOL" ∷ "EFI_ACPI_TABLE_PROTOCOL" ∷ "EFI_EBC_PROTOCOL"
    ∷ "EFI_SIMPLE_NETWORK_PROTOCOL" ∷ "EFI_NETWORK_INTERFACE_IDENTIFIER_PROTOCOL"
    ∷ "EFI_PXE_BASE_CODE_CALLBACK_PROTOCOL" ∷ "EFI_PXE_BASE_CODE_PROTOCOL" ∷ "EFI_BIS_PROTOCOL"
    ∷ "EFI_MANAGED_NETWORK_SERVICE_BINDING_PROTOCOL" ∷ "EFI_MANAGED_NETWORK_PROTOCOL"
    ∷ "EFI_ARP_SERVICE_BINDING_PROTOCOL" ∷ "EFI_ARP_PROTOCOL" ∷ "EFI_DHCP4_SERVICE_BINDING_PROTOCOL"
    ∷ "EFI_DHCP4_PROTOCOL" ∷ "EFI_TCP4_SERVICE_BINDING_PROTOCOL" ∷ "EFI_TCP4_PROTOCOL"
    ∷ "EFI_IP4_SERVICE_BINDING_PROTOCOL" ∷ "EFI_IP4_PROTOCOL" ∷ "EFI_IP4_CONFIG_PROTOCOL"
    ∷ "EFI_UDP4_SERVICE_BINDING_PROTOCOL" ∷ []
