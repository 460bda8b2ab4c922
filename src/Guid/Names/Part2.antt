-- ===== src/Guid/Names/Part2.antt =====
-- efi_guid.c, lines 1010 to 1151: the names in the array, whose entries point at the GUIDs in the
-- order of the file.
use Prim.Native.String.{String}
use efiperun_mod.Prelude.{List, [], ◌∷◌}

unfoldable pub names_3 : List String
names_3 =
    "FSP_INIT_DONE_PPI" ∷ "TOP_OF_TEMPORARY_RAM_PPI" ∷ "EFI_MDE_MODULE_PKG_TOKEN_SPACE"
    ∷ "PCD_DATA_BASE_HOB" ∷ "PCD_DATA_BASE_SIGNATURE" ∷ "EFI_IFR_TIANO" ∷ "EFI_IFR_FRAMEWORK"
    ∷ "EFI_SYSTEM_NV_DATA_FV" ∷ "EDKII_WORKING_BLOCK_SIGNATURE" ∷ "EDKII_FAULT_TOLERANT_WRITE"
    ∷ "EFI_CONSOLE_OUT_DEVICE" ∷ "EFI_CONSOLE_IN_DEVICE" ∷ "EFI_MEMORY_TYPE_INFORMATION"
    ∷ "EFI_CAPSULE_VENDOR" ∷ "EFI_STANDARD_ERROR_DEVICE" ∷ "EFI_VARIABLE"
    ∷ "EFI_VARIABLE_INDEX_TABLE" ∷ "SMM_VARIABLE_WRITE" ∷ "PERFORMANCE_PROTOCOL"
    ∷ "SMM_PERFORMANCE_PROTOCOL" ∷ "PERFORMANCE_EX_PROTOCOL" ∷ "SMM_PERFORMANCE_EX_PROTOCOL"
    ∷ "EFI_CRC32_GUIDED_SECTION_EXTRACTION" ∷ "EFI_NIC_IP4_CONFIG_VARIABLE" ∷ "STATUS_CODE_CALLBACK"
    ∷ "MEMORY_STATUS_CODE_RECORD" ∷ "EFI_STATUS_CODE_DATA_TYPE_DEBUG"
    ∷ "LOAD_FIXED_ADDRESS_CONFIGURATION_TABLE" ∷ "EFI_GENERIC_VARIABLE" ∷ "IDLE_LOOP_EVENT"
    ∷ "RECOVERY_ON_FAT_USB_DISK" ∷ "RECOVERY_ON_FAT_IDE_DISK" ∷ "RECOVERY_ON_FAT_FLOPPY_DISK"
    ∷ "RECOVERY_ON_DATA_CD" ∷ "EFI_SMM_LOCK_BOX_COMMUNICATION" ∷ "EFI_ACPI_VARIABLE"
    ∷ "EFI_ACPI_S3_CONTEXT" ∷ "EFI_BOOT_SCRIPT_EXECUTOR_VARIABLE"
    ∷ "EFI_BOOT_SCRIPT_EXECUTOR_CONTEXT" ∷ "USB_KEYBOARD_LAYOUT_PACKAGE" ∷ "USB_KEYBOARD_LAYOUT_KEY"
    ∷ "HII_RESOURCE_SAMLE_FORM_SET" ∷ "DRIVER_SAMPLE_FORM_SET" ∷ "DRIVER_SAMPLE_INVENTORY"
    ∷ "EFI_IFR_REFRESH_ID_OP" ∷ "PLATFORM_OVERRIDES_MANAGER" ∷ "NIC_IP4_CONFIG_NV_DATA"
    ∷ "VLAN_CONFIG_FORM_SET" ∷ "IP4_ISCSI_CONFIG" ∷ "ISCSI_CHAPAUTH_INFO" ∷ "ZERO" ∷ "MTC_VENDOR"
    ∷ "EFI_FIRMWARE_PERFORMANCE" ∷ "FIRMWARE_PERFORMANCE_S3_POINTER"
    ∷ "EVENT_EXIT_BOOT_SERVICES_FAILED" ∷ "CONNECT_CON_IN_EVENT"
    ∷ "EDKII_STATUS_CODE_DATA_TYPE_VARIABLE" ∷ "EDKII_MEMORY_PROFILE" ∷ "EDKII_VAR_ERROR_FLAG"
    ∷ "PEI_ATA_CONTROLLER_PPI" ∷ "PEI_USB_HOST_CONTROLLER_PPI" ∷ "PEI_USB2_HOST_CONTROLLER_PPI"
    ∷ "PEI_USB_CONTROLLER_PPI" ∷ "PEI_USB_IO_PPI" ∷ "PEI_CAPSULE_PPI" ∷ "PEI_SEC_PERFORMANCE_PPI"
    ∷ "EFI_PEI_SMM_COMMUNICATION_PPI" ∷ "PEI_SMM_ACCESS_PPI" ∷ "PEI_SMM_CONTROL_PPI"
    ∷ "PEI_POST_SCRIPT_TABLE_PPI" ∷ "PEI_SERIAL_PORT_PPI" ∷ []

unfoldable pub names_4 : List String
names_4 =
    "EFI_LOAD_PE_IMAGE_PROTOCOL" ∷ "EFI_PRINT2_PROTOCOL" ∷ "EFI_GENERIC_MEM_TEST_PROTOCOL"
    ∷ "EFI_DPC_PROTOCOL" ∷ "EFI_FAULT_TOLERANT_WRITE_PROTOCOL"
    ∷ "EFI_SMM_FAULT_TOLERANT_WRITE_PROTOCOL" ∷ "EFI_SWAP_ADDRESS_RANGE_PROTOCOL"
    ∷ "EFI_SMM_SWAP_ADDRESS_RANGE_PROTOCOL" ∷ "EFI_SMM_VARIABLE_PROTOCOL"
    ∷ "EDKII_VARIABLE_LOCK_PROTOCOL" ∷ "EDKII_VAR_CHECK_PROTOCOL" ∷ "EDKII_SMM_VAR_CHECK_PROTOCOL"
    ∷ "EFI_SMM_FIRMWARE_VOLUME_BLOCK_PROTOCOL" ∷ "EFI_DEBUG_MASK_PROTOCOL" ∷ "EFI_LOCK_BOX_PROTOCOL"
    ∷ "EFI_FORM_BROWSER_EX_PROTOCOL" ∷ "EFI_EBC_VM_TEST_PROTOCOL"
    ∷ "EFI_EBC_SIMPLE_DEBUGGER_PROTOCOL" ∷ "EFI_BOOT_LOGO_PROTOCOL"
    ∷ "EDKII_FORM_DISPLAY_ENGINE_PROTOCOL" ∷ "EDKII_FORM_BROWSER_EX2_PROTOCOL"
    ∷ "EFI_GLOBAL_VARIABLE" ∷ "EFI_VT100_PLUS" ∷ "EFI_VT100" ∷ "EFI_PC_ANSI" ∷ "EFI_VTUTF8"
    ∷ "EFI_UART_DEVICE_PATH" ∷ "EFI_SAS_DEVICE_PATH" ∷ "EFI_PART_TYPE_LEGACY_MBR"
    ∷ "EFI_PART_TYPE_SYSTEM_PART" ∷ "EFI_PART_TYPE_UNUSED" ∷ "EFI_DEBUG_IMAGE_INFO_TABLE"
    ∷ "EFI_ACPI_TABLE" ∷ "EFI_ACPI20_TABLE" ∷ "EFI_ACPI10_TABLE" ∷ "EFI_SMBIOS_TABLE"
    ∷ "EFI_MPS_TABLE" ∷ "EFI_SAL_SYSTEM_TABLE" ∷ "EFI_AUTHENTICATION_CHAP_LOCAL"
    ∷ "EFI_AUTHENTICATION_CHAP_RADIUS" ∷ "EFI_FILE_SYSTEM_VOLUME_LABEL_INFO_ID"
    ∷ "EFI_FILE_SYSTEM_INFO" ∷ "EFI_FILE_INFO" ∷ "BOOT_OBJECT_AUTHORIZATION_PARMSET"
    ∷ "EFI_PLATFORM_TO_DRIVER_CONFIGURATION_CLP" ∷ "EFI_HII_KEY_BOARD_LAYOUT"
    ∷ "EFI_HASH_ALGORITHM_MD5" ∷ "EFI_HASH_ALGORITHM_SHA512" ∷ "EFI_HASH_ALGORITHM_SHA384"
    ∷ "EFI_HASH_ALGORITHM_SHA256" ∷ "EFI_HASH_ALGORITHM_SHA224" ∷ "EFI_HASH_ALGORITHM_SHA1"
    ∷ "EFI_EVENT_READY_TO_BOOT" ∷ "EFI_EVENT_MEMORY_MAP_CHANGE" ∷ "EFI_EVENT_VIRTUAL_ADDRESS_CHANGE"
    ∷ "EFI_EVENT_EXIT_BOOT_SERVICES" ∷ "EFI_DEBUG_PORT_VARIABLE" ∷ "EFI_DEBUG_PORT_DEVICE_PATH"
    ∷ "EFI_HII_PLATFORM_SETUP_FORMSET" ∷ "EFI_HII_DRIVER_HEALTH_FORMSET"
    ∷ "EFI_HII_USER_CREDENTIAL_FORMSET" ∷ "EFI_HII_STANDARD_FORM"
    ∷ "EFI_MEMORY_OVERWRITE_CONTROL_DATA" ∷ "EFI_CERT_TYPE_RSA2048_SHA256"
    ∷ "EFI_EVENT_NOTIFICATION_TYPE_CMC" ∷ "EFI_EVENT_NOTIFICATION_TYPE_CPE"
    ∷ "EFI_EVENT_NOTIFICATION_TYPE_MCE" ∷ "EFI_EVENT_NOTIFICATION_TYPE_PCIE"
    ∷ "EFI_EVENT_NOTIFICATION_TYPE_INIT" ∷ "EFI_EVENT_NOTIFICATION_TYPE_NMI"
    ∷ "EFI_EVENT_NOTIFICATION_TYPE_BOOT" ∷ []
