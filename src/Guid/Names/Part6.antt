-- ===== src/Guid/Names/Part6.antt =====
-- efi_guid.c, lines 1578 to 1719: the names in the array, whose entries point at the GUIDs in the
-- order of the file.
use Prim.Native.String.{String}
use efiperun_mod.Prelude.{List, [], ◌∷◌}

unfoldable pub names_11 : List String
names_11 =
    "BMP_IMAGE" ∷ "OS_SELECTION_VARIABLE" ∷ "EFI_ACTIVE_BIOS_PROTOCOL" ∷ "EFI_PLATFORM_CPU_PROTOCOL"
    ∷ "DXE_PCH_PLATFORM_POLICY_PROTOCOL" ∷ "EFI_TPM_MP_DRIVER_PROTOCOL"
    ∷ "EFI_LPC_WPCE791_POLICY_PROTOCOL" ∷ "USB_POLICY" ∷ "EFI_SPEAKER_INTERFACE_PROTOCOL"
    ∷ "DXE_VLV_PLATFORM_POLICY" ∷ "EFI_SMBIOS_SLOT_POPULATION" ∷ "OBSERVABLE_PROTOCOL"
    ∷ "EFI_CK505_CLOCK_PLATFORM_INFO" ∷ "EFI_LPC_WPC83627_POLICY_PROTOCOL"
    ∷ "EFI_TCO_RESET_PROTOCOL" ∷ "EFI_WATCHDOG_TIMER_DRIVER_PROTOCOL"
    ∷ "EFI_PLATFORM_IDE_INIT_PROTOCOL" ∷ "ENHANCED_SPEEDSTEP_PROTOCOL" ∷ "PLATFORM_GOPPOLICY"
    ∷ "EFI_GOP_DISPLAY_BRIGHTNESS_PROTOCOL" ∷ "EFI_USB_KEYBOARD_CONNECT"
    ∷ "EFI_MMIO_DEVICE_PROTOCOL" ∷ "EFI_I2C_BUS_CONFIGURATION_MANAGEMENT_PROTOCOL2"
    ∷ "EFI_I2C_ACPI_PROTOCOL" ∷ "EFI_I2C_MASTER_PROTOCOL2" ∷ "EFI_I2C_HOST_PROTOCOL2"
    ∷ "EFI_I2C_BUS_PROTOCOL" ∷ "EFI_I2C_SLAVE_PROTOCOL" ∷ "EFI_SPI_ACPI_PROTOCOL"
    ∷ "EFI_SPI_HOST_PROTOCOL" ∷ "EFI_SPI_BUS_PROTOCOL" ∷ "LPSS_DUMMY_PROTOCOL" ∷ "EFI_SPI_PROTOCOL"
    ∷ "EFI_GPIO_OPERATION_PROTOCOL" ∷ "EFI_ESRT_OPERATION_PROTOCOL" ∷ "EFI_FW_DISPLAY_CAPSULE"
    ∷ "EFI_FIRMWARE_CLASS" ∷ "EFI_DFUVER" ∷ "EFI_ESRT_TABLE" ∷ "EFI_CAPSULE_CRASH_LOG_VAR"
    ∷ "EFI_CAPSULE_CRASH" ∷ "EFI_SECURITY_PKG_TOKEN_SPACE" ∷ "EFI_AUTHENTICATED_VARIABLE"
    ∷ "EFI_SECURE_BOOT_ENABLE_DISABLE" ∷ "EFI_CUSTOM_MODE_ENABLE" ∷ "EFI_VENDOR_KEYS_NV"
    ∷ "EFI_CERT_DB" ∷ "TCG_EVENT_ENTRY_HOB" ∷ "TPM_ERROR_HOB" ∷ "MEASURED_FV_HOB"
    ∷ "EFI_PHYSICAL_PRESENCE" ∷ "PWD_CREDENTIAL_PROVIDER" ∷ "USB_CREDENTIAL_PROVIDER"
    ∷ "USER_IDENTIFY_MANAGER" ∷ "USER_PROFILE_MANAGER" ∷ "TCG_CONFIG_FORM_SET"
    ∷ "SECURE_BOOT_CONFIG_FORM_SET" ∷ "EFI_TR_EEPHYSICAL_PRESENCE" ∷ "EFI_TPM_DEVICE_INSTANCE_NONE"
    ∷ "EFI_TPM_DEVICE_INSTANCE_TPM12" ∷ "EFI_TPM_DEVICE_INSTANCE_TPM20_DTPM"
    ∷ "EFI_TPM_DEVICE_SELECTED" ∷ "TR_EECONFIG_FORM_SET" ∷ "PEI_LOCK_PHYSICAL_PRESENCE_PPI"
    ∷ "PEI_TPM_INITIALIZED_PPI" ∷ "PEI_TPM_INITIALIZATION_DONE_PPI"
    ∷ "EFI_PEI_FIRMWARE_VOLUME_INFO_MEASUREMENT_EXCLUDED_PPI" ∷ "EFI_SHELL_ENVIRONMENT2_EXT"
    ∷ "EFI_SHELL_PKG_TOKEN_SPACE" ∷ "SHELL_VARIABLE" ∷ "SHELL_MAP" ∷ []

unfoldable pub names_12 : List String
names_12 =
    "SHELL_ALIAS" ∷ "HANDLE_PARSING_HII" ∷ "SHELL_DEBUG1_HII" ∷ "SHELL_DRIVER1_HII"
    ∷ "SHELL_INSTALL1_HII" ∷ "SHELL_LEVEL1_HII" ∷ "SHELL_LEVEL2_HII" ∷ "SHELL_LEVEL3_HII"
    ∷ "SHELL_NETWORK1_HII" ∷ "SHELL_BCFG_HII" ∷ "EFI_SHELL_PROTOCOL"
    ∷ "EFI_SHELL_PARAMETERS_PROTOCOL" ∷ "EFI_SHELL_ENVIRONMENT2" ∷ "EFI_SHELL_INTERFACE"
    ∷ "EFI_SHELL_DYNAMIC_COMMAND_PROTOCOL" ∷ "EFI_DEBUG_AGENT"
    ∷ "EFI_SOURCE_LEVEL_DEBUG_PKG_TOKEN_SPACE" ∷ "STD_LIB_TOKEN_SPACE" ∷ "EFI_SOCKET_PROTOCOL"
    ∷ "EFI_SOCKET_SERVICE_BINDING_PROTOCOL" ∷ "UEFI_CPU_PKG_TOKEN_SPACE" ∷ "VLV_POLICY_PPI"
    ∷ "VLV_MMIO_POLICY_PPI" ∷ "SE_CF_TPMPPI" ∷ "PCH_USB_POLICY_PPI" ∷ "PCH_INIT_PPI"
    ∷ "PCH_PLATFORM_POLICY_PPI" ∷ "PEI_SPI_PPI" ∷ "VLV_PEI_INIT_PPI" ∷ "SE_CUMA_PPI"
    ∷ "PEI_SE_CPLATFORM_POLICY_PPI" ∷ "PEI_HECI_PPI" ∷ "PEI_SDHC_PPI" ∷ "PEI_BLOCK_IO_PPI"
    ∷ "SE_CF_TPMPOLICY_PPI" ∷ "PCH_PEI_INIT_PPI" ∷ "EFI_GLOBAL_NVS_AREA_PROTOCOL"
    ∷ "PPM_PLATFORM_POLICY_PROTOCOL" ∷ "MEM_INFO_PROTOCOL" ∷ "EFI_SD_HOST_IO_PROTOCOL"
    ∷ "EFI_SMM_SPI_PROTOCOL" ∷ "EFI_SMM_ICHN_DISPATCH_EX_PROTOCOL" ∷ "EFI_PCH_S3_SUPPORT_PROTOCOL"
    ∷ "PCH_RESET_PROTOCOL" ∷ "PCH_RESET_CALLBACK_PROTOCOL" ∷ "EFI_PCH_INFO_PROTOCOL"
    ∷ "EFI_PCH_EXTENDED_RESET_PROTOCOL" ∷ "DXE_ICH_PLATFORM_POLICY_PROTOCOL"
    ∷ "EFI_ICH_INFO_PROTOCOL" ∷ "EFI_SMM_IO_TRAP_DISPATCH_PROTOCOL" ∷ "EFI_SMM_SMBUS_PROTOCOL"
    ∷ "IGD_OP_REGION_PROTOCOL" ∷ "EFI_HECI_PROTOCOL" ∷ "PLATFORM_SE_CHOOK_PROTOCOL"
    ∷ "EFI_SE_CRC_INFO_PROTOCOL" ∷ "EFI_TDT_PROTOCOL" ∷ "DXE_PLATFORM_SE_CPOLICY"
    ∷ "EFI_EMMC_CARD_INFO_PROTOCOL" ∷ "EFI_TDT_OPERATION_PROTOCOL" ∷ "EFI_DFURESULT"
    ∷ "EFI_CPTOKEN_SPACE" ∷ "EFI_SMBUS_ARP_MAP" ∷ "EFI_VLVTOKEN_SPACE" ∷ "SATA_CONTROLLER_DRIVER"
    ∷ "DXE_PCH_POLICY_UPDATE_PROTOCOL" ∷ "POWER_MANAGEMENT_ACPI_TABLE_STORAGE" ∷ "PCH_INIT_VARIABLE"
    ∷ "VLV_REF_CODE_PKG_TOKEN_SPACE" ∷ "SE_CPLATFORM_READY_TO_BOOT" ∷ "AMT_READY_TO_BOOT"
    ∷ "EFI_VLV2_VARIABLE" ∷ []
