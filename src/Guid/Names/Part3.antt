-- ===== src/Guid/Names/Part3.antt =====
-- efi_guid.c, lines 1152 to 1293: the names in the array, whose entries point at the GUIDs in the
-- order of the file.
use Prim.Native.String.{String}
use efiperun_mod.Prelude.{List, [], ◌∷◌}

unfoldable pub names_5 : List String
names_5 =
    "EFI_EVENT_NOTIFICATION_TYPE_DMAR" ∷ "EFI_PROCESSOR_GENERIC_ERROR_SECTION"
    ∷ "EFI_PROCESSOR_SPECIFIC_ERROR_SECTION" ∷ "EFI_PLATFORM_MEMORY_ERROR_SECTION"
    ∷ "EFI_PCIE_ERROR_SECTION" ∷ "EFI_FIRMWARE_ERROR_SECTION" ∷ "EFI_PCI_BUS_ERROR_SECTION"
    ∷ "EFI_PCI_DEV_ERROR_SECTION" ∷ "EFI_DMAR_GENERIC_ERROR_SECTION"
    ∷ "EFI_DIRECTED_IO_DMAR_ERROR_SECTION" ∷ "EFI_IOMMU_DMAR_ERROR_SECTION"
    ∷ "EFI_EVENT_USER_PROFILE_CHANGED" ∷ "EFI_USER_CREDENTIAL_CLASS_UNKNOWN"
    ∷ "EFI_USER_CREDENTIAL_CLASS_PASSWORD" ∷ "EFI_USER_CREDENTIAL_CLASS_SMART_CARD"
    ∷ "EFI_USER_CREDENTIAL_CLASS_FINGERPRINT" ∷ "EFI_USER_CREDENTIAL_CLASS_HANDPRINT"
    ∷ "EFI_USER_CREDENTIAL_CLASS_SECURE_CARD" ∷ "EFI_USER_INFO_ACCESS_SETUP_ADMIN"
    ∷ "EFI_USER_INFO_ACCESS_SETUP_NORMAL" ∷ "EFI_USER_INFO_ACCESS_SETUP_RESTRICTED"
    ∷ "EFI_IMAGE_SECURITY_DATABASE" ∷ "EFI_CERT_SHA256" ∷ "EFI_CERT_RSA2048"
    ∷ "EFI_CERT_RSA2048_SHA256" ∷ "EFI_CERT_SHA1" ∷ "EFI_CERT_RSA2048_SHA1" ∷ "EFI_CERT_X509"
    ∷ "EFI_KMS_FORMAT_GENERIC128" ∷ "EFI_KMS_FORMAT_GENERIC160" ∷ "EFI_KMS_FORMAT_GENERIC256"
    ∷ "EFI_KMS_FORMAT_GENERIC512" ∷ "EFI_KMS_FORMAT_GENERIC1024" ∷ "EFI_KMS_FORMAT_GENERIC2048"
    ∷ "EFI_KMS_FORMAT_GENERIC3072" ∷ "EFI_KMS_FORMAT_MD2128" ∷ "EFI_KMS_FORMAT_MDC2128"
    ∷ "EFI_KMS_FORMAT_MD4128" ∷ "EFI_KMS_FORMAT_MDC4128" ∷ "EFI_KMS_FORMAT_MD5128"
    ∷ "EFI_KMS_FORMAT_MD5SHA128" ∷ "EFI_KMS_FORMAT_SHA1160" ∷ "EFI_KMS_FORMAT_SHA256256"
    ∷ "EFI_KMS_FORMAT_SHA512512" ∷ "EFI_KMS_FORMAT_AESXTS128" ∷ "EFI_KMS_FORMAT_AESXTS256"
    ∷ "EFI_KMS_FORMAT_AESCBC128" ∷ "EFI_KMS_FORMAT_AESCBC256" ∷ "EFI_KMS_FORMAT_RSASHA11024"
    ∷ "EFI_KMS_FORMAT_RSASHA12048" ∷ "EFI_KMS_FORMAT_RSASHA2562048" ∷ "EFI_KMS_FORMAT_RSASHA2563072"
    ∷ "EFI_CERT_SHA224" ∷ "EFI_CERT_SHA384" ∷ "EFI_CERT_SHA512" ∷ "EFI_CERT_PKCS7"
    ∷ "EFI_HASH_ALGORITHM_SHA1_NO_PAD" ∷ "EFI_HASH_ALGORITHM_SHA256_NO_PAD" ∷ "EFI_FMP_CAPSULE"
    ∷ "EFI_CERT_X509_SHA256" ∷ "EFI_CERT_X509_SHA384" ∷ "EFI_CERT_X509_SHA512"
    ∷ "EFI_RNG_ALGORITHM_SP80090_HASH256" ∷ "EFI_RNG_ALGORITHM_SP80090_HMAC256"
    ∷ "EFI_RNG_ALGORITHM_SP80090_CTR256" ∷ "EFI_RNG_ALGORITHM_X9313_DES"
    ∷ "EFI_RNG_ALGORITHM_X931_AES" ∷ "EFI_ADAPTER_INFO_MEDIA_STATE"
    ∷ "EFI_ADAPTER_INFO_NETWORK_BOOT" ∷ "EFI_ADAPTER_INFO_SAN_MAC_ADDRESS" ∷ "APRIORI" ∷ []

unfoldable pub names_6 : List String
names_6 =
    "EFI_FIRMWARE_FILE_SYSTEM2" ∷ "EFI_FIRMWARE_VOLUME_TOP_FILE" ∷ "EFI_HOB_MEMORY_ALLOC_MODULE"
    ∷ "EFI_HOB_MEMORY_ALLOC_STACK" ∷ "EFI_HOB_MEMORY_ALLOC_BSP_STORE" ∷ "EFI_EVENT_LEGACY_BOOT"
    ∷ "EFI_HOB_LIST" ∷ "EFI_DXE_SERVICES_TABLE" ∷ "EFI_MDE_PKG_TOKEN_SPACE"
    ∷ "EFI_HARDWARE_ERROR_VARIABLE" ∷ "EFI_EVENT_DXE_DISPATCH" ∷ "EFI_DISK_INFO_IDE_INTERFACE"
    ∷ "EFI_DISK_INFO_SCSI_INTERFACE" ∷ "EFI_DISK_INFO_USB_INTERFACE"
    ∷ "EFI_DISK_INFO_AHCI_INTERFACE" ∷ "EFI_STATUS_CODE_DATA_TYPE_STRING"
    ∷ "EFI_STATUS_CODE_SPECIFIC_DATA" ∷ "EFI_FIRMWARE_FILE_SYSTEM3" ∷ "EFI_END_OF_DXE_EVENT_GROUP"
    ∷ "EFI_FIRMWARE_CONTENTS_SIGNED" ∷ "EFI_VECTOR_HANDOFF_TABLE" ∷ "ADAPTER_INFO_PLATFORM_SECURITY"
    ∷ "EFI_IA32_X64_ERROR_TYPE_CACHE_CHECK" ∷ "EFI_IA32_X64_ERROR_TYPE_TLB_CHECK"
    ∷ "EFI_IA32_X64_ERROR_TYPE_BUS_CHECK" ∷ "EFI_IA32_X64_ERROR_TYPE_MS_CHECK"
    ∷ "EFI_PEI_MASTER_BOOT_MODE_PPI" ∷ "EFI_DXE_IPL_PPI" ∷ "EFI_PEI_MEMORY_DISCOVERED_PPI"
    ∷ "EFI_PEI_BOOT_IN_RECOVERY_MODE_PPI" ∷ "EFI_END_OF_PEI_SIGNAL_PPI" ∷ "EFI_PEI_RESET_PPI"
    ∷ "EFI_PEI_STATUS_CODE_PPI" ∷ "EFI_PEI_SECURITY2_PPI" ∷ "EFI_TEMPORARY_RAM_SUPPORT_PPI"
    ∷ "EFI_PEI_CPU_IO_PPI_INSTALLED" ∷ "EFI_PCI_CFG2_PPI" ∷ "EFI_PEI_STALL_PPI"
    ∷ "EFI_PEI_READ_ONLY_VARIABLE2_PPI" ∷ "EFI_SEC_PLATFORM_INFORMATION_PPI"
    ∷ "EFI_PEI_LOADED_IMAGE_PPI" ∷ "EFI_PEI_SMBUS2_PPI" ∷ "EFI_PEI_FIRMWARE_VOLUME_INFO_PPI"
    ∷ "EFI_PEI_LOAD_FILE_PPI" ∷ "EFI_PEI_DECOMPRESS_PPI" ∷ "PCD_PPI" ∷ "GET_PCD_INFO_PPI"
    ∷ "EFI_PEI_RECOVERY_MODULE_PPI" ∷ "EFI_PEI_DEVICE_RECOVERY_MODULE_PPI"
    ∷ "EFI_PEI_VIRTUAL_BLOCK_IO_PPI" ∷ "EFI_PEI_S3_RESUME2_PPI" ∷ "EFI_PEI_RSC_HANDLER_PPI"
    ∷ "EFI_PEI_PCD_PPI" ∷ "EFI_GET_PCD_INFO_PPI" ∷ "EFI_TEMPORARY_RAM_DONE_PPI"
    ∷ "EFI_VECTOR_HANDOFF_INFO_PPI" ∷ "EFI_PEI_I2C_MASTER_PPI" ∷ "EFI_PEI_FIRMWARE_VOLUME_INFO2_PPI"
    ∷ "PCD_PROTOCOL" ∷ "GET_PCD_INFO_PROTOCOL" ∷ "EFI_BDS_ARCH_PROTOCOL" ∷ "EFI_CPU_ARCH_PROTOCOL"
    ∷ "EFI_METRONOME_ARCH_PROTOCOL" ∷ "EFI_MONOTONIC_COUNTER_ARCH_PROTOCOL"
    ∷ "EFI_REAL_TIME_CLOCK_ARCH_PROTOCOL" ∷ "EFI_RESET_ARCH_PROTOCOL" ∷ "EFI_RUNTIME_ARCH_PROTOCOL"
    ∷ "EFI_SECURITY_ARCH_PROTOCOL" ∷ "EFI_SECURITY_POLICY_PROTOCOL" ∷ "EFI_TIMER_ARCH_PROTOCOL"
    ∷ "EFI_VARIABLE_WRITE_ARCH_PROTOCOL" ∷ []
