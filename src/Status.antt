-- ===== src/Status.antt =====
-- stubs.cpp: the EFI_STATUS values that the services return.

pub data Status : Type 0 where
  success : Status
  invalid_parameter : Status
  not_found : Status
  buffer_too_small : Status
  unsupported : Status
