-- ===== src/Guid.antt =====
-- efi_guid.c, and the GUID type and functions of main.h and efihooks.cpp.
pub mod Defs
pub mod Laws
pub mod Values
pub mod Names
pub mod Strings
pub mod Print
