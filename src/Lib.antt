-- ===== src/Lib.antt =====
-- efiperun loads and runs EFI PE images on Linux. This library models its parts and proves what
-- makes them correct.
--
-- The parts and their files:
--   RangeMap.antt      vast/util/range_map.hpp: `range_map`, a map from disjoint half-open intervals.
--                      The `std::map` inside is the list of its entries in key order; an iterator is
--                      the two sides of a position in it.
--   Memory.antt        efiperun.cpp (`register_memory`, `lookup_memory`) and stubs.cpp
--                      (`can_access`): which module owns an address, over the map `g_memory_map`.
--                      Memory/Heap has `wrapped_mmap` of efiperun.cpp.
--   Guid.antt          efi_guid.c (the GUID constants and the array of names), main.h (equality and
--                      hash of GUIDs), efihooks.cpp (`guid_string`).
--   Loader.antt        peloader.c: `LdrProcessRelocationBlock` (Loader/Relocation), the header tests
--                      (Loader/Header), the sections (Loader/Sections) and `load_pe` (Loader/Load).
--                      The file and the mapping are bytes by address within bounds.
--   Protocols.antt     efihooks.cpp (`find_protocol`, `install_protocol`, `count_handles`) and the
--                      protocol services of stubs.cpp, over `g_interfaces`. Protocols/Multi is
--                      what C++ promises of `unordered_multimap`, and a list that keeps it.
--   Services.antt      stubs.cpp: `SetMem`, `CopyMem`, `AllocatePool`, `AllocatePages`. What the
--                      allocator gives out and the name of the caller are arguments.
--   Status.antt        the EFI_STATUS values of the services.
--   Queries.antt       stubs.cpp: `InstallMultipleProtocolInterfaces`, the monotonic counts, `InSmm`,
--                      `GetSmstLocation`, `QueryMode`.
--   Variables.antt     efihooks.cpp (`get_variable`, `set_variable`) and stubs.cpp (`GetVariable`,
--                      `SetVariable`). A stored name has no terminator: what the memory holds
--                      behind it is an argument.
--   Console.antt       efihooks.cpp: `char16_print`, over what `wcrtomb` gives.
--   Hooks.antt         efihooks.hpp: `GenericHook` and `DummyInterface`, as the bytes they put into
--                      memory; Hooks/Cpu runs the three instructions that occur.
--   Setup.antt         efihooks.cpp: `efi_hooks_init`, as the list of its statements (Setup/Services,
--                      Setup/Tables) and what each does (`perform`).
--   Directory.antt     vast/filesystem.cpp: the iterator of `directory`, over what `readdir` gives.
--   Acpi.antt          stubs.cpp (`GetAcpiTable`, `SetAcpiTable`) and debugmodule_example.cpp
--                      (`load_acpi_tables`).
--   Process.antt       efiperun.cpp: `run_pe` and `find_pe_caller_id`, over `g_memory_map` and
--                      `g_pe_map`. What the image's code does is an argument. Process/Pages is about
--                      what the loader's `mmap` registers, Process/Unaligned about an image that
--                      does not start where its mapping does.
--   Program.antt       efiperun.cpp: `stack_init`, `register_debug_module`, and `main` as the list of
--                      what it does.
--   Prelude.antt       shared names, Boolean tests, lists, C strings.
--   Tests.antt         runs at concrete inputs, and the theorems at such inputs.
--
-- The tracker stands on the interval map: `register_memory` erases a range and inserts its new
-- owner, and `can_access` walks over neighbouring intervals. `run_pe` calls the loader, whose
-- `mmap` is `wrapped_mmap` (peloader.c defines it so) and registers the mapping with the tracker, and
-- then registers the image with the tracker and in a second interval map. `load_acpi_tables` goes
-- over a directory and stores what it reads through `SetAcpiTable`.
--
-- Numbers are natural numbers. An address is below 2 ^ 64 and its arithmetic wraps; as a point of
-- the map, which is signed in the code, it is held as the signed value plus 2 ^ 63, so that the
-- order of points is the order of numbers.
--
-- In the loader an access outside the mapping or the file is undefined in C; the model ends there
-- with `fault`. What the system calls answer (`fstat`, `malloc`, `read`, `sysconf`, `mmap`) is a
-- record of the model, and no law of it is assumed but where a theorem says so.
--
-- Loops: `erase(l, r)` and `can_access` take fuel. One more than the number of entries is enough on
-- a well-formed map, and is what `erase_range` and `can_access` give.
-- The loop over the relocation blocks takes one more than the directory's size, since every block
-- takes 8 bytes of it or more.
--
-- The loop over a directory takes one more than the number of its entries.
--
-- Not modelled: messages, among them those of the functions that thunks call; the list that owns the
-- thunks of `efi_hooks_init`, in place of which a thunk is its name; the release of
-- the loader's buffer; vast/util/iterator.hpp and operators.hpp, templates that pass calls on to the
-- class that uses them; jemalloc, a copy of another project's library.
pub mod Acpi
pub mod Console
pub mod Directory
pub mod Guid
pub mod Hooks
pub mod Loader
pub mod Memory
pub mod Prelude
pub mod Process
pub mod Program
pub mod Protocols
pub mod Queries
pub mod RangeMap
pub mod Services
pub mod Setup
pub mod Status
pub mod Tests
pub mod Variables
