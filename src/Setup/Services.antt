-- ===== src/Setup/Services.antt =====
-- efihooks.cpp, `efi_hooks_init`: the fields of the services and of the consoles.
use efiperun_mod.Prelude.{List, [], ◌∷◌}
use efiperun_mod.Setup.{
  Action, assign, function, aborthook, dummyhook, boot_services, con_in, con_out, runtime_services,
  std_err,
}

-- the runtime services
unfoldable pub runtime_actions : List Action
runtime_actions =
    dummyhook runtime_services "GetTime"
    ∷ aborthook runtime_services "SetTime"
    ∷ aborthook runtime_services "GetWakeupTime"
    ∷ aborthook runtime_services "SetWakeupTime"
    ∷ aborthook runtime_services "SetVirtualAddressMap"
    ∷ aborthook runtime_services "ConvertPointer"
    ∷ assign runtime_services "GetVariable" (function "GetVariable")
    ∷ aborthook runtime_services "GetNextVariableName"
    ∷ assign runtime_services "SetVariable" (function "SetVariable")
    ∷ assign runtime_services "GetNextHighMonotonicCount" (function "GetNextHighMonotonicCount")
    ∷ aborthook runtime_services "ResetSystem"
    ∷ []

-- the boot services
unfoldable pub boot_actions : List Action
boot_actions =
    dummyhook boot_services "RaiseTPL"
    ∷ dummyhook boot_services "RestoreTPL"
    ∷ assign boot_services "AllocatePages" (function "AllocatePages")
    ∷ aborthook boot_services "FreePages"
    ∷ aborthook boot_services "GetMemoryMap"
    ∷ assign boot_services "AllocatePool" (function "AllocatePool")
    ∷ dummyhook boot_services "FreePool"
    ∷ dummyhook boot_services "CreateEvent"
    ∷ aborthook boot_services "SetTimer"
    ∷ aborthook boot_services "WaitForEvent"
    ∷ dummyhook boot_services "SignalEvent"
    ∷ dummyhook boot_services "CloseEvent"
    ∷ aborthook boot_services "CheckEvent"
    ∷ assign boot_services "InstallProtocolInterface" (function "InstallProtocolInterface")
    ∷ aborthook boot_services "ReinstallProtocolInterface"
    ∷ dummyhook boot_services "UninstallProtocolInterface"
    ∷ assign boot_services "HandleProtocol" (function "HandleProtocol")
    ∷ aborthook boot_services "PCHandleProtocol"
    ∷ dummyhook boot_services "RegisterProtocolNotify"
    ∷ aborthook boot_services "LocateHandle"
    ∷ aborthook boot_services "LocateDevicePath"
    ∷ aborthook boot_services "InstallConfigurationTable"
    ∷ aborthook boot_services "LoadImage"
    ∷ aborthook boot_services "StartImage"
    ∷ aborthook boot_services "Exit"
    ∷ aborthook boot_services "UnloadImage"
    ∷ aborthook boot_services "ExitBootServices"
    ∷ assign boot_services "GetNextMonotonicCount" (function "GetNextMonotonicCount")
    ∷ aborthook boot_services "Stall"
    ∷ aborthook boot_services "SetWatchdogTimer"
    ∷ aborthook boot_services "ConnectController"
    ∷ aborthook boot_services "DisconnectController"
    ∷ assign boot_services "OpenProtocol" (function "HandleProtocol")
    ∷ aborthook boot_services "CloseProtocol"
    ∷ aborthook boot_services "OpenProtocolInformation"
    ∷ aborthook boot_services "ProtocolsPerHandle"
    ∷ assign boot_services "LocateHandleBuffer" (function "LocateHandleBuffer")
    ∷ assign boot_services "LocateProtocol" (function "LocateProtocol")
    ∷ assign boot_services "InstallMultipleProtocolInterfaces"
        (function "InstallMultipleProtocolInterfaces")
    ∷ aborthook boot_services "UninstallMultipleProtocolInterfaces"
    ∷ aborthook boot_services "CalculateCrc32"
    ∷ assign boot_services "CopyMem" (function "CopyMem")
    ∷ assign boot_services "SetMem" (function "SetMem")
    ∷ dummyhook boot_services "CreateEventEx"
    ∷ []

-- the consoles
unfoldable pub console_actions : List Action
console_actions =
    aborthook con_in "Reset"
    ∷ aborthook con_in "ReadKeyStroke"
    ∷ aborthook con_in "WaitForKey"
    ∷ aborthook con_out "Reset"
    ∷ assign con_out "OutputString" (function "OutputString")
    ∷ aborthook con_out "TestString"
    ∷ assign con_out "QueryMode" (function "QueryMode")
    ∷ aborthook con_out "SetMode"
    ∷ dummyhook con_out "SetAttribute"
    ∷ dummyhook con_out "ClearScreen"
    ∷ aborthook con_out "SetCursorPosition"
    ∷ aborthook con_out "EnableCursor"
    ∷ aborthook std_err "Reset"
    ∷ assign std_err "OutputString" (function "OutputString")
    ∷ aborthook std_err "TestString"
    ∷ assign std_err "QueryMode" (function "QueryMode")
    ∷ aborthook std_err "SetMode"
    ∷ dummyhook std_err "SetAttribute"
    ∷ dummyhook std_err "ClearScreen"
    ∷ aborthook std_err "SetCursorPosition"
    ∷ aborthook std_err "EnableCursor"
    ∷ []
