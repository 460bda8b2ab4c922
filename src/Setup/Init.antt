-- ===== src/Setup/Init.antt =====
-- efihooks.cpp: `efi_hooks_init`, put together.
use efiperun_mod.Prelude.{ℕ, List, ◌++◌}
use efiperun_mod.Guid.Defs.{Guid}
use efiperun_mod.Protocols.Multi.{MultiMap}
use efiperun_mod.Setup.{Table, Action, State, perform_all}
use efiperun_mod.Setup.Services.{runtime_actions, boot_actions, console_actions}
use efiperun_mod.Setup.Tables.{
  debug_mask_actions, smm_actions, graphics_actions, hii_actions, acpi_actions, image_actions,
  link_actions,
}

unfoldable pub init_actions : List Action
init_actions =
    runtime_actions
    ++ (boot_actions
        ++ (console_actions
            ++ (debug_mask_actions
                ++ (smm_actions
                    ++ (graphics_actions
                        ++ (hii_actions ++ (acpi_actions ++ (image_actions ++ link_actions))))))))

unfoldable pub efi_hooks_init :
    (g : MultiMap Guid (ℕ × ℕ)) → (Table → ℕ) → (Table → ℕ) → ℕ → State g → State g
efi_hooks_init g place size dummy s = perform_all g place size dummy init_actions s
