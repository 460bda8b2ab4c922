-- ===== src/Guid/Values.antt =====
-- efi_guid.c, lines 9 to 860, in six parts.
mod Part1
mod Part2
mod Part3
mod Part4
mod Part5
mod Part6
use efiperun_mod.Prelude.{List, ◌++◌}
use efiperun_mod.Guid.Defs.{Guid}
use efiperun_mod.Guid.Values.Part1.{guids_1, guids_2}
use efiperun_mod.Guid.Values.Part2.{guids_3, guids_4}
use efiperun_mod.Guid.Values.Part3.{guids_5, guids_6}
use efiperun_mod.Guid.Values.Part4.{guids_7, guids_8}
use efiperun_mod.Guid.Values.Part5.{guids_9, guids_10}
use efiperun_mod.Guid.Values.Part6.{guids_11, guids_12}

unfoldable pub guids : List Guid
unfolding guids_1 guids_2 guids_3 guids_4 guids_5 guids_6 guids_7 guids_8 guids_9 guids_10 guids_11
    guids_12
guids =
    guids_1
    ++ (guids_2
        ++ (guids_3
            ++ (guids_4
                ++ (guids_5
                    ++ (guids_6
                        ++ (guids_7
                            ++ (guids_8
                                ++ (guids_9 ++ (guids_10 ++ (guids_11 ++ (guids_12)))))))))))
