-- ===== src/Guid/Names.antt =====
-- efi_guid.c, lines 868 to 1719, in six parts.
mod Part1
mod Part2
mod Part3
mod Part4
mod Part5
mod Part6
use Prim.Native.String.{String}
use efiperun_mod.Prelude.{List, ◌++◌}
use efiperun_mod.Guid.Names.Part1.{names_1, names_2}
use efiperun_mod.Guid.Names.Part2.{names_3, names_4}
use efiperun_mod.Guid.Names.Part3.{names_5, names_6}
use efiperun_mod.Guid.Names.Part4.{names_7, names_8}
use efiperun_mod.Guid.Names.Part5.{names_9, names_10}
use efiperun_mod.Guid.Names.Part6.{names_11, names_12}

unfoldable pub names : List String
unfolding names_1 names_2 names_3 names_4 names_5 names_6 names_7 names_8 names_9 names_10 names_11
    names_12
names =
    names_1
    ++ (names_2
        ++ (names_3
            ++ (names_4
                ++ (names_5
                    ++ (names_6
                        ++ (names_7
                            ++ (names_8
                                ++ (names_9 ++ (names_10 ++ (names_11 ++ (names_12)))))))))))
