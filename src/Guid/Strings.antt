-- ===== src/Guid/Strings.antt =====
-- efihooks.cpp, `guid_string`, over the array `g_guid_names` of efi_guid.c.
use Prim.Native.String.{String}
use efiperun_mod.Prelude.{ℕ, Option, none, some, List, [], ◌∷◌, ◌++◌, if◌then◌else◌}
use efiperun_mod.Prelude.Text.{codes, snprintf, hex}
use efiperun_mod.Guid.Defs.{Guid, guid_equal}
use efiperun_mod.Guid.Values.{guids}
use efiperun_mod.Guid.Names.{names}

-- an entry of the array: the GUID it points at and its name
pub record GuidName : Type 0 where
  pub value : Guid
  pub name : String

-- the entry `{NULL, NULL}` ends the array, as the end of the list does here
unfoldable pub entries : List Guid → List String → List GuidName
entries (g ∷ gs) (s ∷ ss) = record { value = g; name = s } ∷ entries gs ss
entries gs ss = []

unfoldable pub guid_names : List GuidName
unfolding entries guids names
guid_names = entries guids names

-- the loop over the array
unfoldable pub find_name : List GuidName → Guid → Option String
unfolding guid_equal
find_name [] g = none
find_name (p ∷ rest) g = if guid_equal p.value g then some p.name else find_name rest g

-- `"%08x-%04x-%04x-%02x%02x-%02x%02x%02x%02x%02x%02x"`
unfoldable pub guid_text : Guid → List ℕ
unfolding hex
guid_text g =
    hex 8 g.data1
    ++ (b'-'
        ∷ (hex 4 g.data2
            ++ (b'-'
                ∷ (hex 4 g.data3
                    ++ (b'-'
                        ∷ (hex 2 g.b0
                            ++ (hex 2 g.b1
                                ++ (b'-'
                                    ∷ (hex 2 g.b2
                                        ++ (hex 2 g.b3
                                            ++ (hex 2 g.b4
                                                ++ (hex 2 g.b5
                                                    ++ (hex 2 g.b6 ++ hex 2 g.b7)))))))))))))

-- the two calls of `snprintf`, on the name that the loop found or did not
unfoldable pub print_name : Option String → Guid → List ℕ
unfolding guid_text
print_name (some name) g = snprintf 64 (codes "GUID:" ++ codes name)
print_name none g = snprintf 64 (guid_text g)

unfoldable pub guid_string : Guid → List ℕ
unfolding guid_names find_name print_name
guid_string g = print_name (find_name guid_names g) g
