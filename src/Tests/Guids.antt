-- ===== src/Tests/Guids.antt =====
-- GUIDs and their texts at concrete values.

use efiperun_mod.Prelude.{◌≡◌, refl, none, arith}
use efiperun_mod.Prelude.Text.{codes}
use efiperun_mod.Guid.Defs.{Guid, IsGuid, guid}
use efiperun_mod.Guid.Strings.{guid_names, find_name, guid_string}
use efiperun_mod.Guid.Print.{guid_string-whole_text, whole_text, guid_string_injective}

abbrev smm_base : Guid
smm_base = guid 0x1390954d 0xda95 0x4227 0x93 0x28 0x72 0x82 0xc2 0x17 0xda 0xa8

abbrev unknown : Guid
unknown = guid 0x01234567 0x89ab 0xcdef 0x01 0x23 0x45 0x67 0x89 0xab 0xcd 0xef

guid_string_named : guid_string smm_base ≡ codes "GUID:EFI_SMM_BASE_PROTOCOL"
unfolding guid_string
guid_string_named = refl

guid_string_unnamed : guid_string unknown ≡ codes "01234567-89ab-cdef-0123-456789abcdef"
unfolding guid_string
guid_string_unnamed = refl

smm_base-IsGuid : IsGuid smm_base
smm_base-IsGuid = omega arith

unknown-IsGuid : IsGuid unknown
unknown-IsGuid = omega arith

unknown_unnamed : find_name guid_names unknown ≡ none
unfolding find_name guid_names
unknown_unnamed = refl

guid_string-whole_text_example :
    guid_string smm_base ≡ whole_text (find_name guid_names smm_base) smm_base
guid_string-whole_text_example = guid_string-whole_text smm_base

guid_string_injective_example : unknown ≡ unknown
guid_string_injective_example =
    guid_string_injective unknown unknown unknown-IsGuid unknown-IsGuid unknown_unnamed
      unknown_unnamed refl
