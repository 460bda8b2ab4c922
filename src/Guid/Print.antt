-- ===== src/Guid/Print.antt =====
-- efihooks.cpp: the text of `guid_string` is never cut off by its buffer of 64 bytes, and the
-- hexadecimal form determines the GUID.
use Prim.Native.String.{String}
use mathlib.Core.Option.{some-injective}
use mathlib.Core.Path.{subst}
use efiperun_mod.Prelude.{
  ℕ, zero, suc, ◌≡◌, ◌≤◌, refl, sym, ap, ◌∙◌, Bool, true, ◌&&◌, Option, none, some, List, [], ◌∷◌,
  ◌++◌, length, length-append, leb, arith, leb→le, &&-eq-true, Bool-cases, inl, inr,
}
use efiperun_mod.Prelude.Text.{codes, take, take-eq_self, unhex, unhex-hex}
use efiperun_mod.Guid.Defs.{Guid, IsGuid, guid, guid_equal}
use efiperun_mod.Guid.Strings.{GuidName, guid_names, find_name, guid_text, print_name, guid_string}

-- every name of the array leaves room for the prefix and the terminator
names_fit : List GuidName → Bool
names_fit [] = true
names_fit (p ∷ rest) = leb (length (codes p.name)) 58 && names_fit rest

guid_names-names_fit : names_fit guid_names ≡ true
unfolding names_fit guid_names
guid_names-names_fit = refl

find_name-fits :
    (ns : List GuidName) (g : Guid)
    → names_fit ns ≡ true
    → (s : String) → find_name ns g ≡ some s
    → length (codes s) ≤ 58
find_name-fits [] g h s e = absurd (unfold find_name in cc)
find_name-fits (p ∷ rest) g h s e =
    let (here, later) =
      &&-eq-true (leb (length (codes p.name)) 58) (names_fit rest) (unfold names_fit in h) in
    elim (Bool-cases (guid_equal p.value g)) [
      | inl t ↦
          let same : some p.name ≡ some s = (unfold find_name in rw t at e) in
          subst (λ (n : String). length (codes n) ≤ 58) (some-injective p.name s same)
            (leb→le _ _ here)
      | inr t ↦ find_name-fits rest g later s (unfold find_name in rw t at e)
    ]

length-guid_text : (g : Guid) → length (guid_text g) ≡ 36
unfolding guid_text
length-guid_text g = refl

-- the text before it is put into the buffer
abbrev pub whole_text : Option String → Guid → List ℕ
whole_text (some name) g = codes "GUID:" ++ codes name
whole_text none g = guid_text g

print_name-whole :
    (o : Option String) (g : Guid)
    → ((s : String) → o ≡ some s → length (codes s) ≤ 58)
    → print_name o g ≡ whole_text o g
print_name-whole (some s) g h =
    unfold print_name in
    take-eq_self 63 (codes "GUID:" ++ codes s)
      (rw (length-append (codes "GUID:") (codes s)) (omega (arith, h s refl)))
print_name-whole none g h =
    unfold print_name in take-eq_self 63 (guid_text g) (omega (arith, length-guid_text g))

-- `guid_string` returns the whole text, the prefix and the name of the first entry with an equal
-- GUID, or the hexadecimal form where no entry is equal: the buffer of 64 bytes never cuts it off.
pub guid_string-whole_text : (g : Guid) → guid_string g ≡ whole_text (find_name guid_names g) g
guid_string-whole_text g =
    unfold guid_string in
    print_name-whole (find_name guid_names g) g (find_name-fits guid_names g guid_names-names_fit)

-- Reading `k` digits, and one character, off a text.
drop_one : List ℕ → List ℕ
drop_one [] = []
drop_one (c ∷ s) = s

abbrev drop : ℕ → List ℕ → List ℕ
drop zero s = s
drop (suc k) [] = []
drop (suc k) (c ∷ s) = drop k s

field : ℕ → ℕ → List ℕ → ℕ
field start k s = unhex 0 (take k (drop start s))

-- the GUID that a text in the hexadecimal form stands for
text_guid : List ℕ → Guid
text_guid s =
    guid (field 0 8 s) (field 9 4 s) (field 14 4 s) (field 19 2 s) (field 21 2 s) (field 24 2 s)
      (field 26 2 s) (field 28 2 s) (field 30 2 s) (field 32 2 s) (field 34 2 s)

text_guid-guid_text : (g : Guid) → IsGuid g → text_guid (guid_text g) ≡ g
unfolding text_guid
text_guid-guid_text g h =
    λ i. guid (f1 i) (f2 i) (f3 i) (f4 i) (f5 i) (f6 i) (f7 i) (f8 i) (f9 i) (f10 i) (f11 i)
  where
    f1 : field 0 8 (guid_text g) ≡ g.data1
    f1 = unfold field guid_text in unhex-hex 8 g.data1 (h.data1_lt)

    f2 : field 9 4 (guid_text g) ≡ g.data2
    f2 = unfold field guid_text in unhex-hex 4 g.data2 (h.data2_lt)

    f3 : field 14 4 (guid_text g) ≡ g.data3
    f3 = unfold field guid_text in unhex-hex 4 g.data3 (h.data3_lt)

    f4 : field 19 2 (guid_text g) ≡ g.b0
    f4 = unfold field guid_text in unhex-hex 2 g.b0 (h.b0_lt)

    f5 : field 21 2 (guid_text g) ≡ g.b1
    f5 = unfold field guid_text in unhex-hex 2 g.b1 (h.b1_lt)

    f6 : field 24 2 (guid_text g) ≡ g.b2
    f6 = unfold field guid_text in unhex-hex 2 g.b2 (h.b2_lt)

    f7 : field 26 2 (guid_text g) ≡ g.b3
    f7 = unfold field guid_text in unhex-hex 2 g.b3 (h.b3_lt)

    f8 : field 28 2 (guid_text g) ≡ g.b4
    f8 = unfold field guid_text in unhex-hex 2 g.b4 (h.b4_lt)

    f9 : field 30 2 (guid_text g) ≡ g.b5
    f9 = unfold field guid_text in unhex-hex 2 g.b5 (h.b5_lt)

    f10 : field 32 2 (guid_text g) ≡ g.b6
    f10 = unfold field guid_text in unhex-hex 2 g.b6 (h.b6_lt)

    f11 : field 34 2 (guid_text g) ≡ g.b7
    f11 = unfold field guid_text in unhex-hex 2 g.b7 (h.b7_lt)

-- Two GUIDs that the array does not name have the same `guid_string` only if they are equal.
pub guid_string_injective :
    (a b : Guid)
    → IsGuid a
    → IsGuid b
    → find_name guid_names a ≡ none
    → find_name guid_names b ≡ none
    → guid_string a ≡ guid_string b
    → a ≡ b
guid_string_injective a b ha hb na nb e =
    let ta : guid_string a ≡ guid_text a = guid_string-whole_text a ∙ rw na in
    let tb : guid_string b ≡ guid_text b = guid_string-whole_text b ∙ rw nb in
    sym (text_guid-guid_text a ha) ∙ ap text_guid (sym ta ∙ e ∙ tb) ∙ text_guid-guid_text b hb
