-- ===== src/Guid/Laws.antt =====
-- main.h: equality of GUIDs through their words is equality of their fields.
use efiperun_mod.Prelude.{◌≡◌, ◌↔◌, true, ◌==◌, refl, arith, ==_iff, &&-eq-true}
use efiperun_mod.Guid.Defs.{Guid, IsGuid, guid, word0, word1, guid_equal}

word0_injective :
    (a b : Guid)
    → IsGuid a
    → IsGuid b
    → word0 a ≡ word0 b
    → (a.data1 ≡ b.data1) × (a.data2 ≡ b.data2) × (a.data3 ≡ b.data3)
unfolding word0
word0_injective a b ha hb e = omega arith

word1_low :
    (a b : Guid)
    → IsGuid a
    → IsGuid b
    → word1 a ≡ word1 b
    → (a.b0 ≡ b.b0)
      × (a.b1 ≡ b.b1)
      × (a.b2 ≡ b.b2)
      × (a.b3 ≡ b.b3)
      × (a.b4 ≡ b.b4)
      × (a.b5 ≡ b.b5)
      × (a.b6 ≡ b.b6)
      × (a.b7 ≡ b.b7)
unfolding word1
word1_low a b ha hb e = omega arith

guid_equal_sound : (a b : Guid) → IsGuid a → IsGuid b → guid_equal a b ≡ true → a ≡ b
guid_equal_sound a b ha hb e =
    let (e0, e1) = &&-eq-true (word0 a == word0 b) (word1 a == word1 b) (unfold guid_equal in e) in
    let (p1, p2, p3) = word0_injective a b ha hb ((==_iff _ _).0 e0) in
    let (q0, q1, q2, q3, q4, q5, q6, q7) = word1_low a b ha hb ((==_iff _ _).0 e1) in
    λ i. guid (p1 i) (p2 i) (p3 i) (q0 i) (q1 i) (q2 i) (q3 i) (q4 i) (q5 i) (q6 i) (q7 i)

pub guid_equal_refl : (a : Guid) → guid_equal a a ≡ true
unfolding guid_equal
guid_equal_refl a = rw ((==_iff (word0 a) (word0 a)).1 refl, (==_iff (word1 a) (word1 a)).1 refl)

-- On GUIDs whose fields fit their widths `operator==` holds exactly of equal GUIDs.
pub guid_equal_iff : (a b : Guid) → IsGuid a → IsGuid b → (guid_equal a b ≡ true) ↔ (a ≡ b)
guid_equal_iff a b ha hb = (guid_equal_sound a b ha hb, λ e. rw (← e) (guid_equal_refl a))
