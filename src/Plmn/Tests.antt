-- ===== src/Plmn/Tests.antt =====
-- Runs of the PLMN and routing texts at the operators 208-93 and 310-123.
use packet_rusher.Base.{ℕ, ◌≡◌, refl, inr, ◌↔◌, List, [], ◌∷◌, ok, arith, codes}
use packet_rusher.Plmn.{gnb_plmn_octets, ue_plmn_octets, routing_octets, stored_routing}
use packet_rusher.Plmn.RoundTrip.{
  AllDigits, IsMcc, ReadsAs, gnb_plmn_octets-ReadsAs, ue_plmn_octets-ReadsAs,
  ue_plmn_octets_three_digits, plmn_octets_agree_iff,
}
use packet_rusher.Plmn.Routing.{routing_octets_bcd}

abbrev mcc : List ℕ
mcc = codes "310"

abbrev two : List ℕ
two = codes "93"

abbrev three : List ℕ
three = codes "123"

abbrev one : ℕ
one = b'1'

abbrev second : ℕ
second = b'2'

abbrev third : ℕ
third = b'3'

mcc-IsMcc : IsMcc mcc
mcc-IsMcc = (omega arith, refl)

two-AllDigits : AllDigits two
two-AllDigits = omega arith

three-AllDigits : AllDigits three
three-AllDigits = omega arith

gnb_plmn_octets-ReadsAs_example : ReadsAs (gnb_plmn_octets mcc three) mcc three
gnb_plmn_octets-ReadsAs_example =
    gnb_plmn_octets-ReadsAs mcc three mcc-IsMcc (three-AllDigits, inr refl)

ue_plmn_octets-ReadsAs_example : ReadsAs (ue_plmn_octets mcc two) mcc two
ue_plmn_octets-ReadsAs_example = ue_plmn_octets-ReadsAs mcc two mcc-IsMcc two-AllDigits refl

ue_plmn_octets_three_digits_example : ReadsAs (ue_plmn_octets mcc three) mcc (codes "312")
ue_plmn_octets_three_digits_example =
    ue_plmn_octets_three_digits mcc b'1' b'2' b'3' mcc-IsMcc three-AllDigits

plmn_octets_agree_iff_example :
    (gnb_plmn_octets mcc three ≡ ue_plmn_octets mcc three) ↔ ((one ≡ second) × (second ≡ third))
plmn_octets_agree_iff_example = plmn_octets_agree_iff mcc one second third mcc-IsMcc three-AllDigits

routing_octets_bcd_example : routing_octets three ≡ ok (three, 0x21 ∷ 0xf3 ∷ [])
unfolding stored_routing
routing_octets_bcd_example = routing_octets_bcd three three-AllDigits
