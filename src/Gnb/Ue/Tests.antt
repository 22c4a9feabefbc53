-- ===== src/Gnb/Ue/Tests.antt =====
-- Runs of the gNB's table of PDU sessions.
use packet_rusher.Base.{ℕ, ◌≡◌, ◌≢◌, ◌↔◌, refl, true, none, ok, panic, codes, arith, length}
use packet_rusher.Base.Int.{ℤ, pos}
use packet_rusher.Gnb.Ue.{
  GnbUe, create_pdu_session, get_pdu_session, delete_pdu_session, is_wanted_nssai, done,
}
use packet_rusher.Gnb.Ue.Sessions.{
  IsArray, InRange, Created, AllowedAt, create_pdu_session-Created, delete_pdu_session-get,
  sessions_outside_panic, is_wanted_nssai_iff,
}
use packet_rusher.Gnb.Samples.{sample_ue, session_of}

sample_ue-IsArray : IsArray sample_ue
sample_ue-IsArray = refl

three-InRange : InRange (pos 3)
three-InRange = omega arith

create_pdu_session-Created_example :
    Created sample_ue (session_of (pos 3)) (create_pdu_session sample_ue (session_of (pos 3)))
create_pdu_session-Created_example =
    create_pdu_session-Created sample_ue (session_of (pos 3)) sample_ue-IsArray three-InRange

delete_pdu_session-get_example :
    (ue' : GnbUe) × (delete_pdu_session sample_ue (pos 3) ≡ ok (done ue'))
    × IsArray ue'
    × (get_pdu_session ue' (pos 3) ≡ ok (done none))
    × ((j : ℤ) → j ≢ pos 3 → get_pdu_session ue' j ≡ get_pdu_session sample_ue j)
delete_pdu_session-get_example =
    delete_pdu_session-get sample_ue (pos 3) sample_ue-IsArray three-InRange

outside : ¬ InRange (pos 17)
outside = omega arith

sessions_outside_panic_example :
    (create_pdu_session sample_ue (session_of (pos 17)) ≡ panic)
    × (get_pdu_session sample_ue (pos 17) ≡ panic)
    × (delete_pdu_session sample_ue (pos 17) ≡ panic)
sessions_outside_panic_example = sessions_outside_panic sample_ue (session_of (pos 17)) outside

is_wanted_nssai_iff_example : (is_wanted_nssai sample_ue (codes "01") (codes "112233") ≡ true) ↔ (
    (length sample_ue.context.allowed_sst ≡ length sample_ue.context.allowed_sd)
    × ((i : ℕ) × AllowedAt sample_ue.context.allowed_sst sample_ue.context.allowed_sd
          (codes "01")
          (codes "112233")
          i))
is_wanted_nssai_iff_example = is_wanted_nssai_iff sample_ue (codes "01") (codes "112233")
