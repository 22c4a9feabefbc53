-- ===== src/Gnb/Ngap/Triggers/Kept.antt =====
-- What the triggers that change a UE object do to the pools.
use packet_rusher.Base.{ℕ, ◌≡◌, refl, some, List, bind, after}
use packet_rusher.Gnb.Ue.{GnbPduSession, ready}
use packet_rusher.Gnb.Context.{GnbContext}
use packet_rusher.Gnb.Context.Pools.{ue_at}
use packet_rusher.Gnb.Context.Kept.{Kept, Keeps, Kept-change, deref-at}
use packet_rusher.Gnb.Ngap.{NgapLib, mandatory, ue_of, pdu_session_resource_setup_response}
use packet_rusher.Gnb.Ngap.Triggers.{send_or_fatal, send_pdu_session_resource_setup_response}

pub setup_response-Keeps :
    (lib : NgapLib) (sessions : List GnbPduSession) (p : ℕ) (gnb : GnbContext)
    → Keeps 0 gnb (send_pdu_session_resource_setup_response lib sessions p gnb)
unfolding send_pdu_session_resource_setup_response
setup_response-Keeps lib sessions p gnb =
    bind (λ ue. ue_at gnb p ≡ some ue) (λ r. Kept 0 gnb r.0) (ue_of gnb p) _
      (deref-at (ue_at gnb p))
      (λ ue at.
        after (λ r. Kept 0 gnb r.0)
          (mandatory (lib.encode (pdu_session_resource_setup_response sessions ue gnb))) _
          (λ bytes.
            after (λ r. Kept 0 gnb r.0) (send_or_fatal lib ue.sctp_connection bytes) _
              (λ out. Kept-change gnb p ue (record ue { state = ready }) at refl refl)))
