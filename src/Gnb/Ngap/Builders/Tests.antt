-- ===== src/Gnb/Ngap/Builders/Tests.antt =====
-- Messages of the gNB for a UE with two sessions, and a handover of this UE.
use packet_rusher.Base.{
  put_uint32, ℕ, ◌≡◌, refl, sym, ap, none, some, Option, List, [], ◌∷◌, ok, length, codes,
  replicate,
}
use packet_rusher.Base.Int.{ℤ, pos}
use packet_rusher.Gnb.Ue.{GnbUe, GnbPduSession}
use packet_rusher.Gnb.Context.{GnbContext, select_amf_by_active, select_loop}
use packet_rusher.Gnb.Samples.{order, new_gnb, sample_ue, amf_of_weight}
use packet_rusher.Gnb.Ngap.{NgapLib, Ie, read_ies}
use packet_rusher.Gnb.Ngap.Samples.{sample_lib}
use packet_rusher.Gnb.Ngap.Ies.{zero_locals, read_handover}
use packet_rusher.Gnb.Ngap.Handover.{handler_handover_request, admit_handover}
use packet_rusher.Gnb.Ngap.Builders.{BuilderLib, Transfer, SourceContainer, SentPdu, put_uint32}
use packet_rusher.Gnb.Ngap.Builders.Mobility.{build_source_to_target, build_handover_required}
use packet_rusher.Gnb.Ngap.Builders.Named.{ue_pdu, TellsOf, ue_pdu-TellsOf, require_handover}
use packet_rusher.Gnb.Ngap.Builders.Carried.{container_in, Expected, handover_required-Expected}

-- Marshalling that keeps the index alone.
abbrev marshal_index : Transfer → Option (List ℕ)
marshal_index (Transfer.source_to_target c) = some (c.index_to_rfsp ∷ [])
marshal_index _ = some []

abbrev first_octet : List ℕ → Option (Option ℕ)
first_octet [] = none
first_octet (x ∷ rest) = some (some x)

abbrev sample_builder : BuilderLib
sample_builder = record {
  marshal = marshal_index;
  plmn_id_to_ngap = λ mcc mnc. 2 ∷ 248 ∷ 57 ∷ [];
  ip_address_to_ngap = λ address. address;
  guti_octet = λ guti i. i;
  guti_amf_pointer = λ guti. 1;
  guti_tmsi = λ guti. 1 ∷ 2 ∷ 3 ∷ 4 ∷ [];
}

abbrev handover_lib : NgapLib
handover_lib = record sample_lib { unmarshal_container = first_octet; visit = λ l. order }

abbrev session : ℤ → GnbPduSession
session id = record {
  pdu_session_id = id;
  upf_ip = [];
  sst = codes "01";
  sd = codes "112233";
  uplink_teid = 1;
  downlink_teid = 2;
  pdu_type = 0;
  qos_id = 1;
  five_qi = 9;
  pri_arp = 1;
}

abbrev moving_ue : GnbUe
moving_ue = record sample_ue {
  context = record (sample_ue.context) {
    pdu_session = some (session (pos 1)) ∷ none ∷ some (session (pos 3)) ∷ replicate 13 none;
  };
}

decodes :
    (c : SourceContainer) (b : List ℕ)
    → sample_builder.marshal (Transfer.source_to_target c) ≡ some b
    → handover_lib.unmarshal_container b ≡ some (some c.index_to_rfsp)
decodes c b h = let same : c.index_to_rfsp ∷ [] ≡ b = cc h in ap (λ x. first_octet x) (sym same)

put_uint32_run : put_uint32 258 ≡ 0 ∷ 0 ∷ 1 ∷ 2 ∷ []
put_uint32_run = refl

ue_pdu-TellsOf_example :
    (pdu : SentPdu) × (ue_pdu sample_builder new_gnb new_gnb moving_ue require_handover ≡ ok pdu)
    × TellsOf moving_ue require_handover pdu
unfolding build_source_to_target
ue_pdu-TellsOf_example =
    ue_pdu-TellsOf sample_builder new_gnb new_gnb moving_ue require_handover ((7 ∷ [], refl), tt)

abbrev request_ies : List Ie
request_ies = Ie.source_to_target_container (some (7 ∷ [])) ∷ []

request_read :
    read_ies read_handover request_ies zero_locals
    ≡ ok (record zero_locals { container = some (7 ∷ []) })
unfolding read_handover read_ies
request_read = refl

encoded :
    sample_builder.marshal (
      Transfer.source_to_target (
        build_source_to_target sample_builder new_gnb new_gnb moving_ue.context.pdu_session
          moving_ue.pr_ue_id))
    ≡ some (7 ∷ [])
unfolding build_source_to_target
encoded = refl

selected : select_amf_by_active (handover_lib.visit []) ≡ some (amf_of_weight 9)
unfolding select_amf_by_active select_loop
selected = refl

handover_required-Expected_example :
    (pdu : SentPdu) × (made : GnbContext) × (build_handover_required sample_builder new_gnb new_gnb
        moving_ue
      ≡ ok pdu)
    × (container_in pdu.sent_ies ≡ some (7 ∷ []))
    × (handler_handover_request handover_lib new_gnb request_ies
        ≡ admit_handover handover_lib
            (record zero_locals { container = some (7 ∷ []) })
            made
            (length new_gnb.ues))
    × Expected new_gnb made (amf_of_weight 9) moving_ue.pr_ue_id
handover_required-Expected_example =
    handover_required-Expected handover_lib sample_builder new_gnb new_gnb moving_ue
      (amf_of_weight 9) (7 ∷ []) request_ies (record zero_locals { container = some (7 ∷ []) })
      decodes encoded request_read refl selected refl
