-- ===== src/Gnb/Ngap/Samples.antt =====
-- A codec, a gNB with one UE and an AMF, for the tests.
use packet_rusher.Base.{◌≡◌, refl, true, none, some, List, [], ◌∷◌, codes, ok}
use packet_rusher.Gnb.Context.{GnbContext, store_ue, new_ran_gnb_context}
use packet_rusher.Gnb.Context.Pools.{ue_at, store_ue-Stored, IsTxOpen}
use packet_rusher.Gnb.Context.Invariant.{
  IsConsistent, Stored-IsConsistent, new_ran_gnb_context-IsConsistent,
}
use packet_rusher.Gnb.Ngap.Handover.{read_pair}
use packet_rusher.Gnb.Samples.{new_gnb, sample_ue, address}
use packet_rusher.Gnb.Ngap.{
  NgapLib, NgapPdu, Ie, TransferIe, Tunnel, initiating_message, ProcedureCode, read_ies,
}

abbrev pub uplink_tunnel : Tunnel
uplink_tunnel = record {
  transport_layer_address = 10 ∷ 0 ∷ 0 ∷ 254 ∷ [];
  gtp_teid = 0 ∷ 0 ∷ 1 ∷ 2 ∷ [];
}

abbrev pub release_pdu : NgapPdu
release_pdu = record {
  present = initiating_message;
  procedure_code = ProcedureCode.ue_context_release;
  ies = Ie.ue_ngap_ids (some 1) ∷ [];
}

abbrev pub sample_lib : NgapLib
sample_lib = record {
  decoder = λ bytes. some release_pdu;
  encode = λ message. some (7 ∷ []);
  unmarshal_setup = λ bytes. some (TransferIe.ul_ngu_up_tnl_information uplink_tunnel ∷ []);
  unmarshal_switch = λ bytes. some none;
  unmarshal_container = λ bytes. some (some 7);
  ip_address_to_string = λ bytes. codes "10.0.0.254";
  parse_addr = λ text. some (10 ∷ 0 ∷ 0 ∷ 254 ∷ []);
  resolves = λ a. true;
  dial = λ source target. some 6;
  sctp_write = λ conn bytes. true;
  visit = λ l. l;
  inbound_channel_of = λ gnb. some 3;
  closed_of = λ gnb. [];
}

abbrev pub with_ue : GnbContext
with_ue = store_ue new_gnb sample_ue

pub with_ue-at : ue_at with_ue 0 ≡ some sample_ue
unfolding store_ue new_ran_gnb_context
with_ue-at = refl

pub with_ue-IsConsistent : IsConsistent with_ue
unfolding store_ue new_ran_gnb_context
with_ue-IsConsistent =
    Stored-IsConsistent new_gnb with_ue 7 sample_ue
      (new_ran_gnb_context-IsConsistent (codes "000008") (codes "208") (codes "93") (codes "000001")
        (codes "01") (codes "112233") address address 2)
      (store_ue-Stored new_gnb sample_ue refl refl) refl refl refl

abbrev pub release_ies : List Ie
release_ies = Ie.ue_ngap_ids (some 1) ∷ []

pub release_read : read_ies read_pair release_ies none ≡ ok (some 1)
unfolding read_ies read_pair
release_read = refl

pub release_found : with_ue.ue_pool 1 ≡ some 0
unfolding store_ue new_ran_gnb_context
release_found = refl

pub release_open : IsTxOpen with_ue sample_ue
unfolding store_ue new_ran_gnb_context
release_open c h = refl
