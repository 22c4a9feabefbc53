-- ===== src/Gnb/Ngap/Builders/Transport.antt =====
-- The messages that carry NAS, and those of the interface itself:
-- gnb/ngap/message/ngap_control/nas_transport and interface_management.
use packet_rusher.Base.{ℕ, Option, none, some, List, [], ◌∷◌, ◌++◌, Outcome, ok, ◌>>=◌}
use packet_rusher.Plmn.{gnb_plmn_octets}
use packet_rusher.Gnb.Context.{GnbContext}
use packet_rusher.Gnb.Context.Octets.{get_gnb_id_in_bytes, get_slice_in_bytes, get_tac_in_bytes}
use packet_rusher.Gnb.Ngap.{initiating_message, successful_outcome}
use packet_rusher.Gnb.Ngap.Builders.{
  reject, ignore, SentProcedure, Value, SentIe, SentPdu, BuilderLib, rejected, ignored,
  user_location,
}

abbrev pub get_mcc_and_mnc_in_octets : GnbContext → Outcome (List ℕ)
get_mcc_and_mnc_in_octets gnb = gnb_plmn_octets gnb.control_info.mcc gnb.control_info.mnc

unfoldable pub build_amf_configuration_update_acknowledge : SentPdu
build_amf_configuration_update_acknowledge = record {
  sent_present = successful_outcome;
  sent_procedure = SentProcedure.sent_amf_configuration_update;
  sent_criticality = reject;
  sent_ies = [];
}

-- With the id and the name that `NGSetupRequest` puts in place of the defaults.
unfoldable pub build_ng_setup_request : GnbContext → List ℕ → Outcome SentPdu
build_ng_setup_request gnb name = do
  plmn ← get_mcc_and_mnc_in_octets gnb
  ok (record {
    sent_present = initiating_message;
    sent_procedure = SentProcedure.sent_ng_setup;
    sent_criticality = reject;
    sent_ies =
        rejected (
          Value.sent_global_gnb_id plmn
            (record { bytes = get_gnb_id_in_bytes gnb; bit_length = 24 }))
        ∷ ignored (Value.sent_ran_node_name name)
        ∷ rejected (
            Value.sent_supported_ta (get_tac_in_bytes gnb) plmn (get_slice_in_bytes gnb).0
              (get_slice_in_bytes gnb).1)
        ∷ ignored Value.sent_paging_drx_v128
        ∷ [];
  })

module _ (lib : BuilderLib) where
  -- The optional 5G-S-TMSI.
  abbrev pub s_tmsi_ie : Option ℕ → List SentIe
  s_tmsi_ie none = []
  s_tmsi_ie (some guti) =
      rejected (
        Value.sent_s_tmsi (record {
          set_id = record {
            bytes = lib.guti_octet guti 5 ∷ lib.guti_octet guti 6 ∷ [];
            bit_length = 10;
          };
          pointer = record { bytes = lib.guti_amf_pointer guti ∷ []; bit_length = 6 };
          five_g_tmsi = lib.guti_tmsi guti;
        }))
      ∷ []

  unfoldable pub build_initial_ue_message : ℕ → List ℕ → Option ℕ → GnbContext → Outcome SentPdu
  build_initial_ue_message ran_id nas guti gnb = do
    plmn ← get_mcc_and_mnc_in_octets gnb
    ok (record {
      sent_present = initiating_message;
      sent_procedure = SentProcedure.sent_initial_ue_message;
      sent_criticality = ignore;
      sent_ies =
          rejected (Value.sent_ran_ue_id ran_id)
            ∷ rejected (Value.sent_nas_pdu nas)
            ∷ rejected (Value.sent_location (record (user_location lib gnb) { tai_plmn = plmn }))
            ∷ ignored Value.sent_mo_signalling
            ∷ s_tmsi_ie guti
          ++ ignored Value.sent_context_requested ∷ [];
    })

  unfoldable pub build_uplink_nas_transport : ℕ → ℕ → List ℕ → GnbContext → SentPdu
  build_uplink_nas_transport amf_id ran_id nas gnb = record {
    sent_present = initiating_message;
    sent_procedure = SentProcedure.sent_uplink_nas_transport;
    sent_criticality = ignore;
    sent_ies =
        rejected (Value.sent_amf_ue_id amf_id)
        ∷ rejected (Value.sent_ran_ue_id ran_id)
        ∷ rejected (Value.sent_nas_pdu nas)
        ∷ ignored (Value.sent_location (user_location lib gnb))
        ∷ [];
  }
