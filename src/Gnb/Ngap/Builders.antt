-- ===== src/Gnb/Ngap/Builders.antt =====
-- What the gNB's messages to the AMF are made of: gnb/ngap/message/ngap_control, with the types of
-- github.com/free5gc/ngap as far as the source fills them in.
-- An IE is the field that is set, with its criticality; its Id and its Present are those of the
-- constructor. APER, the conversions of free5gc and its GUTI are the parameters of `BuilderLib`.
pub mod Sessions
pub mod Mobility
pub mod Transport
pub mod Read
pub mod Named
pub mod Carried
mod Tests
use packet_rusher.Base.{
  put_uint32, ℕ, ◌*◌, ◌/◌, ◌%◌, ◌^◌, Option, none, some, List, [], ◌∷◌, length,
}
use packet_rusher.Base.Int.{ℤ}
use packet_rusher.Gnb.Ue.{GnbUe, GnbPduSession}
use packet_rusher.Gnb.Context.{GnbContext}
use packet_rusher.Gnb.Context.Octets.{
  BitString, get_gnb_id_in_bytes, get_tac_in_bytes, get_nr_cell_identity,
}
use packet_rusher.Gnb.Ngap.{Present}

pub data Criticality : Type 0 where
  reject ignore : Criticality

pub data SentProcedure : Type 0 where
  sent_initial_context_setup sent_ue_context_release sent_ue_context_release_request : SentProcedure
  sent_session_setup sent_session_release sent_handover_resource_allocation : SentProcedure
  sent_handover_preparation sent_path_switch sent_handover_notification : SentProcedure
  sent_initial_ue_message sent_uplink_nas_transport sent_ng_setup : SentProcedure
  sent_amf_configuration_update : SentProcedure

-- The causes that the source gives.
pub data SentCause : Type 0 where
  user_inactivity handover_desirable_for_radio_reason : SentCause

pub record SentTunnel : Type 0 where
  pub sent_address : List ℕ
  pub sent_teid : List ℕ

-- SourceNGRANNodeToTargetNGRANNodeTransparentContainer. The items of the list are a session's id
-- and its QoS flow.
pub record SourceContainer : Type 0 where
  pub rrc_container : List ℕ
  pub index_to_rfsp : ℕ
  pub session_information : Option (List (ℤ × ℕ))
  pub target_plmn : List ℕ
  pub target_cell : BitString
  pub visited_plmn : List ℕ
  pub visited_cell : BitString
  pub time_in_cell : ℕ

-- What is encoded with APER on its own.
pub data Transfer : Type 0 where
  setup_response_transfer path_switch_transfer : SentTunnel → (qos : ℕ) → Transfer
  handover_acknowledge_transfer : SentTunnel → (qos : ℕ) → Transfer
  handover_required_transfer : Transfer
  source_to_target : SourceContainer → Transfer
  target_to_source : (rrc_container : List ℕ) → Transfer

pub record SentLocation : Type 0 where
  pub nrcgi_plmn : List ℕ
  pub nrcgi_cell : BitString
  pub tai_plmn : List ℕ
  pub tai_tac : List ℕ

pub record SentTarget : Type 0 where
  pub target_gnb_plmn : List ℕ
  pub target_gnb_id : BitString
  pub selected_plmn : List ℕ
  pub selected_tac : List ℕ

-- 5G-S-TMSI.
pub record STmsi : Type 0 where
  pub set_id : BitString
  pub pointer : BitString
  pub five_g_tmsi : List ℕ

pub data Value : Type 0 where
  sent_amf_ue_id sent_source_amf_ue_id sent_ran_ue_id : ℕ → Value
  sent_setup_list_cxt_res sent_setup_list_su_res sent_released_list : List (ℤ × List ℕ) → Value
  sent_admitted_list sent_switched_list sent_ho_rqd_list : List (ℤ × List ℕ) → Value
  sent_list_cxt_rel_req : List ℤ → Value
  sent_cause : SentCause → Value
  sent_handover_type_intra5gs : Value
  sent_target_id : SentTarget → Value
  sent_source_to_target sent_target_to_source : List ℕ → Value
  sent_location : SentLocation → Value
  sent_security_capabilities : Option ℕ → Value
  sent_nas_pdu : List ℕ → Value
  sent_mo_signalling sent_context_requested : Value
  sent_s_tmsi : STmsi → Value
  sent_global_gnb_id : (plmn : List ℕ) → BitString → Value
  sent_ran_node_name : List ℕ → Value
  sent_supported_ta : (tac plmn sst : List ℕ) → (sd : Option (List ℕ)) → Value  -- one item of each list
  sent_paging_drx_v128 : Value

pub record SentIe : Type 0 where
  pub criticality : Criticality
  pub value : Value

pub record SentPdu : Type 0 where
  pub sent_present : Present
  pub sent_procedure : SentProcedure
  pub sent_criticality : Criticality
  pub sent_ies : List SentIe

pub record BuilderLib : Type 0 where
  pub marshal : Transfer → Option (List ℕ)
  pub plmn_id_to_ngap : List ℕ → List ℕ → List ℕ  -- mcc, mnc
  pub ip_address_to_ngap : List ℕ → List ℕ  -- of the address's text
  pub guti_octet : ℕ → ℕ → ℕ
  pub guti_amf_pointer : ℕ → ℕ
  pub guti_tmsi : ℕ → List ℕ

abbrev pub rejected : Value → SentIe
rejected v = record { criticality = reject; value = v }

abbrev pub ignored : Value → SentIe
ignored v = record { criticality = ignore; value = v }

-- The sessions of a UE's table.
unfoldable pub existing : List (Option GnbPduSession) → List GnbPduSession
existing [] = []
existing (none ∷ rest) = existing rest
existing (some session ∷ rest) = session ∷ existing rest

-- The list is left out when it is empty.
abbrev pub unless_empty : {A : Type 0} → (List A → SentIe) → List A → List SentIe
unless_empty ie [] = []
unless_empty ie (x ∷ xs) = ie (x ∷ xs) ∷ []

module _ (lib : BuilderLib) where
  abbrev pub get_plmn_identity : GnbContext → List ℕ
  get_plmn_identity gnb = lib.plmn_id_to_ngap gnb.control_info.mcc gnb.control_info.mnc

  unfoldable pub downlink_tunnel : GnbContext → GnbPduSession → SentTunnel
  downlink_tunnel gnb session = record {
    sent_address = lib.ip_address_to_ngap gnb.data_ip_port.addr;
    sent_teid = put_uint32 session.downlink_teid;
  }

  abbrev pub user_location : GnbContext → SentLocation
  user_location gnb = record {
    nrcgi_plmn = get_plmn_identity gnb;
    nrcgi_cell = get_nr_cell_identity gnb;
    tai_plmn = get_plmn_identity gnb;
    tai_tac = get_tac_in_bytes gnb;
  }

  abbrev pub target_id : GnbContext → SentTarget
  target_id gnb = record {
    target_gnb_plmn = get_plmn_identity gnb;
    target_gnb_id = record {
      bytes = get_gnb_id_in_bytes gnb;
      bit_length = length (get_gnb_id_in_bytes gnb) * 8;
    };
    selected_plmn = get_plmn_identity gnb;
    selected_tac = get_tac_in_bytes gnb;
  }
