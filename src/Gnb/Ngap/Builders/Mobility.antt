-- ===== src/Gnb/Ngap/Builders/Mobility.antt =====
-- The messages of the handovers: gnb/ngap/message/ngap_control/ue_mobility_management.
use packet_rusher.Base.{ℕ, Option, none, some, List, [], ◌∷◌, ◌++◌, Outcome, ok, ◌>>=◌, map}
use packet_rusher.Base.Int.{ℤ}
use packet_rusher.Gnb.Ue.{GnbUe, GnbPduSession}
use packet_rusher.Gnb.Context.{GnbContext}
use packet_rusher.Gnb.Context.Octets.{get_nr_cell_identity}
use packet_rusher.Gnb.Ngap.{initiating_message, successful_outcome, mandatory}
use packet_rusher.Gnb.Ngap.Triggers.{bytes_of}
use packet_rusher.Gnb.Ngap.Builders.{
  reject, SentProcedure, Transfer, SourceContainer, Value, SentPdu, BuilderLib, rejected, ignored,
  existing, unless_empty, downlink_tunnel, user_location, target_id, get_plmn_identity,
  handover_desirable_for_radio_reason,
}

-- "\x00\x00\x11".
abbrev pub rrc_octets : List ℕ
rrc_octets = 0 ∷ 0 ∷ 17 ∷ []

abbrev pub information_item : GnbPduSession → ℤ × ℕ
information_item session = (session.pdu_session_id, 1)

-- nil when no session is there.
abbrev pub information_list : List (ℤ × ℕ) → Option (List (ℤ × ℕ))
information_list [] = none
information_list (x ∷ xs) = some (x ∷ xs)

unfoldable pub acknowledge_pdu : GnbUe → List (ℤ × List ℕ) → (container : List ℕ) → SentPdu
acknowledge_pdu ue items container = record {
  sent_present = successful_outcome;
  sent_procedure = SentProcedure.sent_handover_resource_allocation;
  sent_criticality = reject;
  sent_ies =
      rejected (Value.sent_amf_ue_id ue.amf_ue_ngap_id)
        ∷ rejected (Value.sent_ran_ue_id ue.ran_ue_ngap_id)
        ∷ unless_empty (λ l. ignored (Value.sent_admitted_list l)) items
      ++ rejected (Value.sent_target_to_source container) ∷ [];
}

module _ (lib : BuilderLib) where
  unfoldable pub build_handover_notify : GnbContext → GnbUe → SentPdu
  build_handover_notify gnb ue = record {
    sent_present = initiating_message;
    sent_procedure = SentProcedure.sent_handover_notification;
    sent_criticality = reject;
    sent_ies =
        rejected (Value.sent_amf_ue_id ue.amf_ue_ngap_id)
        ∷ rejected (Value.sent_ran_ue_id ue.ran_ue_ngap_id)
        ∷ ignored (Value.sent_location (user_location lib gnb))
        ∷ [];
  }

  abbrev pub switched_item : GnbContext → GnbPduSession → ℤ × List ℕ
  switched_item gnb session = (
    session.pdu_session_id,
    bytes_of (
        lib.marshal
          (Transfer.path_switch_transfer (downlink_tunnel lib gnb session) session.qos_id)),
  )

  unfoldable pub build_path_switch_request : GnbContext → GnbUe → SentPdu
  build_path_switch_request gnb ue = record {
    sent_present = initiating_message;
    sent_procedure = SentProcedure.sent_path_switch;
    sent_criticality = reject;
    sent_ies =
        rejected (Value.sent_source_amf_ue_id ue.amf_ue_ngap_id)
          ∷ rejected (Value.sent_ran_ue_id ue.ran_ue_ngap_id)
          ∷ unless_empty (λ l. rejected (Value.sent_switched_list l))
              (map (switched_item gnb) (existing ue.context.pdu_session))
        ++ ignored (Value.sent_location (user_location lib gnb))
          ∷ ignored (Value.sent_security_capabilities ue.context.ue_security_capabilities)
          ∷ [];
  }

  -- A transfer that cannot be marshalled ends the process; the QoS flow is always 1.
  unfoldable pub admitted_items : GnbContext → List GnbPduSession → Outcome (List (ℤ × List ℕ))
  admitted_items gnb [] = ok []
  admitted_items gnb (session ∷ rest) = do
    bytes ←
        mandatory
          (lib.marshal (Transfer.handover_acknowledge_transfer (downlink_tunnel lib gnb session) 1))
    items ← admitted_items gnb rest
    ok ((session.pdu_session_id, bytes) ∷ items)

  unfoldable pub build_handover_request_acknowledge : GnbContext → GnbUe → Outcome SentPdu
  unfolding admitted_items acknowledge_pdu
  build_handover_request_acknowledge gnb ue = do
    items ← admitted_items gnb (existing ue.context.pdu_session)
    container ← mandatory (lib.marshal (Transfer.target_to_source rrc_octets))
    ok (acknowledge_pdu ue items container)

  unfoldable pub build_source_to_target :
      GnbContext → GnbContext → List (Option GnbPduSession) → ℕ → SourceContainer
  build_source_to_target source target sessions pr_ue_id = record {
    rrc_container = rrc_octets;
    index_to_rfsp = pr_ue_id;
    session_information = information_list (map information_item (existing sessions));
    target_plmn = get_plmn_identity lib target;
    target_cell = get_nr_cell_identity target;
    visited_plmn = get_plmn_identity lib source;
    visited_cell = get_nr_cell_identity source;
    time_in_cell = 10;
  }

  abbrev pub required_item : GnbPduSession → ℤ × List ℕ
  required_item session =
      (session.pdu_session_id, bytes_of (lib.marshal Transfer.handover_required_transfer))

  unfoldable pub required_pdu : GnbContext → GnbUe → (container : List ℕ) → SentPdu
  required_pdu target ue container = record {
    sent_present = initiating_message;
    sent_procedure = SentProcedure.sent_handover_preparation;
    sent_criticality = reject;
    sent_ies =
        rejected (Value.sent_amf_ue_id ue.amf_ue_ngap_id)
          ∷ rejected (Value.sent_ran_ue_id ue.ran_ue_ngap_id)
          ∷ rejected Value.sent_handover_type_intra5gs
          ∷ ignored (Value.sent_cause handover_desirable_for_radio_reason)
          ∷ unless_empty (λ l. rejected (Value.sent_ho_rqd_list l))
              (map required_item (existing ue.context.pdu_session))
        ++ rejected (Value.sent_target_id (target_id lib target))
          ∷ rejected (Value.sent_source_to_target container)
          ∷ [];
  }

  unfoldable pub build_handover_required : GnbContext → GnbContext → GnbUe → Outcome SentPdu
  unfolding build_source_to_target required_pdu
  build_handover_required source target ue = do
    container ← mandatory (
        lib.marshal (
          Transfer.source_to_target
            (build_source_to_target source target ue.context.pdu_session ue.pr_ue_id)))
    ok (required_pdu target ue container)
