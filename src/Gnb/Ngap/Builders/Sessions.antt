-- ===== src/Gnb/Ngap/Builders/Sessions.antt =====
-- The answers on PDU sessions and on a UE's context, and the request to release one:
-- gnb/ngap/message/ngap_control/pdu_session_management and ue_context_management.
use packet_rusher.Base.{ℕ, Option, List, [], ◌∷◌, ◌++◌, map}
use packet_rusher.Base.Int.{ℤ}
use packet_rusher.Gnb.Ue.{GnbUe, GnbPduSession}
use packet_rusher.Gnb.Context.{GnbContext}
use packet_rusher.Gnb.Ngap.{initiating_message, successful_outcome}
use packet_rusher.Gnb.Ngap.Triggers.{bytes_of}
use packet_rusher.Gnb.Ngap.Builders.{
  reject, SentProcedure, Transfer, Value, SentPdu, BuilderLib, rejected, ignored, existing,
  unless_empty, downlink_tunnel, user_inactivity,
}

module _ (lib : BuilderLib) where
  -- The error of the marshalling is dropped.
  abbrev pub get_setup_response_transfer : GnbContext → GnbPduSession → List ℕ
  get_setup_response_transfer gnb session = bytes_of (
      lib.marshal
        (Transfer.setup_response_transfer (downlink_tunnel lib gnb session) session.qos_id))

  abbrev pub setup_item_of : GnbContext → GnbPduSession → ℤ × List ℕ
  setup_item_of gnb session = (session.pdu_session_id, get_setup_response_transfer gnb session)

  -- The list is sent even when it is empty.
  unfoldable pub build_setup_response : List (Option GnbPduSession) → GnbUe → GnbContext → SentPdu
  build_setup_response sessions ue gnb = record {
    sent_present = successful_outcome;
    sent_procedure = SentProcedure.sent_session_setup;
    sent_criticality = reject;
    sent_ies =
        ignored (Value.sent_amf_ue_id ue.amf_ue_ngap_id)
        ∷ ignored (Value.sent_ran_ue_id ue.ran_ue_ngap_id)
        ∷ ignored (Value.sent_setup_list_su_res (map (setup_item_of gnb) (existing sessions)))
        ∷ [];
  }

  unfoldable pub build_initial_context_setup_response : GnbUe → GnbContext → SentPdu
  build_initial_context_setup_response ue gnb = record {
    sent_present = successful_outcome;
    sent_procedure = SentProcedure.sent_initial_context_setup;
    sent_criticality = reject;
    sent_ies =
        rejected (Value.sent_amf_ue_id ue.amf_ue_ngap_id)
        ∷ rejected (Value.sent_ran_ue_id ue.ran_ue_ngap_id)
        ∷ unless_empty (λ l. ignored (Value.sent_setup_list_cxt_res l))
            (map (setup_item_of gnb) (existing ue.context.pdu_session));
  }

abbrev pub released_item : ℤ → ℤ × List ℕ
released_item id = (id, 0 ∷ [])

unfoldable pub build_release_response : List ℤ → GnbUe → SentPdu
build_release_response ids ue = record {
  sent_present = successful_outcome;
  sent_procedure = SentProcedure.sent_session_release;
  sent_criticality = reject;
  sent_ies =
      ignored (Value.sent_amf_ue_id ue.amf_ue_ngap_id)
      ∷ ignored (Value.sent_ran_ue_id ue.ran_ue_ngap_id)
      ∷ ignored (Value.sent_released_list (map released_item ids))
      ∷ [];
}

unfoldable pub build_ue_context_release_complete : GnbUe → SentPdu
build_ue_context_release_complete ue = record {
  sent_present = successful_outcome;
  sent_procedure = SentProcedure.sent_ue_context_release;
  sent_criticality = reject;
  sent_ies =
      ignored (Value.sent_amf_ue_id ue.amf_ue_ngap_id)
      ∷ ignored (Value.sent_ran_ue_id ue.ran_ue_ngap_id)
      ∷ [];
}

unfoldable pub build_ue_context_release_request : GnbUe → SentPdu
build_ue_context_release_request ue = record {
  sent_present = initiating_message;
  sent_procedure = SentProcedure.sent_ue_context_release_request;
  sent_criticality = reject;
  sent_ies =
      rejected (Value.sent_amf_ue_id ue.amf_ue_ngap_id)
        ∷ rejected (Value.sent_ran_ue_id ue.ran_ue_ngap_id)
        ∷ unless_empty (λ l. rejected (Value.sent_list_cxt_rel_req l))
            (map (λ (s : GnbPduSession). s.pdu_session_id) (existing ue.context.pdu_session))
      ++ ignored (Value.sent_cause user_inactivity) ∷ [];
}
