-- ===== src/Gnb/Ngap/Dispatch.antt =====
-- `Dispatch` of internal/control_test_engine/gnb/ngap/dispatcher.go.
pub mod Kept
mod Tests
use packet_rusher.Base.{ℕ, Option, none, some, List, [], ◌∷◌, ◌++◌, Outcome, ok, ◌>>=◌, deref}
use packet_rusher.Gnb.Amf.{GnbAmf}
use packet_rusher.Gnb.Context.{GnbContext}
use packet_rusher.Gnb.Messages.{Output}
use packet_rusher.Gnb.Ngap.{
  NgapLib, Ie, Run, NgapPdu, ProcedureCode, Present, initiating_message, successful_outcome,
  unsuccessful_outcome, nothing,
}
use packet_rusher.Gnb.Ngap.Ues.{handler_downlink_nas_transport}
use packet_rusher.Gnb.Ngap.ContextSetup.{handler_initial_context_setup_request}
use packet_rusher.Gnb.Ngap.SessionSetup.{handler_pdu_session_resource_setup_request}
use packet_rusher.Gnb.Ngap.Release.{
  handler_pdu_session_release_command, handler_path_switch_request_acknowledge,
}
use packet_rusher.Gnb.Ngap.Setup.{handler_ng_setup_response, handler_ng_setup_failure}
use packet_rusher.Gnb.Ngap.Update.{Update, handler_amf_configuration_update, put_amf}
use packet_rusher.Gnb.Ngap.Status.{handler_amf_status_indication}
use packet_rusher.Gnb.Ngap.Handover.{
  handler_ue_context_release_command, handler_handover_request, handler_handover_command,
  handler_paging, handler_error_indication,
}

-- The world at the arrival of a message: the AMF of the connection, the count of connections of the
-- process, the clock, and the channels that a handler would make.
pub record Arrival : Type 0 where
  pub amf : GnbAmf
  pub count : ℕ
  pub time : ℕ
  pub new_rx : ℕ
  pub new_tx : ℕ

-- The outputs, the context, and the count of connections.
abbrev pub Dispatched : Type 0
Dispatched = Outcome (GnbContext × List Output × ℕ)

abbrev pub keep_count : ℕ → Run → Dispatched
keep_count n run = run >>= λ r. ok (r.0, r.1, n)

module _ (lib : NgapLib) where
  -- Initiating messages.
  pub on_initiating : ProcedureCode → Arrival → GnbContext → List Ie → Dispatched
  on_initiating ProcedureCode.downlink_nas_transport w gnb ies =
      keep_count w.count (handler_downlink_nas_transport gnb ies)
  on_initiating ProcedureCode.initial_context_setup w gnb ies =
      keep_count w.count (handler_initial_context_setup_request lib gnb ies)
  on_initiating ProcedureCode.pdu_session_resource_setup w gnb ies =
      keep_count w.count (handler_pdu_session_resource_setup_request lib gnb ies)
  on_initiating ProcedureCode.pdu_session_resource_release w gnb ies =
      keep_count w.count (handler_pdu_session_release_command lib gnb ies)
  on_initiating ProcedureCode.ue_context_release w gnb ies =
      keep_count w.count (handler_ue_context_release_command lib gnb ies)
  on_initiating ProcedureCode.amf_configuration_update w gnb ies =
      handler_amf_configuration_update lib w.amf gnb w.count ies >>= λ u.
      ok (u.gnb, u.sent, u.conn_count)
  on_initiating ProcedureCode.amf_status_indication w gnb ies =
      keep_count w.count (handler_amf_status_indication lib gnb ies)
  on_initiating ProcedureCode.handover_resource_allocation w gnb ies =
      keep_count w.count (handler_handover_request lib gnb ies)
  on_initiating ProcedureCode.paging w gnb ies = keep_count w.count (handler_paging gnb w.time ies)
  on_initiating ProcedureCode.error_indication w gnb ies =
      keep_count w.count (handler_error_indication gnb ies)
  on_initiating _ w gnb ies = ok (gnb, [], w.count)

  pub on_successful : ProcedureCode → Arrival → GnbContext → List Ie → Dispatched
  on_successful ProcedureCode.ng_setup w gnb ies =
      handler_ng_setup_response w.amf ies >>= λ amf. ok (put_amf gnb amf, [], w.count)
  on_successful ProcedureCode.path_switch w gnb ies =
      keep_count w.count (handler_path_switch_request_acknowledge lib gnb ies)
  on_successful ProcedureCode.handover_preparation w gnb ies =
      keep_count w.count (handler_handover_command lib gnb w.new_rx w.new_tx ies)
  on_successful _ w gnb ies = ok (gnb, [], w.count)

  pub on_unsuccessful : ProcedureCode → Arrival → GnbContext → List Ie → Dispatched
  on_unsuccessful ProcedureCode.ng_setup w gnb ies =
      ok (put_amf gnb (handler_ng_setup_failure w.amf ies), [], w.count)
  on_unsuccessful _ w gnb ies = ok (gnb, [], w.count)

  pub on_present : Present → ProcedureCode → Arrival → GnbContext → List Ie → Dispatched
  unfolding on_initiating on_successful on_unsuccessful
  on_present initiating_message code w gnb ies = on_initiating code w gnb ies
  on_present successful_outcome code w gnb ies = on_successful code w gnb ies
  on_present unsuccessful_outcome code w gnb ies = on_unsuccessful code w gnb ies
  on_present nothing code w gnb ies = ok (gnb, [], w.count)

  -- An error of the decoder is only logged: what it returned is read.
  pub ngap_dispatch : Arrival → GnbContext → List ℕ → Dispatched
  unfolding on_present
  ngap_dispatch w gnb message =
      deref (lib.decoder message) >>= λ pdu. on_present pdu.present pdu.procedure_code w gnb pdu.ies
