-- ===== src/Gnb/Ngap/ContextSetup.antt =====
-- `HandlerInitialContextSetupRequest` of gnb/ngap/handler.go.
pub mod Kept
use packet_rusher.Base.{
  ℕ, ◌+◌, ◌-◌, ◌*◌, ◌/◌, ◌%◌, Bool, true, false, Option, none, some, List, [], ◌∷◌, ◌++◌, Outcome,
  ok, panic, fatal, ◌>>=◌, at, deref, codes, ltb, if◌then◌else◌, set, replicate,
}
use packet_rusher.Base.Int.{ℤ}
use packet_rusher.Gnb.Amf.{AddrPort}
use packet_rusher.Gnb.Ue.{
  GnbUe, GnbPduSession, Request, Result, done, error, create_pdu_session, create_ue_context,
  get_pdu_session, delete_pdu_session, get_selected_nssai, slot, with_session, max_sessions,
}
use packet_rusher.Gnb.Context.{GnbContext, get_ue_teid}
use packet_rusher.Gnb.Messages.{
  Output, UeMessage, zero_message, put_ue, send_message_to_ue, send_to_ue,
}
use packet_rusher.Gnb.Ngap.{
  NgapLib, Ie, Run, SetupItem, SwitchedItem, TransferIe, Tunnel, QosFlow, read_ies, mandatory,
  ue_of, send_from, get_ue_from_context, hex_of, informed, big_endian_uint32, ◌>>>◌,
}
use packet_rusher.Gnb.Ngap.Ies.{
  Locals, zero_locals, read_downlink, read_context, read_setup, read_release, read_switched,
}
use packet_rusher.Gnb.Ngap.Triggers.{
  bytes_of, send_initial_context_setup_response, send_pdu_session_resource_setup_response,
  send_pdu_session_release_response,
}
use packet_rusher.Gnb.Ngap.Ues.{
  for_ue, tell, tell_nas, tell_nas_if, create_for, last_tunnel, upf_ip_of, teid_of, plain_setup,
}

module _ (lib : NgapLib) where
  pub context_item : ℕ → SetupItem → GnbContext → Run
  context_item p item gnb = elim (lib.unmarshal_setup (bytes_of item.transfer)) [
    | none ↦ ok (gnb, [])
    | some ies ↦ plain_setup lib gnb p item ies >>= λ gnb'. tell_nas_if item.item_nas p gnb'
  ]

  pub context_items : ℕ → List SetupItem → GnbContext → Run
  context_items p [] gnb = ok (gnb, [])
  context_items p (item ∷ rest) gnb = context_item p item gnb >>> context_items p rest

  pub tell_sessions : ℕ → GnbContext → Run
  tell_sessions p gnb = ue_of gnb p >>= λ ue.
      tell
        (record zero_message {
          gnb_pdu_sessions = ue.context.pdu_session;
          gnb_ip = gnb.data_ip_port.addr;
        })
        p gnb

  abbrev pub context_list : ℕ → Option (List SetupItem) → GnbContext → Run
  context_list p none gnb = ok (gnb, [])
  context_list p (some items) gnb = context_items p items gnb >>> tell_sessions p

  pub setup_context : Locals → GnbContext → ℕ → Run
  setup_context l gnb p = ue_of gnb p >>= λ ue.
      create_ue_context ue l.mobility_restrict l.imeisv l.sst_list l.sd_list l.capabilities
      >>= λ ue'.
          tell_nas_if l.message_nas p (put_ue gnb p ue') >>> context_list p l.setup_list >>> λ gnb'.
          ue_of gnb' p >>= λ now. send_from gnb' (send_initial_context_setup_response lib now gnb')

  unfoldable pub handler_initial_context_setup_request : GnbContext → List Ie → Run
  handler_initial_context_setup_request gnb ies =
      read_ies read_context ies zero_locals >>= λ l. for_ue gnb l (setup_context l)
