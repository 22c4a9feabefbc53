-- ===== src/Gnb/Ngap/Release.antt =====
-- `HandlerPduSessionReleaseCommand` and `HandlerPathSwitchRequestAcknowledge` of gnb/ngap/handler.go.
pub mod Kept
use packet_rusher.Base.{
  ℕ, ◌+◌, ◌-◌, ◌*◌, ◌/◌, ◌%◌, Bool, true, false, Option, none, some, List, [], ◌∷◌, ◌++◌, Outcome,
  ok, panic, fatal, ◌>>=◌, at, deref, codes, ltb, if◌then◌else◌, set, replicate,
}
use packet_rusher.Base.Int.{ℤ}
use packet_rusher.Gnb.Amf.{AddrPort}
use packet_rusher.Gnb.Ue.{
  GnbUe, GnbPduSession, Request, Result, done, error, create_pdu_session, create_ue_context,
  get_pdu_session, delete_pdu_session, get_selected_nssai, slot, with_session, max_sessions,
}
use packet_rusher.Gnb.Context.{GnbContext, get_ue_teid}
use packet_rusher.Gnb.Messages.{
  Output, UeMessage, zero_message, put_ue, send_message_to_ue, send_to_ue,
}
use packet_rusher.Gnb.Ngap.{
  NgapLib, Ie, Run, SetupItem, SwitchedItem, TransferIe, Tunnel, QosFlow, read_ies, mandatory,
  ue_of, send_from, get_ue_from_context, hex_of, informed, big_endian_uint32, ◌>>>◌,
}
use packet_rusher.Gnb.Ngap.Ies.{
  Locals, zero_locals, read_downlink, read_context, read_setup, read_release, read_switched,
}
use packet_rusher.Gnb.Ngap.Triggers.{
  bytes_of, send_initial_context_setup_response, send_pdu_session_resource_setup_response,
  send_pdu_session_release_response,
}
use packet_rusher.Gnb.Ngap.Ues.{
  for_ue, tell, tell_nas, tell_nas_if, create_for, last_tunnel, upf_ip_of, teid_of, plain_setup,
}

abbrev pub left_after : GnbUe → Result GnbUe → GnbUe
left_after ue (error e) = ue
left_after ue (done ue') = ue'

-- A session that is absent is only logged.
pub delete_present : GnbUe → ℤ → Result (Option GnbPduSession) → Outcome GnbUe
delete_present ue id (error e) = ok ue
delete_present ue id (done none) = ok ue
delete_present ue id (done (some s)) = delete_pdu_session ue id >>= λ r. ok (left_after ue r)

pub release_sessions : List ℤ → GnbUe → Outcome GnbUe
unfolding delete_present
release_sessions [] ue = ok ue
release_sessions (id ∷ rest) ue = get_pdu_session ue id >>= λ found.
    delete_present ue id found >>= λ ue'. release_sessions rest ue'

-- The session and the table of the UE after its uplink tunnel was replaced; no tunnel changes nothing.
pub switch_tunnel :
    NgapLib
    → GnbUe
    → ℤ
    → Option GnbPduSession
    → Option Tunnel
    → Outcome (GnbUe × Option GnbPduSession)
switch_tunnel lib ue id s none = ok (ue, s)
switch_tunnel lib ue id s (some t) = do
  uplink ← big_endian_uint32 t.gtp_teid
  old ← deref s
  i ← slot id
  let new = record old {
    uplink_teid = uplink;
    upf_ip = lib.ip_address_to_string t.transport_layer_address;
  }
  ok (with_session ue i (some new), some new)

abbrev pub first_session : GnbContext → Option GnbPduSession → UeMessage
first_session gnb s = record zero_message {
  gnb_ip = gnb.data_ip_port.addr;
  gnb_pdu_sessions = set (replicate max_sessions none) 0 s;
}

module _ (lib : NgapLib) where
  pub release_for : Locals → GnbContext → ℕ → Run
  unfolding release_sessions
  release_for l gnb p = ue_of gnb p >>= λ ue. release_sessions l.release_ids ue >>= λ ue'.
      send_from (put_ue gnb p ue') (send_pdu_session_release_response lib l.release_ids ue')
      >>> tell_nas (bytes_of l.message_nas) p

  unfoldable pub handler_pdu_session_release_command : GnbContext → List Ie → Run
  unfolding release_for
  handler_pdu_session_release_command gnb ies =
      read_ies read_release ies zero_locals >>= λ l. for_ue gnb l (release_for l)

  -- An id that is refused, or a transfer that cannot be decoded, is skipped.
  pub switch_found : ℕ → SwitchedItem → GnbContext → GnbUe → Result (Option GnbPduSession) → Run
  unfolding switch_tunnel
  switch_found p item gnb ue (error e) = ok (gnb, [])
  switch_found p item gnb ue (done s) = elim (lib.unmarshal_switch item.switch_transfer) [
    | none ↦ ok (gnb, [])
    | some t ↦ switch_tunnel lib ue item.switched_id s t >>= λ r.
        tell (first_session gnb r.1) p (put_ue gnb p r.0)
  ]

  pub switch_items : ℕ → List SwitchedItem → GnbContext → Run
  unfolding switch_found
  switch_items p [] gnb = ok (gnb, [])
  switch_items p (item ∷ rest) gnb =
      (ue_of gnb p >>= λ ue.
      get_pdu_session ue item.switched_id >>= λ found. switch_found p item gnb ue found)
      >>> switch_items p rest

  pub switch_for : Locals → GnbContext → ℕ → Run
  unfolding switch_items
  switch_for l gnb p = elim l.switched [
    | none ↦ ok (gnb, [])
    | some items ↦ switch_items p items gnb
  ]

  unfoldable pub handler_path_switch_request_acknowledge : GnbContext → List Ie → Run
  unfolding switch_for
  handler_path_switch_request_acknowledge gnb ies =
      read_ies read_switched ies zero_locals >>= λ l. for_ue gnb l (switch_for l)
