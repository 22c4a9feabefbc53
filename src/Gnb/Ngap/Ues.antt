-- ===== src/Gnb/Ngap/Ues.antt =====
-- What the handlers of gnb/ngap/handler.go share: they find the UE that a message names, send to it,
-- and create its PDU sessions; and the handler of NAS messages to the UE. `p` is the address of the UE
-- object.
pub mod Kept
pub mod Open
use packet_rusher.Base.{
  ℕ, ◌+◌, ◌-◌, ◌*◌, ◌/◌, ◌%◌, Bool, true, false, Option, none, some, List, [], ◌∷◌, ◌++◌, Outcome,
  ok, panic, fatal, ◌>>=◌, at, deref, codes, ltb, if◌then◌else◌, set, replicate,
}
use packet_rusher.Base.Int.{ℤ}
use packet_rusher.Gnb.Amf.{AddrPort}
use packet_rusher.Gnb.Ue.{
  GnbUe, GnbPduSession, Request, Result, done, error, create_pdu_session, create_ue_context,
  get_pdu_session, delete_pdu_session, get_selected_nssai, slot, with_session, max_sessions,
}
use packet_rusher.Gnb.Context.{GnbContext, get_ue_teid}
use packet_rusher.Gnb.Messages.{
  Output, UeMessage, zero_message, put_ue, send_message_to_ue, send_to_ue,
}
use packet_rusher.Gnb.Ngap.{
  NgapLib, Ie, Run, SetupItem, SwitchedItem, TransferIe, Tunnel, QosFlow, read_ies, mandatory,
  ue_of, send_from, get_ue_from_context, hex_of, informed, big_endian_uint32, ◌>>>◌,
}
use packet_rusher.Gnb.Ngap.Ies.{
  Locals, zero_locals, read_downlink, read_context, read_setup, read_release, read_switched,
}
use packet_rusher.Gnb.Ngap.Triggers.{
  bytes_of, send_initial_context_setup_response, send_pdu_session_resource_setup_response,
  send_pdu_session_release_response,
}

-- A handler for the UE that the message names; for an unknown one it only logs an error.
unfoldable pub for_ue : GnbContext → Locals → (GnbContext → ℕ → Run) → Run
for_ue gnb l body = get_ue_from_context gnb l.ran_id l.amf_id >>= λ found. elim found.1 [
  | none ↦ ok (found.0, [])
  | some p ↦ body found.0 p
]

-- A message, or a NAS message, to the UE at `p`.
unfoldable pub tell : UeMessage → ℕ → GnbContext → Run
tell message p gnb = ue_of gnb p >>= λ ue. send_from gnb (send_message_to_ue ue message gnb.closed)

unfoldable pub tell_nas : List ℕ → ℕ → GnbContext → Run
tell_nas nas p gnb = ue_of gnb p >>= λ ue. send_from gnb (send_to_ue ue nas gnb.closed)

-- `SendToUe`, if there is a NAS message.
abbrev pub tell_nas_if : Option (List ℕ) → ℕ → GnbContext → Run
tell_nas_if none p gnb = ok (gnb, [])
tell_nas_if (some nas) p gnb = tell_nas nas p gnb

unfoldable pub handler_downlink_nas_transport : GnbContext → List Ie → Run
handler_downlink_nas_transport gnb ies = read_ies read_downlink ies zero_locals >>= λ l.
    for_ue gnb l (λ gnb' p. tell_nas (bytes_of l.message_nas) p gnb')

-- `ue.CreatePduSession(..., gnb.GetUeTeid(ue))`: the TEID is taken first. None is the nil that comes
-- with an error.
abbrev pub created :
    GnbContext → ℕ → Result (GnbUe × GnbPduSession) → GnbContext × Option GnbPduSession
created gnb p (done r) = (put_ue gnb p r.0, some r.1)
created gnb p (error e) = (gnb, none)

unfoldable pub create_for :
    GnbContext → ℕ → (ℕ → Request) → Outcome (GnbContext × Option GnbPduSession)
create_for gnb p request =
    let (gnb', teid) = get_ue_teid gnb p in
    ue_of gnb' p >>= λ ue. create_pdu_session ue (request teid) >>= λ r. ok (created gnb' p r)

-- The last uplink tunnel of a transfer.
pub last_tunnel : List TransferIe → Option Tunnel → Option Tunnel
last_tunnel [] t = t
last_tunnel (TransferIe.ul_ngu_up_tnl_information t ∷ rest) _ = last_tunnel rest (some t)
last_tunnel (_ ∷ rest) t = last_tunnel rest t

module _ (lib : NgapLib) where
  abbrev pub upf_ip_of : Option Tunnel → List ℕ
  upf_ip_of none = []
  upf_ip_of (some t) = lib.ip_address_to_string t.transport_layer_address

  abbrev pub teid_of : Option Tunnel → List ℕ
  teid_of none = []
  teid_of (some t) = t.gtp_teid

  -- The session of an item of an Initial Context Setup Request or of a Handover Request.
  pub plain_session : SetupItem → Option Tunnel → ℕ → ℕ → Request
  plain_session item t uplink downlink = record {
    pdu_session_id = item.item_id;
    upf_ip = upf_ip_of t;
    sst = hex_of item.snssai.sst_value;
    sd = informed item.snssai.sd_value;
    uplink_teid = uplink;
    downlink_teid = downlink;
    pdu_type = 0;
    qos_id = 1;
    five_qi = 0;
    pri_arp = 0;
  }

  -- Whether the session was set up does not matter; a transfer that cannot be decoded is skipped.
  pub plain_setup : GnbContext → ℕ → SetupItem → List TransferIe → Outcome GnbContext
  unfolding create_for
  plain_setup gnb p item ies =
      let t = last_tunnel ies none in
      big_endian_uint32 (teid_of t) >>= λ uplink.
      create_for gnb p (plain_session item t uplink) >>= λ r. ok r.0
