-- ===== src/Gnb/Ngap/SessionSetup.antt =====
-- `HandlerPduSessionResourceSetupRequest` of gnb/ngap/handler.go.
pub mod Kept
pub mod Accepted
mod Tests
use packet_rusher.Base.{
  ℕ, ◌+◌, ◌-◌, ◌*◌, ◌/◌, ◌%◌, Bool, true, false, Option, none, some, List, [], ◌∷◌, ◌++◌, Outcome,
  ok, panic, fatal, ◌>>=◌, at, deref, codes, ltb, if◌then◌else◌, set, replicate,
}
use packet_rusher.Base.Int.{ℤ}
use packet_rusher.Gnb.Amf.{AddrPort}
use packet_rusher.Gnb.Ue.{
  GnbUe, GnbPduSession, Request, Result, done, error, create_pdu_session, create_ue_context,
  get_pdu_session, delete_pdu_session, get_selected_nssai, slot, with_session, max_sessions,
}
use packet_rusher.Gnb.Context.{GnbContext, get_ue_teid}
use packet_rusher.Gnb.Messages.{
  Output, UeMessage, zero_message, put_ue, send_message_to_ue, send_to_ue,
}
use packet_rusher.Gnb.Ngap.{
  NgapLib, Ie, Run, SetupItem, SwitchedItem, TransferIe, Tunnel, QosFlow, read_ies, mandatory,
  ue_of, send_from, get_ue_from_context, hex_of, informed, big_endian_uint32, ◌>>>◌,
}
use packet_rusher.Gnb.Ngap.Ies.{
  Locals, zero_locals, read_downlink, read_context, read_setup, read_release, read_switched,
}
use packet_rusher.Gnb.Ngap.Triggers.{
  bytes_of, send_initial_context_setup_response, send_pdu_session_resource_setup_response,
  send_pdu_session_release_response,
}
use packet_rusher.Gnb.Ngap.Ues.{
  for_ue, tell, tell_nas, tell_nas_if, create_for, last_tunnel, upf_ip_of, teid_of, plain_setup,
}

-- The local variables of an item of a PDU Session Resource Setup Request.
pub record TransferLocals : Type 0 where
  pub ul_teid : ℕ
  pub upf_address : List ℕ
  pub pdu_s_type : ℕ
  pub qos_identifier : ℕ
  pub five_qi_value : ℕ
  pub arp : ℕ

abbrev pub zero_transfer : TransferLocals
zero_transfer = record {
  ul_teid = 0;
  upf_address = [];
  pdu_s_type = 0;
  qos_identifier = 0;
  five_qi_value = 0;
  arp = 0;
}

-- The last flow of the list; one without a non-dynamic 5QI is a nil pointer.
pub read_flows : List QosFlow → TransferLocals → Outcome TransferLocals
read_flows [] l = ok l
read_flows (flow ∷ rest) l = deref flow.non_dynamic_five_qi >>= λ v. read_flows rest (record l {
  qos_identifier = flow.identifier;
  five_qi_value = v;
  arp = flow.priority_level_arp;
})

pub read_transfer_ie : TransferIe → TransferLocals → Outcome TransferLocals
unfolding read_flows
read_transfer_ie (TransferIe.ul_ngu_up_tnl_information t) l = big_endian_uint32 t.gtp_teid >>= λ v.
    ok (record l { ul_teid = v; upf_address = t.transport_layer_address })
read_transfer_ie (TransferIe.qos_flow_setup_request_list flows) l = read_flows flows l
read_transfer_ie (TransferIe.pdu_session_type v) l = ok (record l { pdu_s_type = v })
read_transfer_ie TransferIe.other_transfer l = ok l

pub read_transfer : List TransferIe → TransferLocals → Outcome TransferLocals
unfolding read_transfer_ie
read_transfer [] l = ok l
read_transfer (ie ∷ rest) l = read_transfer_ie ie l >>= λ l'. read_transfer rest l'

-- A transfer that cannot be decoded leaves the variables at zero.
abbrev pub transfer_or_zero : Option (List TransferIe) → Outcome TransferLocals
transfer_or_zero none = ok zero_transfer
transfer_or_zero (some ies) = read_transfer ies zero_transfer

-- `%d` of a byte.
abbrev pub decimal_byte : ℕ → List ℕ
decimal_byte b =
    if ltb b 10
    then (b'0' + b) ∷ []
    else (if ltb b 100
        then (b'0' + b / 10) ∷ (b'0' + b % 10) ∷ []
        else (b'0' + b / 100) ∷ (b'0' + b / 10 % 10) ∷ (b'0' + b % 10) ∷ [])

-- `fmt.Sprintf("%d.%d.%d.%d", ...)`.
pub dotted : List ℕ → Outcome (List ℕ)
dotted b = do
  b0 ← at b 0
  b1 ← at b 1
  b2 ← at b 2
  b3 ← at b 3
  ok (decimal_byte b0 ++ b'.' ∷ decimal_byte b1 ++ b'.' ∷ decimal_byte b2 ++ b'.' ∷ decimal_byte b3)

pub requested_session : SetupItem → TransferLocals → List ℕ → ℕ → Request
requested_session item l ip downlink = record {
  pdu_session_id = item.item_id;
  upf_ip = ip;
  sst = informed item.snssai.sst_value;
  sd = informed item.snssai.sd_value;
  uplink_teid = l.ul_teid;
  downlink_teid = downlink;
  pdu_type = l.pdu_s_type;
  qos_id = l.qos_identifier;
  five_qi = l.five_qi_value;
  pri_arp = l.arp;
}

-- The message with one session in the first place of its array.
pub session_message : GnbContext → Option GnbPduSession → UeMessage
session_message gnb s = record zero_message {
  gnb_ip = gnb.data_ip_port.addr;
  gnb_pdu_sessions = set (replicate max_sessions none) 0 s;
}

-- What follows the creation of a session: a nil session is dereferenced for the log.
pub announce_session :
    List ℕ
    → ℕ
    → GnbContext
    → Option GnbPduSession
    → Outcome (GnbContext × List Output × GnbPduSession)
unfolding session_message
announce_session nas p gnb none = panic
announce_session nas p gnb (some s) = ue_of gnb p >>= λ ue.
    get_selected_nssai ue s.pdu_session_id >>= λ _.
    tell_nas nas p gnb >>> tell (session_message gnb (some s)) p >>= λ r. ok (r.0, r.1, s)

module _ (lib : NgapLib) where
  pub setup_item : ℕ → SetupItem → GnbContext → Outcome (GnbContext × List Output × GnbPduSession)
  unfolding requested_session dotted read_transfer announce_session
  setup_item p item gnb = do
    nas ← mandatory item.item_nas
    bytes ← mandatory item.transfer
    l ← transfer_or_zero (lib.unmarshal_setup bytes)
    ip ← dotted l.upf_address
    made ← create_for gnb p (requested_session item l ip)
    announce_session nas p made.0 made.1

  pub setup_items :
      ℕ → List SetupItem → GnbContext → Outcome (GnbContext × List Output × List GnbPduSession)
  unfolding setup_item
  setup_items p [] gnb = ok (gnb, [], [])
  setup_items p (item ∷ rest) gnb = setup_item p item gnb >>= λ r.
      let (gnb', out, s) = r in
      setup_items p rest gnb' >>= λ t.
      let (gnb'', later, ss) = t in ok (gnb'', out ++ later, s ∷ ss)

  pub setup_sessions : Locals → GnbContext → ℕ → Run
  unfolding setup_items
  setup_sessions l gnb p = deref l.setup_list >>= λ items. setup_items p items gnb >>= λ r.
      let (gnb', out, sessions) = r in
      ok (gnb', out) >>> send_pdu_session_resource_setup_response lib sessions p

  unfoldable pub handler_pdu_session_resource_setup_request : GnbContext → List Ie → Run
  unfolding setup_sessions
  handler_pdu_session_resource_setup_request gnb ies =
      read_ies read_setup ies zero_locals >>= λ l. for_ue gnb l (setup_sessions l)
