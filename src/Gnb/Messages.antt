-- ===== src/Gnb/Messages.antt =====
-- What the gNB sends: the messages on the channels to its UEs and to other gNBs,
-- internal/control_test_engine/gnb/context/msg.go and gnb/nas/message/sender/send.go, and the NGAP
-- messages to the AMF. `closed` are the channels that were closed.
use packet_rusher.Base.{
  ℕ, Bool, true, false, Option, none, some, List, [], ◌∷◌, Outcome, ok, panic, blocked,
  if◌then◌else◌, set, replicate,
}
use packet_rusher.Gnb.Ue.{GnbUe, GnbPduSession, max_sessions}
use packet_rusher.Gnb.Context.{GnbContext, PagedUe, close_tx, contains}

pub record UeMessage : Type 0 where
  pub gnb_pdu_sessions : List (Option GnbPduSession)
  pub gnb_ip : List ℕ
  pub gnb_rx : Option ℕ
  pub gnb_tx : Option ℕ
  pub gnb_inbound_channel : Option ℕ
  pub is_nas : Bool
  pub nas : List ℕ
  pub connection_closed : Bool
  pub pr_ue_id : ℕ
  pub tmsi : Option ℕ
  pub mcc : List ℕ
  pub mnc : List ℕ
  pub ue_context : Option GnbUe
  pub is_handover : Bool
  pub idle : Bool
  pub fetch_paged_ues : Bool
  pub paged_ues : List PagedUe

-- `UEMessage{}`.
abbrev pub zero_message : UeMessage
zero_message = record {
  gnb_pdu_sessions = replicate max_sessions none;
  gnb_ip = [];
  gnb_rx = none;
  gnb_tx = none;
  gnb_inbound_channel = none;
  is_nas = false;
  nas = [];
  connection_closed = false;
  pr_ue_id = 0;
  tmsi = none;
  mcc = [];
  mnc = [];
  ue_context = none;
  is_handover = false;
  idle = false;
  fetch_paged_ues = false;
  paged_ues = [];
}

-- The address `p` names the UE object; `conn` is the SCTP connection that is written to. `to_gnb` is
-- the inbound channel of another gNB, `listen` the goroutine that reads an AMF's connection, and
-- `release` the close of one.
pub data Output : Type 0 where
  to_ue : (channel : ℕ) → UeMessage → Output
  process_connection : (p : ℕ) → Output
  to_gnb : (channel : ℕ) → UeMessage → Output
  to_amf : (conn : Option ℕ) → List ℕ → Output
  listen : (amf_id : ℕ) → Output
  release : (conn : Option ℕ) → Output

abbrev pub put_ue : GnbContext → ℕ → GnbUe → GnbContext
put_ue gnb p ue = record gnb { ues = set gnb.ues p ue }

-- A send on a channel: for ever on nil, a panic on a closed one.
unfoldable pub send_on : Option ℕ → UeMessage → List ℕ → Outcome (List Output)
send_on none message closed = blocked
send_on (some c) message closed = if contains closed c then panic else ok (to_ue c message ∷ [])

-- `SendMessageToUe`: nothing is sent if the channel is nil.
unfoldable pub send_message_to_ue : GnbUe → UeMessage → List ℕ → Outcome (List Output)
send_message_to_ue ue message closed = elim ue.gnb_tx [
  | none ↦ ok []
  | some c ↦ send_on (some c) message closed
]

-- `SendToUe`: a NAS message.
unfoldable pub send_to_ue : GnbUe → List ℕ → List ℕ → Outcome (List Output)
unfolding send_message_to_ue
send_to_ue ue message closed =
    send_message_to_ue ue (record zero_message { is_nas = true; nas = message }) closed

-- `close(message.GNBTx)`: a nil channel panics.
unfoldable pub close_channel : Option ℕ → List ℕ → Outcome (List ℕ)
close_channel none closed = panic
close_channel (some c) closed = close_tx (some c) closed
