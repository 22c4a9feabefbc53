-- ===== src/Gnb/Listen.antt =====
-- The gNB's side of the channels to its UEs: `gnbListen` and `processingConn` of
-- internal/control_test_engine/gnb/nas/service/service.go, `Dispatch` of gnb/nas/dispatcher.go, the
-- three handlers of gnb/nas/handler/handler.go.
-- One call is one message. What leaves the gNB is a list of outputs, oldest first. An NGAP message
-- goes out as the bytes that the codec gives, over the UE's SCTP connection: an error is only logged
-- where the UE's NAS messages are passed on, and ends the process in the triggers.
pub mod Dispatch
pub mod Connections
pub mod NgapHandover
pub mod XnHandover
mod Tests
use packet_rusher.Base.{
  ℕ, Bool, true, false, ◌&&◌, Option, none, some, List, [], ◌∷◌, ◌++◌, Outcome, ok, panic, blocked,
  ◌>>=◌, ◌>>◌, if◌then◌else◌, set, get_elem?, deref, replicate,
}
use packet_rusher.Gnb.Messages.{
  UeMessage, zero_message, Output, to_ue, process_connection, put_ue, send_on, send_message_to_ue,
  close_channel,
}
use packet_rusher.Gnb.Amf.{GnbAmf}
use packet_rusher.Gnb.Ue.{
  GnbUe, GnbPduSession, UeState, initialized, ongoing, ready, down, copy_from_previous_context,
  max_sessions,
}
use packet_rusher.Gnb.Context.{
  GnbContext, ControlInfo, PagedUe, new_gnb_ue, get_gnb_ue, get_gnb_ue_by_pr_ue_id, delete_gnb_ue,
  close_tx, contains,
}
use packet_rusher.Gnb.Ngap.{NgapLib, AmfMessage}
use packet_rusher.Gnb.Ngap.Triggers.{
  bytes_of, send_or_warn, send_handover_notify, send_path_switch_request,
  send_ue_context_release_request,
}

-- The paged UEs are sent on the channel that came with the request, which is then closed.
pub fetch_paged : GnbContext → UeMessage → Outcome (GnbContext × List Output)
fetch_paged gnb message = elim message.gnb_tx [
  | none ↦ ok (gnb, [])
  | some c ↦
      (if gnb.paged_ue_locked
        then blocked
        else send_on (some c) (record zero_message { paged_ues = gnb.paged_ues }) gnb.closed)
      >>= λ out.
          close_channel (some c) gnb.closed >>= λ closed. ok (record gnb { closed = closed }, out)
]

-- The context is deleted unless it names the gNB of a handover.
pub clean_context : Option ℕ → GnbContext → ℕ → Outcome GnbContext
clean_context none gnb p = delete_gnb_ue gnb p
clean_context (some other) gnb p = ok gnb

-- The UE closed its side: its object goes down, and is deleted unless an NGAP handover is under way.
pub connection_closed_by_ue : GnbContext → ℕ → ℕ → Outcome GnbContext
connection_closed_by_ue gnb known p = deref (get_elem? gnb.ues known) >>= λ ue.
    clean_context ue.new_gnb (put_ue gnb known (record ue { state = down })) p

-- What the UE object at the target of an Xn handover becomes.
abbrev pub moved : GnbUe → GnbUe → GnbUe
moved ue old = copy_from_previous_context (record ue { state = ready }) old

module _ (lib : NgapLib) where
  -- The UE came by a handover that the AMF prepared: its object `ue` is at `p` already.
  pub accept_handover : GnbContext → ℕ → GnbUe → UeMessage → Outcome (GnbContext × List Output)
  accept_handover gnb p ue message =
      let connected = record ue { gnb_rx = message.gnb_rx; gnb_tx = message.gnb_tx } in
      let sessions = record zero_message {
        gnb_pdu_sessions = ue.context.pdu_session;
        gnb_ip = gnb.data_ip_port.addr;
      } in
      let now = record connected { state = ready } in
      let gnb' = put_ue gnb p now in
      send_message_to_ue connected sessions gnb.closed >>= λ told.
      send_handover_notify lib gnb' now >>= λ notified.
      ok (gnb', told ++ notified ++ process_connection p ∷ [])

  -- The UE was created at `p`: by an Xn handover from another gNB, or as a first connection.
  pub start_ue : GnbContext → ℕ → GnbUe → UeMessage → Outcome (GnbContext × List Output)
  start_ue gnb p ue message = elim message.ue_context [
    | none ↦ first_connection
    | some old ↦
        if message.is_handover
        then (send_path_switch_request lib (put_ue gnb p (moved ue old)) (moved ue old) >>= λ out.
            ok (put_ue gnb p (moved ue old), out ++ process_connection p ∷ []))
        else first_connection
  ]
    where
      first_connection : Outcome (GnbContext × List Output)
      first_connection =
          send_on message.gnb_tx
            (record zero_message { mcc = gnb.control_info.mcc; mnc = gnb.control_info.mnc })
            gnb.closed
          >>= λ out. ok (
            put_ue gnb p (record ue {
              context = record (ue.context) { pdu_session = message.gnb_pdu_sessions };
            }),
            out ++ process_connection p ∷ [],
          )

  -- `NewGnBUe`, and what follows it; without an AMF the connection to the UE is closed.
  pub connect_ue : List GnbAmf → GnbContext → UeMessage → Outcome (GnbContext × List Output)
  connect_ue order gnb message =
      let (gnb', created) =
        new_gnb_ue order gnb message.gnb_tx message.gnb_rx message.pr_ue_id message.tmsi in
      elim created [
        | none ↦ close_channel message.gnb_tx gnb'.closed >>= λ closed.
            ok (record gnb' { closed = closed }, [])
        | some p ↦ deref (get_elem? gnb'.ues p) >>= λ ue. start_ue gnb' p ue message
      ]

  -- One message on the inbound channel.
  pub gnb_listen : List GnbAmf → GnbContext → UeMessage → Outcome (GnbContext × List Output)
  gnb_listen order gnb message =
      if message.fetch_paged_ues
      then fetch_paged gnb message
      else elim (get_gnb_ue_by_pr_ue_id gnb message.pr_ue_id) [
        | none ↦ connect_ue order gnb message
        | some p ↦
            if message.is_handover
            then (deref (get_elem? gnb.ues p) >>= λ ue. accept_handover gnb p ue message)
            else connect_ue order gnb message
      ]

  -- A NAS message of the UE in NGAP: an error of the encoder, which then gives nil, is only logged.
  abbrev pub initial_bytes : ControlInfo → GnbUe → List ℕ → List ℕ
  initial_bytes control ue message =
      bytes_of
        (lib.encode (AmfMessage.initial_ue_message ue.ran_ue_ngap_id message ue.tmsi control))

  abbrev pub uplink_bytes : ControlInfo → GnbUe → List ℕ → List ℕ
  uplink_bytes control ue message = bytes_of (
      lib.encode
        (AmfMessage.uplink_nas_transport ue.amf_ue_ngap_id ue.ran_ue_ngap_id message control))

  -- `Dispatch` and its handlers: the UE object after a NAS message, and what goes to the AMF.
  pub dispatch_state : UeState → ControlInfo → GnbUe → List ℕ → Outcome (GnbUe × List Output)
  dispatch_state initialized control ue message =
      send_or_warn lib ue.sctp_connection (initial_bytes control ue message) >>= λ out.
      ok (record ue { state = ongoing }, out)
  dispatch_state ongoing control ue message =
      send_or_warn lib ue.sctp_connection (uplink_bytes control ue message) >>= λ out. ok (ue, out)
  dispatch_state ready control ue message =
      send_or_warn lib ue.sctp_connection (uplink_bytes control ue message) >>= λ out. ok (ue, out)
  dispatch_state down control ue message = ok (ue, [])

  pub dispatch : ControlInfo → GnbUe → List ℕ → Outcome (GnbUe × List Output)
  unfolding dispatch_state
  dispatch control ue message = dispatch_state ue.state control ue message

  -- A message of the UE at `p` whose context the gNB still has at `known`.
  pub known_message : GnbContext → ℕ → ℕ → UeMessage → Outcome (GnbContext × List Output)
  known_message gnb known p message =
      if message.connection_closed
      then (connection_closed_by_ue gnb known p >>= λ gnb'. ok (gnb', []))
      else (if message.is_nas
          then (deref (get_elem? gnb.ues p) >>= λ ue.
              dispatch gnb.control_info ue message.nas >>= λ r. ok (put_ue gnb p r.0, r.1))
          else (if message.idle
              then (deref (get_elem? gnb.ues p) >>= λ ue.
                  send_ue_context_release_request lib ue >>= λ out. ok (gnb, out))
              else ok (gnb, [])))

  -- One round for the UE at `p`, whose RAN id leads to `known` in the pool.
  pub conn_round :
      GnbContext → ℕ → Option ℕ → Option UeMessage → Outcome (GnbContext × List Output × Bool)
  conn_round gnb p none received = ok (gnb, [], false)
  conn_round gnb p (some known) none = deref (get_elem? gnb.ues known) >>= λ ue.
      ok (put_ue gnb known (record ue { state = down }), [], false)
  conn_round gnb p (some known) (some m) = known_message gnb known p m >>= λ r. ok (r.0, r.1, true)

  -- One round of `processingConn` for the UE at `p`; no message means that its channel was closed. The
  -- result is the new state, the outputs, and whether the loop goes on.
  pub processing_conn :
      GnbContext → ℕ → Option UeMessage → Outcome (GnbContext × List Output × Bool)
  processing_conn gnb p message = deref (get_elem? gnb.ues p) >>= λ ue.
      conn_round gnb p (get_gnb_ue gnb ue.ran_ue_ngap_id) message
