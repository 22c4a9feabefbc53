-- ===== src/Gnb/Ngap/Triggers.antt =====
-- The messages that the gNB sends to the AMF: internal/control_test_engine/gnb/ngap/trigger/trigger.go
-- and gnb/ngap/message/sender/send.go. What a builder and the codec give is `encode`.
pub mod Kept
use packet_rusher.Base.{
  ℕ, ◌≡◌, refl, Bool, true, false, Option, none, some, List, [], ◌∷◌, ◌++◌, Outcome, ok, panic,
  fatal, blocked, ◌>>=◌, ◌>>◌, if◌then◌else◌, fatal_if, not,
}
use packet_rusher.Base.Int.{ℤ}
use packet_rusher.Gnb.Amf.{GnbAmf}
use packet_rusher.Gnb.Ue.{GnbUe, GnbPduSession, ready}
use packet_rusher.Gnb.Context.{GnbContext, get_gnb_ue_by_pr_ue_id, contains}
use packet_rusher.Gnb.Messages.{
  Output, to_amf, to_gnb, UeMessage, zero_message, put_ue, send_message_to_ue,
}
use packet_rusher.Gnb.Ngap.{
  NgapLib, AmfMessage, Run, ue_of, mandatory, pdu_session_resource_setup_response,
  pdu_session_release_response, initial_context_setup_response, ue_context_release_complete,
  amf_configuration_update_acknowledge, ng_setup_request, handover_request_acknowledge,
  handover_required, send_from,
}

abbrev pub is_empty : {A : Type 0} → List A → Bool
is_empty [] = true
is_empty (x ∷ xs) = false

-- What the encoder returns with an error is nil.
abbrev pub bytes_of : Option (List ℕ) → List ℕ
bytes_of none = []
bytes_of (some bytes) = bytes

module _ (lib : NgapLib) where
  -- `SendToAmF`, whose error the trigger makes fatal, or only logs; a nil connection panics.
  unfoldable pub send_or_fatal : Option ℕ → List ℕ → Outcome (List Output)
  send_or_fatal none bytes = panic
  send_or_fatal (some c) bytes =
      if lib.sctp_write c bytes then ok (to_amf (some c) bytes ∷ []) else fatal

  unfoldable pub send_or_warn : Option ℕ → List ℕ → Outcome (List Output)
  send_or_warn none bytes = panic
  send_or_warn (some c) bytes =
      ok (if lib.sctp_write c bytes then to_amf (some c) bytes ∷ [] else [])

  -- The state of the UE changes between the encoding and the write.
  pub send_pdu_session_resource_setup_response : List GnbPduSession → ℕ → GnbContext → Run
  unfolding send_or_fatal
  send_pdu_session_resource_setup_response sessions p gnb = ue_of gnb p >>= λ ue.
      mandatory (lib.encode (pdu_session_resource_setup_response sessions ue gnb)) >>= λ bytes.
      send_from (put_ue gnb p (record ue { state = ready }))
        (send_or_fatal ue.sctp_connection bytes)

  pub send_pdu_session_release_response : List ℤ → GnbUe → Outcome (List Output)
  unfolding send_or_fatal
  send_pdu_session_release_response ids ue =
      fatal_if (is_empty ids)
      >> mandatory (lib.encode (pdu_session_release_response ids ue))
      >>= λ bytes. send_or_fatal ue.sctp_connection bytes

  pub send_initial_context_setup_response : GnbUe → GnbContext → Outcome (List Output)
  unfolding send_or_fatal
  send_initial_context_setup_response ue gnb =
      mandatory (lib.encode (initial_context_setup_response ue gnb)) >>= λ bytes.
      send_or_fatal ue.sctp_connection bytes

  unfoldable pub send_ue_context_release_complete : GnbUe → Outcome (List Output)
  unfolding send_or_fatal
  send_ue_context_release_complete ue =
      mandatory (lib.encode (ue_context_release_complete ue)) >>= λ bytes.
      send_or_fatal ue.sctp_connection bytes

  pub send_amf_configuration_update_acknowledge : GnbAmf → Outcome (List Output)
  unfolding send_or_warn
  send_amf_configuration_update_acknowledge amf =
      send_or_warn amf.tnla.sctp_conn (bytes_of (lib.encode amf_configuration_update_acknowledge))

  pub send_ng_setup_request : GnbContext → GnbAmf → Outcome (List Output)
  unfolding send_or_warn
  send_ng_setup_request gnb amf =
      send_or_warn amf.tnla.sctp_conn (bytes_of (lib.encode (ng_setup_request gnb)))

  pub send_handover_request_acknowledge : GnbContext → GnbUe → Outcome (List Output)
  unfolding send_or_fatal
  send_handover_request_acknowledge gnb ue =
      send_or_fatal ue.sctp_connection (bytes_of (lib.encode (handover_request_acknowledge gnb ue)))

  unfoldable pub send_ue_context_release_request : GnbUe → Outcome (List Output)
  unfolding send_or_fatal
  send_ue_context_release_request ue =
      mandatory (lib.encode (AmfMessage.ue_context_release_request ue)) >>= λ bytes.
      send_or_fatal ue.sctp_connection bytes

  unfoldable pub send_path_switch_request : GnbContext → GnbUe → Outcome (List Output)
  unfolding send_or_fatal
  send_path_switch_request gnb ue =
      send_or_fatal ue.sctp_connection
        (bytes_of (lib.encode (AmfMessage.path_switch_request gnb ue)))

  unfoldable pub send_handover_notify : GnbContext → GnbUe → Outcome (List Output)
  unfolding send_or_fatal
  send_handover_notify gnb ue =
      send_or_fatal ue.sctp_connection (bytes_of (lib.encode (AmfMessage.handover_notify gnb ue)))

  -- `new_gnb` is the address of the target, whose inbound channel is its own.
  pub trigger_ngap_handover : GnbContext → ℕ → ℕ → Run
  unfolding send_or_fatal
  trigger_ngap_handover old_gnb new_gnb pr_ue_id =
      mandatory (get_gnb_ue_by_pr_ue_id old_gnb pr_ue_id) >>= λ p. ue_of old_gnb p >>= λ ue.
      let ue' = record ue { new_gnb = some new_gnb } in
      let gnb = put_ue old_gnb p ue' in
      send_from gnb (
        send_or_fatal ue.sctp_connection
          (bytes_of (lib.encode (handover_required gnb new_gnb ue'))))

-- A write over a connection that succeeds.
abbrev pub Writes : NgapLib → Option ℕ → List ℕ → Type 0
Writes lib none bytes = ⊥
Writes lib (some c) bytes = lib.sctp_write c bytes ≡ true

pub send_or_fatal-Writes :
    (lib : NgapLib) (conn : Option ℕ) (bytes : List ℕ)
    → Writes lib conn bytes
    → send_or_fatal lib conn bytes ≡ ok (to_amf conn bytes ∷ [])
unfolding send_or_fatal
send_or_fatal-Writes lib none bytes h = absurd h
send_or_fatal-Writes lib (some c) bytes h = rw h refl

-- A send on the inbound channel of another gNB.
unfoldable pub send_inbound : Option ℕ → UeMessage → List ℕ → Outcome (List Output)
send_inbound none message closed = blocked
send_inbound (some c) message closed =
    if contains closed c then panic else ok (to_gnb c message ∷ [])

-- What the target gNB and the UE receive in an Xn handover, over the channels that `make` gave.
unfoldable pub xn_request : GnbUe → ℕ → ℕ → UeMessage
xn_request ue rx tx = record zero_message {
  gnb_rx = some rx;
  gnb_tx = some tx;
  pr_ue_id = ue.pr_ue_id;
  ue_context = some ue;
  is_handover = true;
}

unfoldable pub new_connection : ℕ → ℕ → Option ℕ → UeMessage
new_connection rx tx inbound = record zero_message {
  gnb_rx = some rx;
  gnb_tx = some tx;
  gnb_inbound_channel = inbound;
}

-- The outputs, to the target and to the UE; nothing changes in either gNB.
unfoldable pub trigger_xn_handover : GnbContext → GnbContext → ℕ → ℕ → ℕ → Outcome (List Output)
unfolding send_inbound
trigger_xn_handover old_gnb target pr_ue_id rx tx =
    mandatory (get_gnb_ue_by_pr_ue_id old_gnb pr_ue_id) >>= λ p. ue_of old_gnb p >>= λ ue.
    send_inbound target.control_info.inbound_channel (xn_request ue rx tx) target.closed
    >>= λ first.
        send_message_to_ue ue (new_connection rx tx target.control_info.inbound_channel)
          old_gnb.closed
        >>= λ second. ok (first ++ second)
