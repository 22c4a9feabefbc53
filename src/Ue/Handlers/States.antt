-- ===== src/Ue/Handlers/States.antt =====
-- What the handlers do to the 5GMM state of the UE:
-- internal/control_test_engine/ue/nas/handler/handler.go.
use packet_rusher.Base.{
  ℕ, ◌≡◌, Bool, true, false, Option, none, some, List, ok, panic, fatal, ◌>>=◌, ◌>>◌, deref, Post,
  bind, after, get_elem?, set, ◌+◌, ◌%◌, ◌^◌, fatal_if, not, ltb, if◌then◌else◌, ◌==◌,
}
use packet_rusher.Ue.Context.{
  UeContext, UePduSession, SmState, sm_inactive, sm_active, sm_active_pending, Security, MmState,
  emit, signal_stop, get_pdu_session, delete_pdu_session, delete_found, entry, close_wait,
  put_object, retry_timer,
}
use packet_rusher.Ue.Nas.{
  NasLib, identity_response, Mandatory, UplinkNas, SecurityModeCommand, EstablishmentAccept,
  SmMessage, establishment_accept, release_command, establishment_reject, other_sm, DlNasTransport,
}
use packet_rusher.Ue.Security.{
  HeaderType, secure, secured, encode_nas_pdu_with_security, send_nas, send_to_gnb,
}
use packet_rusher.Ue.Trigger.{
  init_pdu_session_release_complete, release_complete_in_state, init_configuration_update_complete,
  init_identify_response,
}
use packet_rusher.Ue.Handlers.{
  check_header, handler_security_mode_command, handler_dl_nas_transport_pduaccept, on_sm_message,
  on_establishment_accept, activate_found, on_release_command, release_found, or_unchanged,
  on_establishment_reject, retry_found, handler_identity_request,
  handler_configuration_update_command,
}

abbrev pub In : MmState → UeContext → Type 0
In s ue = ue.state_mm ≡ s

pub send_nas-In : (s : MmState) (ue : UeContext) (m : List ℕ) → In s ue → In s (send_nas ue m)
unfolding send_nas send_to_gnb
send_nas-In s ue m h = go ue.gnb_rx
  where
    go : (c : Option ℕ) → In s (send_to_gnb c m ue)
    go none = h
    go (some c) = h

module _ (lib : NasLib) (s : MmState) where
  secure-In :
      (ue : UeContext) (header : HeaderType) (m : UplinkNas) (new : Bool)
      → In s ue
      → Post (λ r. In s r.0) (secure lib ue header m new)
  unfolding secure
  secure-In ue header m new h =
      go (encode_nas_pdu_with_security lib ue.security (lib.encode ue m) header true new)
    where
      go : (o : Option (List ℕ × Security)) → Post (λ r. In s r.0) (secured ue o)
      go none = tt
      go (some (bytes, t)) = h

  pub secure_send :
      (ue : UeContext) (header : HeaderType) (m : UplinkNas) (new : Bool)
      → In s ue
      → Post (In s) (secure lib ue header m new >>= λ r. ok (send_nas r.0 r.1))
  secure_send ue header m new h =
      bind (λ r. In s r.0) (In s) (secure lib ue header m new) (λ r. ok (send_nas r.0 r.1))
        (secure-In ue header m new h) (λ r k. send_nas-In s r.0 r.1 k)

  pub handler_security_mode_command-In :
      (ue : UeContext) (m : SecurityModeCommand)
      → In s ue
      → Post (In s) (handler_security_mode_command lib ue m)
  unfolding handler_security_mode_command
  handler_security_mode_command-In ue m h = after (In s) _ _ (λ t. secure_send _ _ _ true h)

  pub handler_configuration_update_command-In :
      (ue : UeContext) (m : Mandatory)
      → In s ue
      → Post (In s) (handler_configuration_update_command lib ue m)
  unfolding handler_configuration_update_command init_configuration_update_complete
  handler_configuration_update_command-In ue m h = after (In s) _ _ (λ t. secure_send _ _ _ false h)

  pub handler_identity_request-In :
      (ue : UeContext) (m : Mandatory) (type : ℕ)
      → In s ue
      → Post (In s) (handler_identity_request lib ue m type)
  unfolding handler_identity_request init_identify_response
  handler_identity_request-In ue m type h =
      after (In s) (check_header m 91 >> fatal_if (type == 0) >> fatal_if (not (type == 1)))
        (λ t. ok (init_identify_response lib ue))
        (λ t. send_nas-In s ue (lib.encode ue identity_response) h)

  activate_found-In :
      (ue : UeContext) (m : EstablishmentAccept) (o : Option ℕ)
      → In s ue
      → Post (In s) (activate_found lib ue m o)
  unfolding activate_found
  activate_found-In ue m none h = tt
  activate_found-In ue m (some p) h =
      after (In s) (deref (get_elem? ue.objects p)) _
        (λ t. after (In s) (deref m.address) _ (λ address. go m.dnn_and_snssai_present t address))
    where
      go :
          (b : Bool) (t : UePduSession) (address : List ℕ)
          → Post (In s) (
              if b
              then ok
                  (put_object ue p (record t { state_sm = sm_active; ue_ip = lib.ip_text address }))
              else panic)
      go true t address = h
      go false t address = tt

  retry_found-In : (ue : UeContext) (o : Option ℕ) → In s ue → Post (In s) (retry_found lib ue o)
  unfolding retry_found
  retry_found-In ue none h = h
  retry_found-In ue (some p) h =
      after (In s) (deref (get_elem? ue.objects p)) _ (λ t. go (ltb t.t3580_retries 5) t)
    where
      go :
          (b : Bool) (t : UePduSession)
          → Post (In s) (ok (if b then emit (retry_timer p (5 ^ t.t3580_retries)) ue else ue))
      go true t = h
      go false t = h

  delete_found-In :
      (ue : UeContext) (id : ℕ) (o : Option ℕ)
      → In s ue
      → Post (λ d. In s (or_unchanged lib ue d)) (delete_found ue id o)
  unfolding delete_found
  delete_found-In ue id none h = h
  delete_found-In ue id (some p) h =
      after (λ d. In s (or_unchanged lib ue d)) (deref (get_elem? ue.objects p)) _
        (λ t.
          after (λ d. In s (or_unchanged lib ue d)) (close_wait t) _
            (λ shut. go t.stop_signal shut))
    where
      go :
          (c : Option ℕ) (shut : UePduSession)
          → In s (
              signal_stop c (record (put_object ue p shut) {
                pdu_session = set ue.pdu_session ((id + 255) % 256) none;
              }))
      go none shut = h
      go (some c) shut = h

  delete_pdu_session-In :
      (ue : UeContext) (id : ℕ)
      → In s ue
      → Post (λ d. In s (or_unchanged lib ue d)) (delete_pdu_session ue id)
  unfolding delete_pdu_session
  delete_pdu_session-In ue id h = go (ltb 15 id)
    where
      go :
          (b : Bool)
          → Post
              (λ d. In s (or_unchanged lib ue d))
              (if b then ok none else (entry ue id >>= delete_found ue id))
      go true = h
      go false =
          after (λ d. In s (or_unchanged lib ue d)) (entry ue id) (delete_found ue id)
            (λ o. delete_found-In ue id o h)

  release_complete-In :
      (ue : UeContext) (t : SmState) (o : UePduSession)
      → In s ue
      → Post (In s) (release_complete_in_state lib t ue o)
  unfolding release_complete_in_state
  release_complete-In ue sm_inactive o h = secure_send ue _ _ false h
  release_complete-In ue sm_active_pending o h = h
  release_complete-In ue sm_active o h = h

  init_release_complete-In :
      (ue : UeContext) (p : ℕ) → In s ue → Post (In s) (init_pdu_session_release_complete lib ue p)
  unfolding init_pdu_session_release_complete
  init_release_complete-In ue p h =
      after (In s) (deref (get_elem? ue.objects p)) _ (λ t. release_complete-In ue t.state_sm t h)

  release_found-In :
      (ue : UeContext) (id : ℕ) (o : Option ℕ) → In s ue → Post (In s) (release_found lib ue id o)
  unfolding release_found
  release_found-In ue id none h = h
  release_found-In ue id (some p) h =
      bind (λ d. In s (or_unchanged lib ue d)) (In s) (delete_pdu_session ue id)
        (λ d. init_pdu_session_release_complete lib (or_unchanged lib ue d) p)
        (delete_pdu_session-In ue id h)
        (λ d k. init_release_complete-In (or_unchanged lib ue d) p k)

  on_sm_message-In :
      (ue : UeContext) (m : SmMessage) → In s ue → Post (In s) (on_sm_message lib ue m)
  unfolding on_sm_message on_establishment_accept on_release_command on_establishment_reject
  on_sm_message-In ue (establishment_accept m) h = after (In s) _ _ (λ t.
      after (In s) (get_pdu_session ue m.id) (activate_found lib ue m)
        (λ o. activate_found-In ue m o h))
  on_sm_message-In ue (release_command id) h =
      after (In s) (get_pdu_session ue id) (release_found lib ue id)
        (λ o. release_found-In ue id o h)
  on_sm_message-In ue (establishment_reject id cause) h =
      after (In s) (get_pdu_session ue id) (retry_found lib ue) (λ o. retry_found-In ue o h)
  on_sm_message-In ue (other_sm type) h = h

  pub dl_nas_transport-In :
      (ue : UeContext) (m : DlNasTransport)
      → In s ue
      → Post (In s) (handler_dl_nas_transport_pduaccept lib ue m)
  unfolding handler_dl_nas_transport_pduaccept
  dl_nas_transport-In ue m h = after (In s) _ _ (λ t. go m.container)
    where
      inside :
          (payload : List ℕ) (o : Option ℕ)
          → Post (In s) (elim o [
            | none ↦ fatal
            | some iei ↦
                fatal_if (not (iei == 18))
                >> (deref (lib.sm_decode payload) >>= on_sm_message lib ue)
          ])
      inside payload none = tt
      inside payload (some iei) = after (In s) (fatal_if (not (iei == 18))) _ (λ t.
          after (In s) (deref (lib.sm_decode payload)) (on_sm_message lib ue)
            (λ sm. on_sm_message-In ue sm h))

      go :
          (o : Option (List ℕ))
          → Post (In s) (elim o [
            | none ↦ fatal
            | some payload ↦ elim m.session_id_iei [
              | none ↦ fatal
              | some iei ↦
                  fatal_if (not (iei == 18))
                  >> (deref (lib.sm_decode payload) >>= on_sm_message lib ue)
            ]
          ])
      go none = tt
      go (some payload) = inside payload m.session_id_iei
