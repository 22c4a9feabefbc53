-- ===== src/Ue/Trigger.antt =====
-- The procedures that the UE starts: internal/control_test_engine/ue/nas/trigger/trigger.go, with
-- `InitConn` of ue/nas/service/service.go.
use packet_rusher.Base.{
  ℕ, false, Option, none, some, List, [], ◌∷◌, Outcome, ok, fatal, blocked, ◌>>=◌, get_elem?, deref,
}
use packet_rusher.Ue.Context.{
  UeContext, UePduSession, SmState, sm_inactive, sm_active_pending, sm_active, mm_deregistered,
  set_state_mm, create_pdu_session, put_object, connect_to_gnb, emit, set_amf_mcc_and_mnc,
}
use packet_rusher.Ue.Nas.{
  NasLib, registration_request, pdu_session_request, pdu_session_release,
  pdu_session_release_complete, deregistration_request, identity_response,
  configuration_update_complete, service_request,
}
use packet_rusher.Ue.Security.{
  integrity_protected, integrity_protected_and_ciphered, secure, send_nas, send_idle_on,
}

module _ (lib : NasLib) where
  -- A first registration is sent plain, a later one protected under the old keys.
  pub registration_pdu : List ℕ → UeContext → Outcome (UeContext × List ℕ)
  registration_pdu [] ue = ok (ue, lib.encode ue (registration_request false))
  registration_pdu (k ∷ kamf) ue =
      secure lib ue integrity_protected (registration_request false) false

  pub init_registration : UeContext → Outcome UeContext
  unfolding registration_pdu
  init_registration ue = registration_pdu ue.security.kamf ue >>= λ r.
      ok (set_state_mm mm_deregistered (send_nas r.0 r.1))

  -- The session at `p` becomes pending, and its request is sent.
  unfoldable pub init_pdu_session_request_inner : UeContext → ℕ → Outcome UeContext
  init_pdu_session_request_inner ue p = deref (get_elem? ue.objects p) >>= λ s.
      secure lib ue integrity_protected_and_ciphered (pdu_session_request s.id) false >>= λ r.
      ok (send_nas (put_object r.0 p (record s { state_sm = sm_active_pending })) r.1)

  pub request_created : Option (UeContext × ℕ) → Outcome UeContext
  request_created none = fatal
  request_created (some (ue, p)) = init_pdu_session_request_inner ue p

  pub init_pdu_session_request : UeContext → Outcome UeContext
  unfolding request_created
  init_pdu_session_request ue = request_created (create_pdu_session ue)

  pub release_in_state : SmState → UeContext → ℕ → UePduSession → Outcome UeContext
  release_in_state sm_inactive ue p s = ok ue
  release_in_state sm_active_pending ue p s = ok ue
  release_in_state sm_active ue p s =
      secure lib ue integrity_protected_and_ciphered (pdu_session_release s.id) false >>= λ r.
      ok (send_nas (put_object r.0 p (record s { state_sm = sm_inactive })) r.1)

  -- Only an active session is released.
  pub init_pdu_session_release : UeContext → ℕ → Outcome UeContext
  unfolding release_in_state
  init_pdu_session_release ue p =
      deref (get_elem? ue.objects p) >>= λ s. release_in_state s.state_sm ue p s

  unfoldable pub release_complete_in_state : SmState → UeContext → UePduSession → Outcome UeContext
  release_complete_in_state sm_inactive ue s =
      secure lib ue integrity_protected_and_ciphered (pdu_session_release_complete s.id) false
      >>= λ r. ok (send_nas r.0 r.1)
  release_complete_in_state sm_active_pending ue s = ok ue
  release_complete_in_state sm_active ue s = ok ue

  -- Only an inactive session is reported as released.
  unfoldable pub init_pdu_session_release_complete : UeContext → ℕ → Outcome UeContext
  unfolding release_complete_in_state
  init_pdu_session_release_complete ue p =
      deref (get_elem? ue.objects p) >>= λ s. release_complete_in_state s.state_sm ue s

  pub init_deregistration : UeContext → Outcome UeContext
  init_deregistration ue =
      secure lib ue integrity_protected_and_ciphered deregistration_request false >>= λ r.
      ok (set_state_mm mm_deregistered (send_nas r.0 r.1))

  unfoldable pub init_identify_response : UeContext → UeContext
  init_identify_response ue = send_nas ue (lib.encode ue identity_response)

  unfoldable pub init_configuration_update_complete : UeContext → Outcome UeContext
  init_configuration_update_complete ue =
      secure lib ue integrity_protected_and_ciphered configuration_update_complete false >>= λ r.
      ok (send_nas r.0 r.1)

  pub init_service_request : UeContext → Outcome UeContext
  init_service_request ue =
      secure lib ue integrity_protected service_request false >>= λ r. ok (send_nas r.0 r.1)

pub switch_to_idle : UeContext → UeContext
switch_to_idle ue = send_idle_on ue.gnb_rx ue

-- The answer of the gNB to a new connection: the two channels that `make` gave, and its PLMN.
pub record Connection : Type 0 where
  pub rx : ℕ
  pub tx : ℕ
  pub mcc : List ℕ
  pub mnc : List ℕ

-- `InitConn`: a nil inbound channel blocks for ever.
pub init_conn : UeContext → Option ℕ → Connection → Outcome UeContext
init_conn ue none c = blocked
init_conn ue (some inbound) c = ok (
    set_amf_mcc_and_mnc
      (emit (connect_to_gnb (some inbound) c.rx c.tx)
        (record ue { gnb_rx = some c.rx; gnb_tx = some c.tx }))
      c.mcc c.mnc)
