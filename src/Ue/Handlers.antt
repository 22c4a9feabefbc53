-- ===== src/Ue/Handlers.antt =====
-- The UE's handlers of downlink NAS messages:
-- internal/control_test_engine/ue/nas/handler/handler.go.
pub mod Unknown
pub mod Backoff
pub mod States
mod Tests
use packet_rusher.Base.{
  ℕ, suc, ◌+◌, ◌/◌, ◌%◌, ◌^◌, Bool, true, false, not, ◌||◌, Option, none, some, List, [], ◌∷◌, ◌++◌,
  Outcome, ok, panic, fatal, ◌>>=◌, ◌>>◌, fatal_if, deref, at, ◌==◌, ltb, if◌then◌else◌, get_elem?,
}
use packet_rusher.Plmn.Hex.{hex_digit}
use packet_rusher.Ue.Context.{
  UeContext, Security, Guti, MmState, mm_deregistered, registered_initiated, mm_registered,
  sm_active, set_state_mm, get_pdu_session, delete_pdu_session, put_object, emit, retry_timer,
}
use packet_rusher.Ue.Nas.{
  NasLib, Mandatory, AuthenticationRequest, SecurityModeCommand, RegistrationAccept,
  EstablishmentAccept, SmMessage, establishment_accept, release_command, establishment_reject,
  other_sm, DlNasTransport, security_mode_complete, registration_complete, authentication_response,
  authentication_failure,
}
use packet_rusher.Ue.Security.{
  integrity_protected_and_ciphered, integrity_protected_and_ciphered_new, secure, send_nas,
}
use packet_rusher.Ue.Trigger.{
  init_pdu_session_request_inner, init_pdu_session_release_complete, init_identify_response,
  init_configuration_update_complete,
}
use packet_rusher.Ue.Authentication.{
  AkaResult, mac_failure, sqn_failure, successful, derive_res_star_and_set_key,
}

-- The checks on the fields that all the messages have.
abbrev pub check_header : Mandatory → ℕ → Outcome (Unit {0})
check_header m type =
    fatal_if (m.epd == 0)
    >> fatal_if (not (m.epd == 126))
    >> fatal_if (not (m.spare_half_octet == 0))
    >> fatal_if (not (m.security_header_type == 0))
    >> fatal_if (m.message_type == 0)
    >> fatal_if (not (m.message_type == type))

unfoldable pub handler_authentication_reject : UeContext → UeContext
handler_authentication_reject ue = set_state_mm mm_deregistered ue

unfoldable pub handler_service_accept : UeContext → UeContext
handler_service_accept ue = set_state_mm mm_registered ue

-- `%x` of a byte.
abbrev pub hex_of : ℕ → List ℕ
hex_of b = if ltb b 16 then hex_digit b ∷ [] else hex_digit (b / 16) ∷ hex_digit (b % 16) ∷ []

-- The slice of the first allowed S-NSSAI.
unfoldable pub use_allowed_slice : UeContext → Option (List ℕ) → Outcome UeContext
use_allowed_slice ue allowed = deref allowed >>= λ snssai. at snssai 1 >>= λ sst.
    at snssai 2 >>= λ a. at snssai 3 >>= λ b. at snssai 4 >>= λ c.
    ok (record ue { sst = sst; sd = 48 ∷ (hex_of a ++ 48 ∷ (hex_of b ++ 48 ∷ hex_of c)) })

abbrev pub set_guti : UeContext → Option (List ℕ) → UeContext
set_guti ue none = ue
set_guti ue (some tmsi) = record ue {
  security = record (ue.security) { guti = some (record { tmsi = tmsi }) };
}

module _ (lib : NasLib) where
  unfoldable pub answer_authentication : UeContext × AkaResult → UeContext
  answer_authentication (ue, mac_failure) =
      send_nas ue (lib.encode ue (authentication_failure false []))
  answer_authentication (ue, sqn_failure auts) =
      send_nas ue (lib.encode ue (authentication_failure true auts))
  answer_authentication (ue, successful res k) =
      send_nas (set_state_mm registered_initiated ue) (lib.encode ue (authentication_response res))

  unfoldable pub handler_authentication_request :
      UeContext → AuthenticationRequest → Outcome UeContext
  unfolding answer_authentication
  handler_authentication_request ue m =
      check_header m.mandatory 86
      >> fatal_if (not (m.ngksi_spare == 0))
      >> fatal_if (m.ngksi == 7)
      >> (elim m.abba [ none ↦ fatal | some abba ↦ ok tt ])
      >> (derive_res_star_and_set_key lib ue m.rand m.autn >>= λ r. ok (answer_authentication r))

  pub handler_security_mode_command : UeContext → SecurityModeCommand → Outcome UeContext
  handler_security_mode_command ue m =
      check_header m.mandatory 93
      >> fatal_if (not m.algorithms_present)
      >> fatal_if (not (m.ngksi_spare == 0))
      >> fatal_if (m.ngksi == 7)
      >> fatal_if (not m.replayed_capabilities)
      >> (secure lib
            (record ue {
              security = record (ue.security) { ksi = m.ngksi; tsc_mapped = m.tsc_mapped };
            })
            integrity_protected_and_ciphered_new security_mode_complete true
          >>= λ r. ok (send_nas r.0 r.1))

  unfoldable pub handler_registration_accept : UeContext → RegistrationAccept → Outcome UeContext
  handler_registration_accept ue m =
      check_header m.mandatory 66
      >> fatal_if (m.result == 0)
      >> fatal_if (not (m.result == 1))
      >> (let registered = set_guti (set_state_mm mm_registered ue) m.guti in
          (if registered.sst == 0
            then use_allowed_slice registered m.allowed_nssai
            else ok registered)
          >>= λ sliced.
              secure lib sliced integrity_protected_and_ciphered registration_complete false
              >>= λ r. ok (send_nas r.0 r.1))

  pub check_establishment_accept : EstablishmentAccept → Outcome (Unit {0})
  check_establishment_accept m =
      fatal_if (m.epd == 0)
      >> fatal_if (not (m.epd == 46))
      >> fatal_if (m.id == 0)
      >> fatal_if (m.pti == 0)
      >> fatal_if (not (m.pti == 1))
      >> fatal_if (not (m.message_type == 194))
      >> fatal_if (not m.session_type_present)
      >> fatal_if (not (m.session_type == 1))
      >> fatal_if (not m.qos_rules_present)
      >> fatal_if (not m.session_ambr_present)

  -- The state is set before the error of `GetPduSession` is read.
  pub activate_found : UeContext → EstablishmentAccept → Option ℕ → Outcome UeContext
  activate_found ue m none = panic
  activate_found ue m (some p) = deref (get_elem? ue.objects p) >>= λ s.
      deref m.address >>= λ address.
      let active =
        put_object ue p (record s { state_sm = sm_active; ue_ip = lib.ip_text address }) in
      if m.dnn_and_snssai_present then ok active else panic

  pub on_establishment_accept : UeContext → EstablishmentAccept → Outcome UeContext
  unfolding check_establishment_accept activate_found
  on_establishment_accept ue m =
      check_establishment_accept m >> (get_pdu_session ue m.id >>= activate_found ue m)

  abbrev pub or_unchanged : UeContext → Option UeContext → UeContext
  or_unchanged ue none = ue
  or_unchanged ue (some after) = after

  pub release_found : UeContext → ℕ → Option ℕ → Outcome UeContext
  release_found ue id none = ok ue
  release_found ue id (some p) = delete_pdu_session ue id >>= λ deleted.
      init_pdu_session_release_complete lib (or_unchanged ue deleted) p

  pub on_release_command : UeContext → ℕ → Outcome UeContext
  unfolding release_found
  on_release_command ue id = get_pdu_session ue id >>= release_found ue id

  -- Five tries, after 1, 5, 25, 125 and 625 seconds.
  pub retry_found : UeContext → Option ℕ → Outcome UeContext
  retry_found ue none = ok ue
  retry_found ue (some p) = deref (get_elem? ue.objects p) >>= λ s.
      ok (if ltb s.t3580_retries 5 then emit (retry_timer p (5 ^ s.t3580_retries)) ue else ue)

  pub on_establishment_reject : UeContext → ℕ → Outcome UeContext
  unfolding retry_found
  on_establishment_reject ue id = get_pdu_session ue id >>= retry_found ue

  -- The end of the retry timer of the session at `p`.
  pub on_retry_timer : UeContext → ℕ → Outcome UeContext
  on_retry_timer ue p = init_pdu_session_request_inner lib ue p >>= λ sent.
      deref (get_elem? sent.objects p) >>= λ s.
      ok (put_object sent p (record s { t3580_retries = s.t3580_retries + 1 }))

  pub on_sm_message : UeContext → SmMessage → Outcome UeContext
  unfolding on_establishment_accept on_release_command on_establishment_reject
  on_sm_message ue (establishment_accept m) = on_establishment_accept ue m
  on_sm_message ue (release_command id) = on_release_command ue id
  on_sm_message ue (establishment_reject id cause) = on_establishment_reject ue id
  on_sm_message ue (other_sm type) = ok ue

  pub handler_dl_nas_transport_pduaccept : UeContext → DlNasTransport → Outcome UeContext
  unfolding on_sm_message
  handler_dl_nas_transport_pduaccept ue m =
      check_header m.mandatory 104
      >> fatal_if (m.container_type == 0)
      >> fatal_if (not (m.container_type == 1))
      >> (elim m.container [
        | none ↦ fatal
        | some payload ↦ elim m.session_id_iei [
          | none ↦ fatal
          | some iei ↦
              fatal_if (not (iei == 18)) >> (deref (lib.sm_decode payload) >>= on_sm_message ue)
        ]
      ])

  pub handler_identity_request : UeContext → Mandatory → ℕ → Outcome UeContext
  handler_identity_request ue m identity_type =
      check_header m 91
      >> fatal_if (identity_type == 0)
      >> fatal_if (not (identity_type == 1))
      >> ok (init_identify_response lib ue)

  pub handler_configuration_update_command : UeContext → Mandatory → Outcome UeContext
  handler_configuration_update_command ue m =
      check_header m 84 >> init_configuration_update_complete lib ue
