-- ===== src/Ue/Dispatch/States.antt =====
-- The 5GMM state of the UE after a downlink message: internal/control_test_engine/ue/nas/dispatcher.go
-- with ue/nas/handler/handler.go.
use packet_rusher.Base.{
  Post, bind, after, ℕ, subst, ◌≡◌, refl, ◌⊎◌, inl, inr, Bool, true, false, Option, none, some,
  List, ok, deref, at, if◌then◌else◌, ◌==◌,
}
use packet_rusher.Ue.Context.{
  UeContext, MmState, mm_deregistered, registered_initiated, mm_registered, set_state_mm,
}
use packet_rusher.Ue.Nas.{
  NasLib, AuthenticationRequest, RegistrationAccept, DlMessage, authentication_request,
  authentication_reject, identity_request, security_mode_command, registration_accept,
  configuration_update_command, dl_nas_transport, service_accept, service_reject,
  registration_reject, status_5gmm, status_5gsm, other_message,
}
use packet_rusher.Ue.Authentication.{
  AkaResult, mac_failure, sqn_failure, successful, aka, set_kamf, derive_res_star_and_set_key,
}
use packet_rusher.Ue.Handlers.{
  handler_authentication_request, answer_authentication, handler_registration_accept,
  use_allowed_slice, set_guti, handler_authentication_reject, handler_service_accept,
}
use packet_rusher.Ue.Handlers.States.{
  In, send_nas-In, secure_send, handler_security_mode_command-In,
  handler_configuration_update_command-In, handler_identity_request-In, dl_nas_transport-In,
}
use packet_rusher.Ue.Dispatch.{handle}

-- The states that a message may lead to.
abbrev pub Next : DlMessage → MmState → MmState → Type 0
Next (authentication_request m) old new = (new ≡ old) ⊎ (new ≡ registered_initiated)
Next authentication_reject old new = new ≡ mm_deregistered
Next (registration_accept m) old new = new ≡ mm_registered
Next service_accept old new = new ≡ mm_registered
Next _ old new = new ≡ old

module _ (lib : NasLib) where
  abbrev Answered : MmState → UeContext → Type 0
  Answered old ue = (ue.state_mm ≡ old) ⊎ (ue.state_mm ≡ registered_initiated)

  derive-In :
      (ue : UeContext) (rand autn : List ℕ)
      → Post (λ r. In ue.state_mm r.0) (derive_res_star_and_set_key lib ue rand autn)
  unfolding derive_res_star_and_set_key
  derive-In ue rand autn =
      after (λ r. In ue.state_mm r.0) (aka lib ue.security rand autn)
        (λ result. ok (set_kamf lib ue result, result)) go
    where
      go : (result : AkaResult) → In ue.state_mm (set_kamf lib ue result)
      go mac_failure = refl
      go (sqn_failure auts) = refl
      go (successful res k) = refl

  answer-Answered :
      (old : MmState) (ue : UeContext) (result : AkaResult)
      → In old ue
      → Answered old (answer_authentication lib (ue, result))
  unfolding answer_authentication set_state_mm
  answer-Answered old ue mac_failure h = inl (send_nas-In old ue _ h)
  answer-Answered old ue (sqn_failure auts) h = inl (send_nas-In old ue _ h)
  answer-Answered old ue (successful res k) h =
      inr (send_nas-In registered_initiated (set_state_mm registered_initiated ue) _ refl)

  authentication-Answered :
      (ue : UeContext) (m : AuthenticationRequest)
      → Post (Answered ue.state_mm) (handler_authentication_request lib ue m)
  unfolding handler_authentication_request
  authentication-Answered ue m = after (Answered ue.state_mm) _ _ (λ t.
      bind (λ r. In ue.state_mm r.0) (Answered ue.state_mm)
        (derive_res_star_and_set_key lib ue m.rand m.autn) (λ r. ok (answer_authentication lib r))
        (derive-In ue m.rand m.autn) (λ r h. answer-Answered ue.state_mm r.0 r.1 h))

  use_allowed_slice-In :
      (ue : UeContext) (allowed : Option (List ℕ))
      → In mm_registered ue
      → Post (In mm_registered) (use_allowed_slice ue allowed)
  unfolding use_allowed_slice
  use_allowed_slice-In ue allowed h = after (In mm_registered) (deref allowed) _ (λ snssai.
      after (In mm_registered) (at snssai 1) _ (λ sst.
        after (In mm_registered) (at snssai 2) _ (λ a.
          after (In mm_registered) (at snssai 3) _
            (λ b. after (In mm_registered) (at snssai 4) _ (λ c. h)))))

  registered-In :
      (ue : UeContext) (guti : Option (List ℕ))
      → In mm_registered (set_guti (set_state_mm mm_registered ue) guti)
  unfolding set_state_mm
  registered-In ue none = refl
  registered-In ue (some tmsi) = refl

  sliced-In :
      (ue : UeContext) (b : Bool) (allowed : Option (List ℕ))
      → In mm_registered ue
      → Post (In mm_registered) (if b then use_allowed_slice ue allowed else ok ue)
  sliced-In ue true allowed h = use_allowed_slice-In ue allowed h
  sliced-In ue false allowed h = h

  registration-In :
      (ue : UeContext) (m : RegistrationAccept)
      → Post (In mm_registered) (handler_registration_accept lib ue m)
  unfolding handler_registration_accept
  registration-In ue m =
      let registered = set_guti (set_state_mm mm_registered ue) m.guti in
      after (In mm_registered) _ _ (λ t.
        bind (In mm_registered) (In mm_registered)
          (if registered.sst == 0
            then use_allowed_slice registered m.allowed_nssai
            else ok registered)
          _ (sliced-In registered (registered.sst == 0) m.allowed_nssai (registered-In ue m.guti))
          (λ sliced h. secure_send lib mm_registered sliced _ _ false h))

  handle-Post :
      (ue : UeContext) (m : DlMessage)
      → Post (λ ue'. Next m ue.state_mm ue'.state_mm) (handle lib ue m)
  unfolding handle handler_authentication_reject handler_service_accept set_state_mm
  handle-Post ue (authentication_request m) = authentication-Answered ue m
  handle-Post ue authentication_reject = refl
  handle-Post ue (identity_request m type) =
      handler_identity_request-In lib ue.state_mm ue m type refl
  handle-Post ue (security_mode_command m) =
      handler_security_mode_command-In lib ue.state_mm ue m refl
  handle-Post ue (registration_accept m) = registration-In ue m
  handle-Post ue (configuration_update_command m) =
      handler_configuration_update_command-In lib ue.state_mm ue m refl
  handle-Post ue (dl_nas_transport m) = dl_nas_transport-In lib ue.state_mm ue m refl
  handle-Post ue service_accept = refl
  handle-Post ue service_reject = refl
  handle-Post ue registration_reject = refl
  handle-Post ue status_5gmm = refl
  handle-Post ue status_5gsm = refl
  handle-Post ue (other_message type) = refl

-- When the handler of a downlink message returns, a Registration Accept or a Service Accept has made
-- the UE registered, an Authentication Reject has made it deregistered, an Authentication Request has
-- left its 5GMM state or made it registered-initiated, and every other message, all session management
-- included, has left its 5GMM state.
pub handle-Next :
    (lib : NasLib) (ue ue' : UeContext) (m : DlMessage)
    → handle lib ue m ≡ ok ue'
    → Next m ue.state_mm ue'.state_mm
handle-Next lib ue ue' m e =
    subst (Post (λ u. Next m ue.state_mm u.state_mm)) e (handle-Post lib ue m)
