-- ===== src/Ue/Dispatch.antt =====
-- What the UE does with a NAS message from the AMF: internal/control_test_engine/ue/nas/dispatcher.go,
-- with `DerivateAlgKey` of ue/context/context.go and `AlgorithmKeyDerivation` of
-- internal/common/auth/auth.go.
pub mod Integrity
pub mod Verdict
pub mod RoundTrip
pub mod States
mod Tests
use packet_rusher.Base.{
  ℕ, ◌+◌, ◌%◌, ◌^◌, Bool, true, false, Option, none, some, List, [], ◌∷◌, Outcome, ok, panic, fatal,
  ◌>>=◌, ◌==◌, ltb, leb, if◌then◌else◌, length, take, drop, at, deref, text_eq,
}
use packet_rusher.Ue.Context.{UeContext, Security}
use packet_rusher.Ue.Nas.{
  NasLib, DlMessage, authentication_request, authentication_reject, identity_request,
  security_mode_command, registration_accept, configuration_update_command, dl_nas_transport,
  service_accept, service_reject, registration_reject, status_5gmm, status_5gsm, other_message,
  SecurityModeCommand, downlink, Kdf, nas_enc_key, nas_int_key,
}
use packet_rusher.Ue.Handlers.{
  handler_authentication_request, handler_authentication_reject, handler_identity_request,
  handler_security_mode_command, handler_registration_accept, handler_configuration_update_command,
  handler_dl_nas_transport_pduaccept, handler_service_accept,
}

-- `k[16:32]`.
abbrev pub low_half : List ℕ → Outcome (List ℕ)
low_half k = if leb 32 (length k) then ok (take 16 (drop 16 k)) else panic

-- The result of the checks on a protected message: the new security state, and what was decoded.
pub data Verified : Type 0 where
  rejected : Security → Verified
  accepted : Security → Option DlMessage → Verified

module _ (lib : NasLib) where
  abbrev pub with_int_key : Security → Option (List ℕ) → Outcome Security
  with_int_key s none = ok s
  with_int_key s (some k) = low_half k >>= λ half. ok (record s { knas_int = half })

  abbrev pub with_enc_key : Security → Option (List ℕ) → Outcome Security
  with_enc_key s none = ok s
  with_enc_key s (some k) = low_half k >>= λ half.
      with_int_key (record s { knas_enc = half }) (lib.kdf s.kamf (nas_int_key s.integrity_alg) [])

  -- `DerivateAlgKey`: an error is only logged.
  pub derivate_alg_key : Security → Outcome Security
  derivate_alg_key s = with_enc_key s (lib.kdf s.kamf (nas_enc_key s.ciphering_alg) [])

  -- The downlink count takes the message's sequence number, which has wrapped if it is smaller.
  pub update_dl_count : Security → ℕ → Security
  update_dl_count s number = record s {
    dl_count =
        lib.make_count
          (if ltb number (lib.sqn s.dl_count)
            then (lib.overflow s.dl_count + 1) % 2 ^ 16
            else lib.overflow s.dl_count)
          number;
  }

  abbrev pub decipher : Bool → Security → List ℕ → Option (List ℕ)
  decipher false s payload = some payload
  decipher true s payload =
      lib.encrypt s.ciphering_alg s.knas_enc (lib.count_value s.dl_count) downlink payload

  -- A new security context comes with a Security Mode Command, whose algorithms it takes; none for any
  -- other message.
  pub take_context : Security → DlMessage → Outcome (Option Security)
  unfolding derivate_alg_key
  take_context s (security_mode_command m) =
      derivate_alg_key (record s {
        dl_count = lib.make_count 0 0;
        ciphering_alg = m.ciphering_alg;
        integrity_alg = m.integrity_alg;
      })
      >>= λ t. ok (some t)
  take_context s m = ok none

  abbrev pub new_context : Bool → Security → Option DlMessage → Outcome (Option Security)
  new_context false s decoded = ok (some s)
  new_context true s decoded = deref decoded >>= take_context s

  -- The MAC over the sequence number and the payload.
  pub check_mac : List ℕ → Option DlMessage → Security → Option (List ℕ) → Verified
  check_mac message decoded s none = rejected s
  check_mac message decoded s (some mac32) =
      if text_eq mac32 (take 4 (drop 2 message)) then accepted s decoded else rejected s

  abbrev pub downlink_mac : Security → List ℕ → Option (List ℕ)
  downlink_mac s message =
      lib.mac s.integrity_alg s.knas_int (lib.count_value s.dl_count) downlink (drop 6 message)

  pub after_context : List ℕ → Option DlMessage → Security → Option Security → Verified
  unfolding check_mac
  after_context message decoded s none = rejected s
  after_context message decoded s (some t) = check_mac message decoded t (downlink_mac t message)

  pub after_decipher : List ℕ → Bool → Security → Option (List ℕ) → Outcome Verified
  unfolding after_context
  after_decipher message new s none = ok (rejected s)
  after_decipher message new s (some payload) =
      new_context new s (lib.plain_decode payload) >>= λ t.
      ok (after_context message (lib.plain_decode payload) s t)

  -- A protected message with security header type `type`.
  pub verify : Security → List ℕ → ℕ → Outcome Verified
  unfolding after_decipher
  verify s message type = at message 6 >>= λ number.
      if type == 4
      then ok (rejected s)
      else let t = update_dl_count s number in
        after_decipher message (type == 3) t (decipher (type == 2) t (drop 7 message))

  pub handle : UeContext → DlMessage → Outcome UeContext
  handle ue (authentication_request m) = handler_authentication_request lib ue m
  handle ue authentication_reject = ok (handler_authentication_reject ue)
  handle ue (identity_request m type) = handler_identity_request lib ue m type
  handle ue (security_mode_command m) = handler_security_mode_command lib ue m
  handle ue (registration_accept m) = handler_registration_accept lib ue m
  handle ue (configuration_update_command m) = handler_configuration_update_command lib ue m
  handle ue (dl_nas_transport m) = handler_dl_nas_transport_pduaccept lib ue m
  handle ue service_accept = ok (handler_service_accept ue)
  handle ue service_reject = ok ue
  handle ue registration_reject = ok ue
  handle ue status_5gmm = ok ue
  handle ue status_5gsm = ok ue
  handle ue (other_message type) = ok ue

  abbrev pub with_security : UeContext → Security → UeContext
  with_security ue s = record ue { security = s }

  pub handle_verified : UeContext → Verified → Outcome UeContext
  handle_verified ue (rejected s) = ok (with_security ue s)
  handle_verified ue (accepted s decoded) = deref decoded >>= handle (with_security ue s)

  -- `DispatchNas`; none for a nil message.
  pub dispatch_nas : UeContext → Option (List ℕ) → Outcome UeContext
  unfolding handle_verified
  dispatch_nas ue none = fatal
  dispatch_nas ue (some message) =
      let type = lib.security_header_type message % 16 in
      if type == 0
      then (deref (lib.plain_decode message) >>= handle ue)
      else (verify ue.security message type >>= handle_verified ue)
