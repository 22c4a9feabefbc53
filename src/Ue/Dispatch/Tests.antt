-- ===== src/Ue/Dispatch/Tests.antt =====
-- A protected message at the dispatcher, and a Registration Accept at its handler.
use packet_rusher.Base.{ℕ, ◌≡◌, refl, true, false, none, some, List, [], ◌∷◌, ok, arith}
use packet_rusher.Ue.Context.{
  UeContext, Security, mm_registered, set_state_mm, nas_to_gnb, scenario_state,
}
use packet_rusher.Ue.Nas.{authentication_reject, registration_accept, RegistrationAccept}
use packet_rusher.Ue.Handlers.{handler_authentication_reject, handler_registration_accept}
use packet_rusher.Ue.Security.{
  protect, nas_encode, secure, encode_nas_pdu_with_security, send_nas, send_to_gnb,
}
use packet_rusher.Ue.Dispatch.{verify, accepted, handle, with_security}
use packet_rusher.Ue.Dispatch.RoundTrip.{IsSound, peer, receiver, protection, verify-nas_encode}
use packet_rusher.Ue.Dispatch.States.{handle-Next}
use packet_rusher.Ue.Samples.{sample_lib, sample_ue, sample_security}

-- Ciphered, with the sequence number 6.
abbrev message : List ℕ
message = 0x7e ∷ 2 ∷ 2 ∷ 6 ∷ 3 ∷ 4 ∷ 6 ∷ 0x7e ∷ []

abbrev counted : Security
counted = record sample_security { dl_count = 6 }

abbrev rejected_ue : UeContext
rejected_ue = handler_authentication_reject (with_security sample_lib sample_ue counted)

sample_lib-IsSound : IsSound sample_lib
sample_lib-IsSound = record {
  mac_length = λ a k c d s m h. cc;
  decrypt = λ a k c d p q h. cc;
  count_parts = λ c. omega arith;
}

abbrev bytes : List ℕ
bytes = 0x7e ∷ 2 ∷ 2 ∷ 5 ∷ 3 ∷ 4 ∷ 5 ∷ 9 ∷ 9 ∷ []

encoded :
    nas_encode sample_lib sample_security (protection true) (9 ∷ 9 ∷ []) true false
    ≡ some (bytes, record sample_security { ul_count = 6 })
unfolding nas_encode protect
encoded = refl

verify-nas_encode_example :
    verify (peer sample_lib) (receiver sample_security sample_security) bytes 2
    ≡ ok (accepted (receiver sample_security sample_security) (some authentication_reject))
verify-nas_encode_example =
    verify-nas_encode sample_lib sample_lib-IsSound true sample_security
      (record sample_security { ul_count = 6 }) sample_security (9 ∷ 9 ∷ []) bytes encoded

abbrev accept : RegistrationAccept
accept = record {
  mandatory = record {
    epd = 126;
    spare_half_octet = 0;
    security_header_type = 0;
    message_type = 66;
  };
  result = 1;
  guti = none;
  allowed_nssai = none;
}

abbrev registered_ue : UeContext
registered_ue = record sample_ue {
  state_mm = mm_registered;
  security = record sample_security { ul_count = 6 };
  outputs =
      nas_to_gnb 3 (0x7e ∷ 2 ∷ 2 ∷ 5 ∷ 3 ∷ 4 ∷ 5 ∷ 1 ∷ 2 ∷ []) ∷ scenario_state mm_registered ∷ [];
}

registered : handle sample_lib sample_ue (registration_accept accept) ≡ ok registered_ue
unfolding handle handler_registration_accept set_state_mm secure encode_nas_pdu_with_security
    nas_encode protect send_nas send_to_gnb
registered = refl

handle-Next_example : registered_ue.state_mm ≡ mm_registered
handle-Next_example =
    handle-Next sample_lib sample_ue registered_ue (registration_accept accept) registered
