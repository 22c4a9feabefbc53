-- ===== src/Ue/Handlers/Tests.antt =====
-- Session management messages about the session 9, which the sample UE does not have, and about its
-- session 1.
use packet_rusher.Base.{ℕ, ◌≡◌, ◌≤◌, refl, true, none, some, List, [], ◌∷◌, ok, panic, length, take}
use packet_rusher.Ue.Context.{
  UeContext, get_pdu_session, emit, retry_timer, nas_to_gnb, new_session, sm_active_pending,
}
use packet_rusher.Ue.Nas.{
  EstablishmentAccept, establishment_accept, release_command, establishment_reject,
}
use packet_rusher.Ue.Security.{
  secure, encode_nas_pdu_with_security, nas_encode, protect, send_nas, send_to_gnb,
}
use packet_rusher.Ue.Trigger.{init_pdu_session_request_inner}
use packet_rusher.Ue.Handlers.{
  on_sm_message, check_establishment_accept, on_establishment_reject, retry_found, on_retry_timer,
}
use packet_rusher.Ue.Handlers.Unknown.{on_sm_message-unknown}
use packet_rusher.Ue.Handlers.Backoff.{again, stay, Rounds-waits}
use packet_rusher.Ue.Samples.{sample_lib, sample_ue, sample_security}

abbrev the_wait : List ℕ
the_wait = 1 ∷ []

abbrev accept_nine : EstablishmentAccept
accept_nine = record {
  epd = 46;
  id = 9;
  pti = 1;
  message_type = 194;
  session_type_present = true;
  session_type = 1;
  qos_rules_present = true;
  session_ambr_present = true;
  address = some [];
  dnn_and_snssai_present = true;
}

nine_unknown : get_pdu_session sample_ue 9 ≡ ok none
unfolding get_pdu_session
nine_unknown = refl

on_sm_message-unknown_example :
    (on_sm_message sample_lib sample_ue (release_command 9) ≡ ok sample_ue)
    × (on_sm_message sample_lib sample_ue (establishment_reject 9 26) ≡ ok sample_ue)
    × (accept_nine.id ≡ 9
        → check_establishment_accept sample_lib accept_nine ≡ ok tt
        → on_sm_message sample_lib sample_ue (establishment_accept accept_nine) ≡ panic)
on_sm_message-unknown_example =
    on_sm_message-unknown sample_lib sample_ue 9 26 accept_nine nine_unknown

abbrev waiting : UeContext
waiting = emit (retry_timer 0 1) sample_ue

-- The sample UE after its session 1 was rejected and retried.
abbrev retried : UeContext
retried = record waiting {
  security = record sample_security { ul_count = 6 };
  objects = record (new_session 1) { state_sm = sm_active_pending; t3580_retries = 1 } ∷ [];
  outputs = nas_to_gnb 3 (0x7e ∷ 2 ∷ 2 ∷ 5 ∷ 3 ∷ 4 ∷ 5 ∷ 1 ∷ 2 ∷ []) ∷ retry_timer 0 1 ∷ [];
}

rejects : on_establishment_reject sample_lib sample_ue 1 ≡ ok waiting
unfolding on_establishment_reject retry_found get_pdu_session
rejects = refl

retries : on_retry_timer sample_lib waiting 0 ≡ ok retried
unfolding on_retry_timer init_pdu_session_request_inner secure encode_nas_pdu_with_security
    nas_encode protect send_nas send_to_gnb
retries = refl

first_known : get_pdu_session sample_ue 1 ≡ ok (some 0)
unfolding get_pdu_session
first_known = refl

Rounds-waits_example :
    (length the_wait ≤ 5) × (the_wait ≡ take (length the_wait) (1 ∷ 5 ∷ 25 ∷ 125 ∷ 625 ∷ []))
Rounds-waits_example =
    Rounds-waits sample_lib 1 0 sample_ue retried (new_session 1) the_wait refl refl first_known
      (again rejects retries stay)
