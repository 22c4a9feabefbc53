-- ===== src/Ue/Handlers/Unknown.antt =====
-- Session management messages about a session that the UE does not have:
-- internal/control_test_engine/ue/nas/handler/handler.go.
use packet_rusher.Base.{ℕ, none, ◌≡◌, ap, ◌∙◌, Outcome, ok, panic, ◌>>=◌, ◌>>◌}
use packet_rusher.Ue.Context.{UeContext, get_pdu_session}
use packet_rusher.Ue.Nas.{
  NasLib, EstablishmentAccept, establishment_accept, release_command, establishment_reject,
}
use packet_rusher.Ue.Handlers.{
  on_sm_message, on_establishment_accept, on_release_command, on_establishment_reject,
  release_found, activate_found, retry_found, check_establishment_accept,
}

accept-unknown :
    (lib : NasLib) (ue : UeContext) (m : EstablishmentAccept)
    → check_establishment_accept lib m ≡ ok tt
    → get_pdu_session ue m.id ≡ ok none
    → on_establishment_accept lib ue m ≡ panic
unfolding on_establishment_accept activate_found
accept-unknown lib ue m h e =
    ap (λ (o : Outcome (Unit {0})). o >> (get_pdu_session ue m.id >>= activate_found lib ue m)) h
    ∙ ap (λ o. o >>= activate_found lib ue m) e

-- About a session that the UE cannot find, a release command and a reject change nothing, but a well-formed
-- establishment accept panics: the session's state is set before the error is read.
pub on_sm_message-unknown :
    (lib : NasLib) (ue : UeContext) (id cause : ℕ) (m : EstablishmentAccept)
    → get_pdu_session ue id ≡ ok none
    → (on_sm_message lib ue (release_command id) ≡ ok ue)
      × (on_sm_message lib ue (establishment_reject id cause) ≡ ok ue)
      × (m.id ≡ id
          → check_establishment_accept lib m ≡ ok tt
          → on_sm_message lib ue (establishment_accept m) ≡ panic)
unfolding on_sm_message on_release_command on_establishment_reject release_found retry_found
on_sm_message-unknown lib ue id cause m e = (
  ap (λ o. o >>= release_found lib ue id) e,
  ap (λ o. o >>= retry_found lib ue) e,
  λ same h. accept-unknown lib ue m h (ap (get_pdu_session ue) same ∙ e),
)
