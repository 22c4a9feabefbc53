-- ===== src/Ue/Manager.antt =====
-- The UE's loop: `gnbMsgHandler`, `verifyPaging` and `ueMgrHandler` of
-- internal/control_test_engine/ue/ue.go. The wait for a released session, of at most 500 ms, changes no
-- state.
pub mod Requests
mod Tests
use packet_rusher.Base.{
  ℕ, zero, suc, Bool, true, false, Option, none, some, List, [], ◌∷◌, Outcome, ok, panic, blocked,
  ◌>>=◌, text_eq, leb, length, take, if◌then◌else◌,
}
use packet_rusher.Ue.Context.{
  UeContext, Guti, MmState, mm_null, mm_deregistered, registered_initiated, mm_registered,
  service_req_init, deregistered_init, mm_idle, set_state_mm, get_pdu_session, get_tmsi_5g,
  stop_drx, create_drx, emit, closed_to_gnb, fetch_paged_ues,
}
use packet_rusher.Ue.Nas.{NasLib}
use packet_rusher.Ue.Trigger.{
  init_registration, init_deregistration, init_pdu_session_request, init_pdu_session_release,
  init_service_request, switch_to_idle, init_conn, Connection,
}
use packet_rusher.Ue.Dispatch.{dispatch_nas}

-- The requests of the tester.
pub data UeTesterMessage : Type 0 where
  registration deregistration new_pdu_session : UeTesterMessage
  destroy_pdu_session : (id : ℕ) → UeTesterMessage
  idle : UeTesterMessage
  service_request terminate kill : UeTesterMessage
  other_request : UeTesterMessage

-- A paging identity of the gNB's answer.
pub record FiveGsTmsi : Type 0 where
  pub amf_set_id : List ℕ
  pub amf_pointer : List ℕ
  pub five_g_tmsi : List ℕ

-- The first four octets of a 5G-TMSI; the conversion to `[4]uint8` panics for a shorter one.
abbrev pub four_octets : List ℕ → Outcome (List ℕ)
four_octets value = if leb 4 (length value) then ok (take 4 value) else panic

-- Whether one of the paged UEs has the UE's 5G-TMSI. The AMF set and pointer are not compared.
pub is_paged : List (Option FiveGsTmsi) → List ℕ → Outcome Bool
is_paged [] tmsi = ok false
is_paged (none ∷ rest) tmsi = is_paged rest tmsi
is_paged (some p ∷ rest) tmsi =
    let later = is_paged rest tmsi in
    four_octets p.five_g_tmsi >>= λ octets. if text_eq octets tmsi then ok true else later

abbrev pub go_on : Outcome UeContext → Outcome (UeContext × Bool)
go_on o = o >>= λ ue. ok (ue, true)

module _ (lib : NasLib) where
  pub release_one : UeContext → Option ℕ → Outcome UeContext
  release_one ue none = ok ue
  release_one ue (some p) = init_pdu_session_release lib ue p

  -- The loop of `Terminate` over `n` session identifiers from `i`.
  pub release_all : ℕ → ℕ → UeContext → Outcome UeContext
  unfolding release_one
  release_all zero i ue = ok ue
  release_all (suc n) i ue = get_pdu_session ue i >>= release_one ue >>= release_all n (suc i)

  abbrev pub resume : UeContext → Option Guti → Outcome UeContext
  resume ue none = init_registration lib ue
  resume ue (some guti) = init_service_request lib ue

  -- A service request: the UE connects again, and `c` is what the gNB answers.
  pub on_service_request : MmState → UeContext → Connection → Outcome UeContext
  on_service_request mm_idle ue c =
      init_conn (stop_drx ue) (stop_drx ue).gnb_inbound_channel c >>= λ connected.
      resume connected connected.security.guti
  on_service_request mm_null ue c = ok ue
  on_service_request mm_deregistered ue c = ok ue
  on_service_request registered_initiated ue c = ok ue
  on_service_request mm_registered ue c = ok ue
  on_service_request service_req_init ue c = ok ue
  on_service_request deregistered_init ue c = ok ue

  pub on_terminate : MmState → UeContext → Outcome UeContext
  unfolding release_all
  on_terminate mm_registered ue = release_all 16 1 ue >>= init_deregistration lib
  on_terminate mm_null ue = ok ue
  on_terminate mm_deregistered ue = ok ue
  on_terminate registered_initiated ue = ok ue
  on_terminate mm_idle ue = ok ue
  on_terminate service_req_init ue = ok ue
  on_terminate deregistered_init ue = ok ue

  -- `ueMgrHandler`: the new context, and whether the loop goes on.
  pub ue_mgr_handler : UeTesterMessage → UeContext → Connection → Outcome (UeContext × Bool)
  unfolding on_terminate on_service_request release_one
  ue_mgr_handler registration ue c = go_on (init_registration lib ue)
  ue_mgr_handler deregistration ue c = go_on (init_deregistration lib ue)
  ue_mgr_handler new_pdu_session ue c = go_on (init_pdu_session_request lib ue)
  ue_mgr_handler (destroy_pdu_session id) ue c = go_on (get_pdu_session ue id >>= release_one ue)
  ue_mgr_handler idle ue c = ok (create_drx (switch_to_idle (set_state_mm mm_idle ue)), true)
  ue_mgr_handler service_request ue c = go_on (on_service_request ue.state_mm ue c)
  ue_mgr_handler terminate ue c = on_terminate ue.state_mm ue >>= λ done. ok (done, false)
  ue_mgr_handler kill ue c = ok (ue, false)
  ue_mgr_handler other_request ue c = ok (ue, true)

  pub asked_paging :
      UeContext → Option Guti → List (Option FiveGsTmsi) → Connection → Outcome UeContext
  unfolding is_paged
  asked_paging ue none paged c = ok ue
  asked_paging ue (some guti) paged c = is_paged paged (get_tmsi_5g ue) >>= λ found.
      if found then (ue_mgr_handler service_request ue c >>= λ r. ok r.0) else ok ue

  -- `verifyPaging`: the gNB answers with the identities that it pages.
  pub verify_paging_on :
      Option ℕ → UeContext → List (Option FiveGsTmsi) → Connection → Outcome UeContext
  unfolding asked_paging
  verify_paging_on none ue paged c = blocked
  verify_paging_on (some inbound) ue paged c =
      asked_paging (emit (fetch_paged_ues inbound) ue) ue.security.guti paged c

  pub verify_paging : UeContext → List (Option FiveGsTmsi) → Connection → Outcome UeContext
  unfolding verify_paging_on
  verify_paging ue paged c = verify_paging_on ue.gnb_inbound_channel ue paged c

-- A message of the gNB, by the branch that takes it.
pub data GnbMessage : Type 0 where
  nas_message : Option (List ℕ) → GnbMessage
  setup_session : GnbMessage
  use_gnb : (inbound rx tx : ℕ) → GnbMessage
  unknown_message : GnbMessage

-- The UE tells the previous gNB that it has left, and closes the channel.
pub leave_gnb : Option ℕ → UeContext → Outcome UeContext
leave_gnb none ue = blocked
leave_gnb (some previous) ue = ok (emit (closed_to_gnb previous) ue)

-- `gnbMsgHandler`. `setup_gtp` is the netlink glue of internal/control_test_engine/ue/gtp/service.
pub gnb_msg_handler :
    NasLib
    → (setup_gtp : UeContext → Outcome UeContext) → GnbMessage
    → UeContext
    → Outcome UeContext
unfolding leave_gnb
gnb_msg_handler lib setup_gtp (nas_message m) ue = dispatch_nas lib ue m
gnb_msg_handler lib setup_gtp setup_session ue = setup_gtp ue
gnb_msg_handler lib setup_gtp (use_gnb inbound rx tx) ue =
    leave_gnb ue.gnb_rx
      (record ue { gnb_inbound_channel = some inbound; gnb_rx = some rx; gnb_tx = some tx })
gnb_msg_handler lib setup_gtp unknown_message ue = ok ue
