-- ===== src/Ue/Context.antt =====
-- The UE's context: internal/control_test_engine/ue/context/context.go.
-- The table of PDU sessions holds addresses of session objects, which the code also keeps in local
-- variables and timers; an address is a place in `objects`. `outputs` is what the UE has sent and
-- started, newest first. Network interfaces, rules and routes are not modelled.
pub mod Sessions
mod Tests
use packet_rusher.Base.{
  ℕ, suc, ◌+◌, ◌%◌, Bool, true, false, Option, none, some, List, [], ◌∷◌, ◌++◌, Outcome, ok, panic,
  ◌>>=◌, ◌>>◌, ◌==◌, ltb, if◌then◌else◌, length, set, replicate, at, deref, get_elem?, codes,
}
use packet_rusher.Plmn.{derive_snn}

-- The 5GMM states of the UE.
pub data MmState : Type 0 where
  mm_null mm_deregistered registered_initiated mm_registered : MmState
  service_req_init deregistered_init mm_idle : MmState

-- The 5GSM states of a PDU session.
pub data SmState : Type 0 where
  sm_inactive sm_active_pending sm_active : SmState

-- Of the GUTI, only the TMSI is read.
pub record Guti : Type 0 where
  pub tmsi : List ℕ

pub record Security : Type 0 where
  pub supi : List ℕ
  pub msin : List ℕ
  pub mcc : List ℕ
  pub mnc : List ℕ
  pub ul_count : ℕ
  pub dl_count : ℕ
  pub integrity_alg : ℕ
  pub ciphering_alg : ℕ
  pub ksi : ℕ
  pub tsc_mapped : Bool
  pub snn : List ℕ
  pub knas_enc : List ℕ
  pub knas_int : List ℕ
  pub kamf : List ℕ
  pub permanent_key : List ℕ
  pub opc : List ℕ
  pub sequence_number : List ℕ
  pub suci : List ℕ
  pub routing_indicator : List ℕ
  pub guti : Option Guti

pub record UePduSession : Type 0 where
  pub id : ℕ
  pub ue_ip : List ℕ
  pub stop_signal : Option ℕ
  pub wait_closed : Bool
  pub t3580_retries : ℕ
  pub state_sm : SmState

pub data UeOutput : Type 0 where
  scenario_state : MmState → UeOutput
  nas_to_gnb : (channel : ℕ) → List ℕ → UeOutput
  idle_to_gnb : (channel : ℕ) → UeOutput
  connect_to_gnb : (channel : Option ℕ) → (gnb_rx gnb_tx : ℕ) → UeOutput
  closed_to_gnb : (channel : ℕ) → UeOutput
  rx_closed : (channel : ℕ) → UeOutput
  scenario_closed : UeOutput
  fetch_paged_ues : (channel : ℕ) → UeOutput
  stop_session : (signal : ℕ) → UeOutput
  wait_for_release : (p : ℕ) → UeOutput
  retry_timer : (p : ℕ) → (seconds : ℕ) → UeOutput

pub record UeContext : Type 0 where
  pub id : ℕ
  pub pr_ue_id : ℕ
  pub security : Security
  pub state_mm : MmState
  pub gnb_inbound_channel : Option ℕ
  pub gnb_rx : Option ℕ
  pub gnb_tx : Option ℕ
  pub drx_running : Option Bool  -- none for a nil ticker
  pub pdu_session : List (Option ℕ)  -- sixteen
  pub objects : List UePduSession
  pub amf_mcc : List ℕ
  pub amf_mnc : List ℕ
  pub dnn : List ℕ
  pub sst : ℕ
  pub sd : List ℕ
  pub outputs : List UeOutput

abbrev pub emit : UeOutput → UeContext → UeContext
emit out ue = record ue { outputs = out ∷ ue.outputs }

-- The `SetStateMM_…` methods that report the new state to the scenario.
unfoldable pub set_state_mm : MmState → UeContext → UeContext
set_state_mm s ue = emit (scenario_state s) (record ue { state_mm = s })

-- `SetStateMM_NULL`.
pub set_state_mm_null : UeContext → UeContext
set_state_mm_null ue = record ue { state_mm = mm_null }

abbrev pub put_object : UeContext → ℕ → UePduSession → UeContext
put_object ue p s = record ue { objects = set ue.objects p s }

-- The search for the first nil entry of the table; `i` is the index of its head.
pub first_free : List (Option ℕ) → ℕ → Option ℕ
first_free [] i = none
first_free (none ∷ rest) i = some i
first_free (some p ∷ rest) i = first_free rest (suc i)

abbrev pub new_session : ℕ → UePduSession
new_session id = record {
  id = id;
  ue_ip = [];
  stop_signal = none;
  wait_closed = false;
  t3580_retries = 0;
  state_sm = sm_inactive;
}

-- `CreatePDUSession`: the new context and the session's address, or none if all are in use.
pub create_pdu_session : UeContext → Option (UeContext × ℕ)
create_pdu_session ue = elim (first_free ue.pdu_session 0) [
  | none ↦ none
  | some i ↦ some (
    record ue {
      pdu_session = set ue.pdu_session i (some (length ue.objects));
      objects = ue.objects ++ new_session ((i + 1) % 256) ∷ [];
    },
    length ue.objects,
  )
]

-- `ue.PduSession[id - 1]` with an uint8 id: 0 wraps to 255 and panics.
abbrev pub entry : UeContext → ℕ → Outcome (Option ℕ)
entry ue id = at ue.pdu_session ((id + 255) % 256)

-- `GetPduSession`: the address, or none with an error.
unfoldable pub get_pdu_session : UeContext → ℕ → Outcome (Option ℕ)
get_pdu_session ue id = if ltb 15 id then ok none else entry ue id

abbrev pub close_wait : UePduSession → Outcome UePduSession
close_wait s = if s.wait_closed then panic else ok (record s { wait_closed = true })

abbrev pub signal_stop : Option ℕ → UeContext → UeContext
signal_stop none ue = ue
signal_stop (some c) ue = emit (stop_session c) ue

unfoldable pub delete_found : UeContext → ℕ → Option ℕ → Outcome (Option UeContext)
delete_found ue id none = ok none
delete_found ue id (some p) = deref (get_elem? ue.objects p) >>= λ s. close_wait s >>= λ shut. ok (
    some (
      signal_stop s.stop_signal (record (put_object ue p shut) {
        pdu_session = set ue.pdu_session ((id + 255) % 256) none;
      })))

-- `DeletePduSession`: the new context, or none with an error.
unfoldable pub delete_pdu_session : UeContext → ℕ → Outcome (Option UeContext)
unfolding delete_found
delete_pdu_session ue id = if ltb 15 id then ok none else (entry ue id >>= delete_found ue id)

-- `SetAmfMccAndMnc` with `deriveSNN`.
pub set_amf_mcc_and_mnc : UeContext → List ℕ → List ℕ → UeContext
set_amf_mcc_and_mnc ue mcc mnc = record ue {
  amf_mcc = mcc;
  amf_mnc = mnc;
  security = record (ue.security) { snn = derive_snn mcc mnc };
}

abbrev pub tmsi_of : Option Guti → List ℕ
tmsi_of none = replicate 4 0
tmsi_of (some guti) = guti.tmsi

unfoldable pub get_tmsi_5g : UeContext → List ℕ
get_tmsi_5g ue = tmsi_of ue.security.guti

abbrev pub stop_ticker : Option Bool → Option Bool
stop_ticker none = none
stop_ticker (some running) = some false

pub stop_drx : UeContext → UeContext
stop_drx ue = record ue { drx_running = stop_ticker ue.drx_running }

pub create_drx : UeContext → UeContext
create_drx ue = record ue { drx_running = some true }

abbrev pub close_rx : Option ℕ → UeContext → UeContext
close_rx none ue = ue
close_rx (some c) ue = emit (rx_closed c) (record ue { gnb_rx = none })

-- `Terminate`, less the network interfaces.
pub terminate : UeContext → UeContext
terminate ue = emit scenario_closed (stop_drx (close_rx ue.gnb_rx (set_state_mm_null ue)))
