-- ===== src/Gnb/Ue.antt =====
-- The UE as the gNB knows it, and its PDU sessions:
-- internal/control_test_engine/gnb/context/ue.go.
-- The int64 ids of NGAP are bit patterns, except the PDU session id, whose sign the code reads.
-- Channels, connections and objects of other packages are known by their addresses.
pub mod Sessions
pub mod Ids
mod Tests
use packet_rusher.Base.{
  ℕ, suc, Bool, true, false, ◌&&◌, ◌||◌, Option, none, some, List, [], ◌∷◌, Outcome, ok, panic,
  ◌>>=◌, ◌>>◌, ◌==◌, ltb, if◌then◌else◌, length, set, replicate, at, text_eq, codes,
}
use packet_rusher.Base.Int.{ℤ, pos, negsuc, ltb_ℤ}
use packet_rusher.Plmn.{convert_mcc_mnc}

pub data UeState : Type 0 where
  initialized ongoing ready down : UeState

pub record GnbPduSession : Type 0 where
  pub pdu_session_id : ℤ
  pub upf_ip : List ℕ
  pub sst : List ℕ
  pub sd : List ℕ
  pub uplink_teid : ℕ
  pub downlink_teid : ℕ
  pub pdu_type : ℕ
  pub qos_id : ℕ
  pub five_qi : ℕ
  pub pri_arp : ℕ

-- `Context`, with the fields of `mobility` in place.
pub record UeInfo : Type 0 where
  pub mcc : List ℕ
  pub mnc : List ℕ
  pub masked_imeisv : List ℕ
  pub pdu_session : List (Option GnbPduSession)  -- sixteen
  pub allowed_sst : List (List ℕ)
  pub allowed_sd : List (List ℕ)
  pub ue_security_capabilities : Option ℕ

pub record GnbUe : Type 0 where
  pub ran_ue_ngap_id : ℕ
  pub amf_ue_ngap_id : ℕ
  pub amf_id : ℕ
  pub state : UeState
  pub sctp_connection : Option ℕ
  pub gnb_rx : Option ℕ
  pub gnb_tx : Option ℕ
  pub pr_ue_id : ℕ
  pub tmsi : Option ℕ
  pub context : UeInfo
  pub new_gnb : Option ℕ

abbrev pub max_sessions : ℕ
max_sessions = 16

-- `&GNBUe{}`.
abbrev pub zero_ue : GnbUe
zero_ue = record {
  ran_ue_ngap_id = 0;
  amf_ue_ngap_id = 0;
  amf_id = 0;
  state = initialized;
  sctp_connection = none;
  gnb_rx = none;
  gnb_tx = none;
  pr_ue_id = 0;
  tmsi = none;
  context = record {
    mcc = [];
    mnc = [];
    masked_imeisv = [];
    pdu_session = replicate max_sessions none;
    allowed_sst = [];
    allowed_sd = [];
    ue_security_capabilities = none;
  };
  new_gnb = none;
}

abbrev pub not_informed : List ℕ
not_informed = codes "not informed"

-- The PLMN is read only if it was informed.
abbrev pub mobility_of : List ℕ → Outcome (List ℕ × List ℕ)
mobility_of plmn = if text_eq plmn not_informed then ok (plmn, plmn) else convert_mcc_mnc plmn

pub create_ue_context :
    GnbUe → List ℕ → List ℕ → List (List ℕ) → List (List ℕ) → Option ℕ → Outcome GnbUe
create_ue_context ue plmn imeisv sst sd caps = mobility_of plmn >>= λ m. ok (record ue {
  context = record (ue.context) {
    mcc = m.0;
    mnc = m.1;
    masked_imeisv = imeisv;
    allowed_sst = sst;
    allowed_sd = sd;
    ue_security_capabilities = caps;
  };
})

unfoldable pub copy_from_previous_context : GnbUe → GnbUe → GnbUe
copy_from_previous_context ue old = record ue {
  amf_ue_ngap_id = old.amf_ue_ngap_id;
  context = old.context;
}

-- The loop of `isWantedNssai`, entered with lists of one length.
unfoldable pub wanted_loop : List (List ℕ) → List (List ℕ) → List ℕ → List ℕ → Bool
wanted_loop [] sds sst sd = false
wanted_loop (a ∷ ssts) [] sst sd = false
wanted_loop (a ∷ ssts) (b ∷ sds) sst sd =
    let rest = wanted_loop ssts sds sst sd in if text_eq a sst && text_eq b sd then true else rest

unfoldable pub is_wanted_nssai : GnbUe → List ℕ → List ℕ → Bool
is_wanted_nssai ue sst sd =
    if length ue.context.allowed_sst == length ue.context.allowed_sd
    then wanted_loop ue.context.allowed_sst ue.context.allowed_sd sst sd
    else false

-- The guard of the three methods below: "id < 1 && id > 16".
unfoldable pub is_refused_id : ℤ → Bool
is_refused_id id = ltb_ℤ id (pos 1) && ltb_ℤ (pos 16) id

-- The index `pduSession[id - 1]` into an array of sixteen.
unfoldable pub slot : ℤ → Outcome ℕ
slot (negsuc n) = panic
slot (pos ℕ.zero) = panic
slot (pos (suc i)) = if ltb i max_sessions then ok i else panic

abbrev pub with_session : GnbUe → ℕ → Option GnbPduSession → GnbUe
with_session ue i s = record ue {
  context = record (ue.context) { pdu_session = set ue.context.pdu_session i s };
}

pub data SessionError : Type 0 where
  bad_id already_exists slice_not_selected : SessionError

pub data Result (A : Type 0) : Type 0 where
  done : A → Result A
  error : SessionError → Result A

-- The session that the arguments describe; its id is `id`.
abbrev pub Request : Type 0
Request = GnbPduSession

unfoldable pub put_session :
    GnbUe → ℕ → Option GnbPduSession → Request → Result (GnbUe × GnbPduSession)
put_session ue i (some old) r = error already_exists
put_session ue i none r =
    if is_wanted_nssai ue r.sst r.sd
    then done (with_session ue i (some r), r)
    else error slice_not_selected

unfoldable pub create_pdu_session : GnbUe → Request → Outcome (Result (GnbUe × GnbPduSession))
create_pdu_session ue r = if is_refused_id r.pdu_session_id then ok (error bad_id) else (do
  i ← slot r.pdu_session_id
  old ← at ue.context.pdu_session i
  ok (put_session ue i old r))

-- The session, or none for a nil pointer.
pub get_pdu_session : GnbUe → ℤ → Outcome (Result (Option GnbPduSession))
get_pdu_session ue id =
    if is_refused_id id
    then ok (error bad_id)
    else (do i ← slot id; s ← at ue.context.pdu_session i; ok (done s))

pub delete_pdu_session : GnbUe → ℤ → Outcome (Result GnbUe)
delete_pdu_session ue id =
    if is_refused_id id
    then ok (error bad_id)
    else (slot id >>= λ i. ok (done (with_session ue i none)))

abbrev pub nssai_of : Option GnbPduSession → List ℕ × List ℕ
nssai_of none = (codes "NSSAI was not selected", codes "NSSAI was not selected")
nssai_of (some s) = (s.sst, s.sd)

pub get_selected_nssai : GnbUe → ℤ → Outcome (List ℕ × List ℕ)
get_selected_nssai ue id = do i ← slot id; s ← at ue.context.pdu_session i; ok (nssai_of s)

pub get_pdu_type : GnbPduSession → List ℕ
get_pdu_type s =
    if s.pdu_type == 0
    then codes "ipv4"
    else (if s.pdu_type == 1
        then codes "ipv6"
        else (if s.pdu_type == 2
            then codes "Ipv4Ipv6"
            else (if s.pdu_type == 3 then codes "ethernet" else [])))
