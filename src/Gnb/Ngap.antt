-- ===== src/Gnb/Ngap.antt =====
-- The NGAP messages that the gNB handles: internal/control_test_engine/gnb/ngap, with the types of
-- github.com/free5gc/ngap as far as the source reads them.
-- A pointer that the source tests is an Option. The NGAP codec, its conversion of addresses, the SCTP
-- connections and the order in which `sync.Map.Range` visits the AMFs are the parameters of `NgapLib`.
pub mod Triggers
pub mod Ies
pub mod Ues
pub mod ContextSetup
pub mod SessionSetup
pub mod Release
pub mod Setup
pub mod Update
pub mod Status
pub mod Handover
pub mod Dispatch
pub mod Samples
pub mod Builders
use packet_rusher.Base.{
  ℕ, ◌+◌, ◌*◌, Bool, Option, none, some, List, [], ◌∷◌, ◌++◌, Outcome, ok, panic, fatal, ◌>>=◌, at,
  deref, codes, map, get_elem?, set,
}
use packet_rusher.Base.Int.{ℤ, pos}
use packet_rusher.Plmn.Hex.{encode_hex}
use packet_rusher.Gnb.Amf.{AddrPort, BitString, GnbAmf}
use packet_rusher.Gnb.Ue.{GnbUe, GnbPduSession, not_informed}
use packet_rusher.Gnb.Context.{GnbContext, ControlInfo, get_gnb_ue}
use packet_rusher.Gnb.Messages.{Output, put_ue}

pub record Snssai : Type 0 where
  pub sst_value : Option (List ℕ)
  pub sd_value : Option (List ℕ)

-- An item of the lists of PDU sessions to set up, in each of the three requests that have one.
pub record SetupItem : Type 0 where
  pub item_id : ℤ
  pub item_nas : Option (List ℕ)
  pub snssai : Snssai
  pub transfer : Option (List ℕ)

pub record SwitchedItem : Type 0 where
  pub switched_id : ℤ
  pub switch_transfer : List ℕ

pub record Tunnel : Type 0 where
  pub transport_layer_address : List ℕ
  pub gtp_teid : List ℕ

pub record QosFlow : Type 0 where
  pub identifier : ℕ
  pub non_dynamic_five_qi : Option ℕ
  pub priority_level_arp : ℕ

-- An IE of PDUSessionResourceSetupRequestTransfer.
pub data TransferIe : Type 0 where
  ul_ngu_up_tnl_information : Tunnel → TransferIe
  qos_flow_setup_request_list : List QosFlow → TransferIe
  pdu_session_type : ℕ → TransferIe
  other_transfer : TransferIe

pub record Guami : Type 0 where
  pub plmn_identity : List ℕ
  pub amf_region_id : BitString
  pub amf_set_id : BitString
  pub amf_pointer : BitString

pub record UnavailableGuami : Type 0 where
  pub guami : Guami
  pub backup_amf_name : Option (List ℕ)

pub record PlmnSupport : Type 0 where
  pub identity : List ℕ
  pub slice_support : Option (List Snssai)

-- An item of the lists of TNL associations.
pub record TnlItem : Type 0 where
  pub endpoint : List ℕ
  pub association_usage : Option ℕ
  pub weight_factor : Option ℤ  -- always present in an item to add

-- The protocol IEs that some handler reads, with their value.
pub data Ie : Type 0 where
  amf_ue_id : Option ℕ → Ie
  ran_ue_id : Option ℕ → Ie
  nas_pdu : Option (List ℕ) → Ie
  security_key : Option (List ℕ) → Ie
  guami_ie : Option Guami → Ie
  allowed_nssai : Option (List Snssai) → Ie
  mobility_restriction_list : Option (List ℕ) → Ie
  masked_imeisv_ie : Option (List ℕ) → Ie
  security_capabilities : Option ℕ → Ie
  setup_list_cxt_req : Option (List SetupItem) → Ie
  setup_list_su_req : Option (List SetupItem) → Ie
  setup_list_ho_req : Option (List SetupItem) → Ie
  to_release_list_rel_cmd : Option (List ℤ) → Ie
  amf_name : Option (List ℕ) → Ie
  served_guami_list : Option (List Guami) → Ie
  amf_capacity : Option ℤ → Ie
  plmn_support_list : Option (List PlmnSupport) → Ie
  ue_ngap_ids : Option ℕ → Ie
  tnl_association_to_add_list : List TnlItem → Ie
  tnl_association_to_remove_list : List TnlItem → Ie
  tnl_association_to_update_list : List TnlItem → Ie
  unavailable_guami_list : List UnavailableGuami → Ie
  switched_list : Option (List SwitchedItem) → Ie
  source_to_target_container : Option (List ℕ) → Ie
  ue_paging_identity : Option (Option ℕ) → Ie
  tai_list_for_paging : Option (List ℕ) → Ie
  other_ie : Ie

-- The messages that the gNB builds for the AMF: the builder, with its arguments as they are when it is
-- called.
pub data AmfMessage : Type 0 where
  pdu_session_resource_setup_response : List GnbPduSession → GnbUe → GnbContext → AmfMessage
  pdu_session_release_response : List ℤ → GnbUe → AmfMessage
  initial_context_setup_response : GnbUe → GnbContext → AmfMessage
  ue_context_release_complete : GnbUe → AmfMessage
  amf_configuration_update_acknowledge : AmfMessage
  ng_setup_request : GnbContext → AmfMessage
  handover_request_acknowledge : GnbContext → GnbUe → AmfMessage
  handover_required : GnbContext → ℕ → GnbUe → AmfMessage
  ue_context_release_request : GnbUe → AmfMessage
  path_switch_request handover_notify : GnbContext → GnbUe → AmfMessage
  initial_ue_message : (ran_id : ℕ) (nas : List ℕ) (tmsi : Option ℕ) → ControlInfo → AmfMessage
  uplink_nas_transport : (amf_id ran_id : ℕ) (nas : List ℕ) → ControlInfo → AmfMessage

pub data Present : Type 0 where
  initiating_message successful_outcome unsuccessful_outcome nothing : Present

pub data ProcedureCode : Type 0 where
  downlink_nas_transport initial_context_setup pdu_session_resource_setup : ProcedureCode
  pdu_session_resource_release ue_context_release amf_configuration_update : ProcedureCode
  amf_status_indication handover_resource_allocation paging error_indication : ProcedureCode
  ng_setup path_switch handover_preparation other_procedure : ProcedureCode

pub record NgapPdu : Type 0 where
  pub present : Present
  pub procedure_code : ProcedureCode
  pub ies : List Ie

pub record NgapLib : Type 0 where
  pub decoder : List ℕ → Option NgapPdu  -- the pointer that it returns
  pub encode : AmfMessage → Option (List ℕ)
  pub unmarshal_setup : List ℕ → Option (List TransferIe)
  pub unmarshal_switch : List ℕ → Option (Option Tunnel)  -- ULNGUUPTNLInformation
  pub unmarshal_container : List ℕ → Option (Option ℕ)  -- IndexToRFSP
  pub ip_address_to_string : List ℕ → List ℕ  -- the IPv4 address
  pub parse_addr : List ℕ → Option (List ℕ)
  pub resolves : AddrPort → Bool
  pub dial : AddrPort → AddrPort → Option ℕ  -- local, remote
  pub sctp_write : ℕ → List ℕ → Bool  -- whether it succeeds on a connection
  pub visit : List GnbAmf → List GnbAmf  -- what `Range` yields of the pool
  pub inbound_channel_of : ℕ → Option ℕ  -- of the gNB at an address
  pub closed_of : ℕ → List ℕ  -- the channels of that gNB that were closed

abbrev pub Run : Type 0
Run = Outcome (GnbContext × List Output)

-- The loop over the protocol IEs of a message, over the handler's local variables.
pub read_ies {ℓ} : {L : Type ℓ} → (Ie → L → Outcome L) → List Ie → L → Outcome L
read_ies read [] locals = ok locals
read_ies read (ie ∷ rest) locals = read ie locals >>= λ locals'. read_ies read rest locals'

-- `if value == nil { log.Fatal(...) }`.
abbrev pub mandatory : {A : Type 0} → Option A → Outcome A
mandatory none = fatal
mandatory (some a) = ok a

-- A second part of a handler: its outputs follow those of the first.
infixl 5 ◌>>>◌
abbrev pub ◌>>>◌ : Run → (GnbContext → Run) → Run
first >>> second = first >>= λ r. second r.0 >>= λ s. ok (s.0, r.1 ++ s.1)

abbrev pub ue_of : GnbContext → ℕ → Outcome GnbUe
ue_of gnb p = deref (get_elem? gnb.ues p)

-- What a handler does with the UE object at `p` and leaves the context alone.
abbrev pub send_from : GnbContext → Outcome (List Output) → Run
send_from gnb sent = sent >>= λ out. ok (gnb, out)

-- `getUeFromContext`: the UE then has the AMF's id of the message.
pub get_ue_from_context : GnbContext → ℕ → ℕ → Outcome (GnbContext × Option ℕ)
get_ue_from_context gnb ran_id amf_id = elim (get_gnb_ue gnb ran_id) [
  | none ↦ ok (gnb, none)
  | some p ↦ ue_of gnb p >>= λ ue. ok (put_ue gnb p (record ue { amf_ue_ngap_id = amf_id }), some p)
]

-- `%x` of a slice that may be nil, and with the text that stands for nil.
abbrev pub hex_of : Option (List ℕ) → List ℕ
hex_of none = []
hex_of (some bytes) = encode_hex bytes

abbrev pub hex_or : List ℕ → Option (List ℕ) → List ℕ
hex_or missing none = missing
hex_or missing (some bytes) = encode_hex bytes

abbrev pub informed : Option (List ℕ) → List ℕ
informed bytes = hex_or not_informed bytes

-- `binary.BigEndian.Uint32`.
pub big_endian_uint32 : List ℕ → Outcome ℕ
big_endian_uint32 b = do
  b3 ← at b 3
  b2 ← at b 2
  b1 ← at b 1
  b0 ← at b 0
  ok (b3 + 256 * b2 + 65536 * b1 + 16777216 * b0)
