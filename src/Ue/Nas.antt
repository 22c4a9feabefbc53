-- ===== src/Ue/Nas.antt =====
-- What the UE uses of the libraries nas, milenage, ueauth and netlink, which are not in this
-- repository: a record of functions, passed to every operation that calls them. A `security.Count`
-- is known by a number; a decoded message by the fields that the handlers read.
use packet_rusher.Base.{ℕ, Bool, Option, List}
use packet_rusher.Ue.Context.{UeContext}

pub data Direction : Type 0 where
  uplink downlink : Direction

-- The plain uplink messages that the UE builds.
pub data UplinkNas : Type 0 where
  registration_request : (capability : Bool) → UplinkNas
  registration_complete security_mode_complete : UplinkNas
  pdu_session_request pdu_session_release pdu_session_release_complete : (id : ℕ) → UplinkNas
  deregistration_request identity_response : UplinkNas
  configuration_update_complete service_request : UplinkNas
  authentication_response : (res_star : List ℕ) → UplinkNas
  authentication_failure : (synch : Bool) → (auts : List ℕ) → UplinkNas

-- The fields that every handler checks; 0 is a missing field.
pub record Mandatory : Type 0 where
  pub epd : ℕ
  pub spare_half_octet : ℕ
  pub security_header_type : ℕ
  pub message_type : ℕ

pub record AuthenticationRequest : Type 0 where
  pub mandatory : Mandatory
  pub ngksi_spare : ℕ
  pub ngksi : ℕ
  pub abba : Option (List ℕ)
  pub rand : List ℕ
  pub autn : List ℕ

pub record SecurityModeCommand : Type 0 where
  pub mandatory : Mandatory
  pub algorithms_present : Bool
  pub ciphering_alg : ℕ
  pub integrity_alg : ℕ
  pub ngksi_spare : ℕ
  pub ngksi : ℕ
  pub tsc_mapped : Bool
  pub replayed_capabilities : Bool

pub record RegistrationAccept : Type 0 where
  pub mandatory : Mandatory
  pub result : ℕ
  pub guti : Option (List ℕ)
  pub allowed_nssai : Option (List ℕ)

pub record EstablishmentAccept : Type 0 where
  pub epd : ℕ
  pub id : ℕ
  pub pti : ℕ
  pub message_type : ℕ
  pub session_type_present : Bool
  pub session_type : ℕ
  pub qos_rules_present : Bool
  pub session_ambr_present : Bool
  pub address : Option (List ℕ)  -- PDUAddress
  pub dnn_and_snssai_present : Bool

-- The session management message in the container of a DL NAS Transport.
pub data SmMessage : Type 0 where
  establishment_accept : EstablishmentAccept → SmMessage
  release_command : (id : ℕ) → SmMessage
  establishment_reject : (id cause : ℕ) → SmMessage
  other_sm : ℕ → SmMessage

pub record DlNasTransport : Type 0 where
  pub mandatory : Mandatory
  pub container_type : ℕ
  pub container : Option (List ℕ)
  pub session_id_iei : Option ℕ

pub data DlMessage : Type 0 where
  authentication_request : AuthenticationRequest → DlMessage
  authentication_reject : DlMessage
  identity_request : Mandatory → (identity_type : ℕ) → DlMessage
  security_mode_command : SecurityModeCommand → DlMessage
  registration_accept : RegistrationAccept → DlMessage
  configuration_update_command : Mandatory → DlMessage
  dl_nas_transport : DlNasTransport → DlMessage
  service_accept service_reject registration_reject status_5gmm status_5gsm : DlMessage
  other_message : ℕ → DlMessage

-- `GenerateKeysWithAUTN`'s results.
pub record AkaKeys : Type 0 where
  pub sqn_hn : List ℕ
  pub ak : List ℕ
  pub ik : List ℕ
  pub ck : List ℕ
  pub res : List ℕ

-- What a key derivation is for; its parameters follow it.
pub data Kdf : Type 0 where
  res_star kausf kseaf kamf : Kdf
  nas_enc_key nas_int_key : (algorithm : ℕ) → Kdf

pub record NasLib : Type 0 where
  -- security.Count
  pub sqn : ℕ → ℕ
  pub overflow : ℕ → ℕ
  pub make_count : (overflow sqn : ℕ) → ℕ
  pub add_one : ℕ → ℕ
  pub count_value : ℕ → ℕ
  -- nas and nas/security; `encode` builds the plain PDU from the UE's context, `reencode` is
  -- PlainNasDecode followed by PlainNasEncode, and a PDU that `plain_decode` or `sm_decode` does not
  -- know is none: the message has no header, and reading it panics.
  pub encode : UeContext → UplinkNas → List ℕ
  pub reencode : List ℕ → Option (List ℕ)
  pub security_header_type : List ℕ → ℕ
  pub plain_decode : List ℕ → Option DlMessage
  pub sm_decode : List ℕ → Option SmMessage
  pub encrypt :
      (algorithm : ℕ) → (key : List ℕ) → (count : ℕ) → Direction → List ℕ → Option (List ℕ)
  pub mac : (algorithm : ℕ) → (key : List ℕ) → (count : ℕ) → Direction → List ℕ → Option (List ℕ)
  -- milenage and ueauth
  pub keys_with_autn : (opc k rand autn : List ℕ) → Option AkaKeys
  pub generate_auts : (opc k rand sqn : List ℕ) → Option (List ℕ)
  pub kdf : (key : List ℕ) → Kdf → (parameters : List (List ℕ)) → Option (List ℕ)
  pub ip_text : List ℕ → List ℕ
