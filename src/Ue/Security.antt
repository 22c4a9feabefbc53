-- ===== src/Ue/Security.antt =====
-- The protection of the UE's own NAS messages:
-- ue/nas/message/nas_control/integrity-ciphering-nas.go, the wrappers of ue/nas/message/nas_control/
-- mm_5gs that call it, and ue/nas/message/sender/send.go.
use packet_rusher.Base.{
  ℕ, Bool, true, false, Option, none, some, List, ◌∷◌, ◌++◌, Outcome, ok, fatal,
}
use packet_rusher.Ue.Context.{UeContext, Security, nas_to_gnb, idle_to_gnb, emit}
use packet_rusher.Ue.Nas.{NasLib, UplinkNas, uplink}

-- TS 24.501 9.3.
pub data HeaderType : Type 0 where
  plain integrity_protected integrity_protected_and_ciphered : HeaderType
  integrity_protected_new integrity_protected_and_ciphered_new : HeaderType

abbrev pub header_code : HeaderType → ℕ
header_code plain = 0
header_code integrity_protected = 1
header_code integrity_protected_and_ciphered = 2
header_code integrity_protected_new = 3
header_code integrity_protected_and_ciphered_new = 4

abbrev pub is_ciphered : HeaderType → Bool
is_ciphered integrity_protected = false
is_ciphered integrity_protected_new = false
is_ciphered _ = true

abbrev pub epd_mm : ℕ
epd_mm = 0x7e

-- The UE after an encoding; every caller ends the process when it fails.
abbrev pub secured : UeContext → Option (List ℕ × Security) → Outcome (UeContext × List ℕ)
secured ue none = fatal
secured ue (some (bytes, s)) = ok (record ue { security = s }, bytes)

module _ (lib : NasLib) where
  abbrev pub reset_counts : Bool → Security → Security
  reset_counts false s = s
  reset_counts true s = record s { ul_count = lib.make_count 0 0; dl_count = lib.make_count 0 0 }

  abbrev pub cipher : Bool → Security → List ℕ → Option (List ℕ)
  cipher false s payload = some payload
  cipher true s payload =
      lib.encrypt s.ciphering_alg s.knas_enc (lib.count_value s.ul_count) uplink payload

  abbrev pub attach : HeaderType → Security → List ℕ → Option (List ℕ) → Option (List ℕ × Security)
  attach header s numbered none = none
  attach header s numbered (some mac32) = some (
    epd_mm ∷ header_code header ∷ (mac32 ++ numbered),
    record s { ul_count = lib.add_one s.ul_count },
  )

  -- The end of `NASEncode`: the sequence number, the MAC over both, and the header before them.
  unfoldable pub protect : HeaderType → Security → Option (List ℕ) → Option (List ℕ × Security)
  protect header s none = none
  protect header s (some ciphered) =
      let numbered : List ℕ = lib.sqn s.ul_count ∷ ciphered in
      attach header s numbered
        (lib.mac s.integrity_alg s.knas_int (lib.count_value s.ul_count) uplink numbered)

  -- `NASEncode` of a message whose plain form is `payload`: the bytes and the UE's new security state,
  -- or none with an error.
  unfoldable pub nas_encode :
      Security → HeaderType → List ℕ → Bool → Bool → Option (List ℕ × Security)
  nas_encode s header payload false new_context = some (payload, s)
  nas_encode s header payload true new_context =
      let t = reset_counts new_context s in protect header t (cipher (is_ciphered header) t payload)

  -- `EncodeNasPduWithSecurity`.
  unfoldable pub encode_nas_pdu_with_security :
      Security → List ℕ → HeaderType → Bool → Bool → Option (List ℕ × Security)
  encode_nas_pdu_with_security s pdu header available new_context = elim (lib.reencode pdu) [
    | none ↦ none
    | some payload ↦ nas_encode s header payload available new_context
  ]

  unfoldable pub secure : UeContext → HeaderType → UplinkNas → Bool → Outcome (UeContext × List ℕ)
  secure ue header message new_context =
      secured ue
        (encode_nas_pdu_with_security ue.security (lib.encode ue message) header true new_context)

-- `SendToGnb`: nothing is sent if the channel is nil.
unfoldable pub send_to_gnb : Option ℕ → List ℕ → UeContext → UeContext
send_to_gnb none message ue = ue
send_to_gnb (some c) message ue = emit (nas_to_gnb c message) ue

unfoldable pub send_nas : UeContext → List ℕ → UeContext
unfolding send_to_gnb
send_nas ue message = send_to_gnb ue.gnb_rx message ue

-- `SendToGnbMsg` with the Idle message.
pub send_idle_on : Option ℕ → UeContext → UeContext
send_idle_on none ue = ue
send_idle_on (some c) ue = emit (idle_to_gnb c) ue
