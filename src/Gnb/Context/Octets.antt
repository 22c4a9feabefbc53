-- ===== src/Gnb/Context/Octets.antt =====
-- What the gNB tells an AMF of itself, as octets, and `Terminate`: the end of
-- internal/control_test_engine/gnb/context/context.go. An error of encoding/hex is only printed,
-- so that the octets decoded before it are the result.
mod Tests
use packet_rusher.Base.{
  ℕ, ◌+◌, ◌/◌, ◌%◌, ◌≡◌, refl, ◌∙◌, ap, Bool, false, Option, none, some, List, [], ◌∷◌, ◌++◌,
  Outcome, ok, ◌>>=◌, codes,
}
use packet_rusher.Plmn.Hex.{decode_hex, encode_hex, hex_digit, decode_hex_lower, AllHex, IsEven}
use packet_rusher.Gnb.Amf.{AddrPort}
use packet_rusher.Gnb.Messages.{close_channel}
use packet_rusher.Gnb.Context.{GnbContext, new_ran_gnb_context}

pub get_gnb_id_in_bytes : GnbContext → List ℕ
get_gnb_id_in_bytes gnb = (decode_hex gnb.control_info.gnb_id).0

pub get_tac_in_bytes : GnbContext → List ℕ
get_tac_in_bytes gnb = (decode_hex gnb.control_info.tac).0

-- An empty `sd` gives nil.
abbrev pub sd_bytes : List ℕ → Option (List ℕ)
sd_bytes [] = none
sd_bytes (c ∷ s) = some (decode_hex (c ∷ s)).0

pub get_slice_in_bytes : GnbContext → List ℕ × Option (List ℕ)
get_slice_in_bytes gnb = ((decode_hex gnb.sst).0, sd_bytes gnb.sd)

pub record BitString : Type 0 where
  pub bytes : List ℕ
  pub bit_length : ℕ

pub get_nr_cell_identity : GnbContext → BitString
unfolding get_gnb_id_in_bytes
get_nr_cell_identity gnb = record { bytes = get_gnb_id_in_bytes gnb ++ 0 ∷ 0 ∷ []; bit_length = 36 }

-- The context, and the N2 connection that was closed.
pub terminate : GnbContext → Outcome (GnbContext × Option ℕ)
terminate gnb = close_channel gnb.control_info.inbound_channel gnb.closed >>= λ closed.
    ok (record gnb { closed = closed }, gnb.control_info.n2)

encode_hex-append : (a b : List ℕ) → encode_hex (a ++ b) ≡ encode_hex a ++ encode_hex b
unfolding encode_hex
encode_hex-append [] b = refl
encode_hex-append (x ∷ a) b =
    ap (λ s. hex_digit (x / 16) ∷ hex_digit (x % 16) ∷ s) (encode_hex-append a b)

hex_read : (s : List ℕ) → AllHex s → IsEven s → encode_hex (decode_hex s).0 ≡ s
hex_read s h e = (decode_hex_lower s h e).0

-- The octets of the optional `sd` print as the text that was configured.
abbrev pub IsSdOf : List ℕ → Option (List ℕ) → Type 0
IsSdOf sd none = sd ≡ []
IsSdOf sd (some octets) = encode_hex octets ≡ sd

sd_bytes-IsSdOf : (sd : List ℕ) → AllHex sd → IsEven sd → IsSdOf sd (sd_bytes sd)
sd_bytes-IsSdOf [] h e = refl
sd_bytes-IsSdOf (c ∷ s) h e = hex_read (c ∷ s) h e

-- For a gNB made with an id, a TAC, an SST and an SD in lower-case hexadecimal, of even length each, the
-- octets of the id, the TAC, the SST and the SD print as the text that was configured, the SD is left
-- out exactly when it is empty, and the NR cell identity prints as the id and four zero digits.
pub configured_octets :
    (gnb_id mcc mnc tac sst sd : List ℕ) (n2 n3 : AddrPort) (channel : ℕ)
    → AllHex gnb_id
    → IsEven gnb_id
    → AllHex tac
    → IsEven tac
    → AllHex sst
    → IsEven sst
    → AllHex sd
    → IsEven sd
    → (gnb : GnbContext) × (new_ran_gnb_context gnb_id mcc mnc tac sst sd n2 n3 channel ≡ gnb)
      × (encode_hex (get_gnb_id_in_bytes gnb) ≡ gnb_id)
      × (encode_hex (get_tac_in_bytes gnb) ≡ tac)
      × (encode_hex (get_slice_in_bytes gnb).0 ≡ sst)
      × IsSdOf sd (get_slice_in_bytes gnb).1
      × (encode_hex (get_nr_cell_identity gnb).bytes ≡ gnb_id ++ codes "0000")
unfolding new_ran_gnb_context get_gnb_id_in_bytes get_tac_in_bytes get_slice_in_bytes
    get_nr_cell_identity encode_hex
configured_octets gnb_id mcc mnc tac sst sd n2 n3 channel h1 e1 h2 e2 h3 e3 h4 e4 = (
  new_ran_gnb_context gnb_id mcc mnc tac sst sd n2 n3 channel,
  refl,
  hex_read gnb_id h1 e1,
  hex_read tac h2 e2,
  hex_read sst h3 e3,
  sd_bytes-IsSdOf sd h4 e4,
  encode_hex-append (decode_hex gnb_id).0 (0 ∷ 0 ∷ [])
      ∙ ap (λ s. s ++ codes "0000") (hex_read gnb_id h1 e1),
)
