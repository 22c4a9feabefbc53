-- ===== src/Plmn.antt =====
-- The PLMN texts and octets that both sides write: `GetMccAndMncInOctets` and `reverse` of
-- internal/control_test_engine/gnb/context/context.go and of
-- internal/control_test_engine/ue/context/context.go, `convertMccMnc` of gnb/context/amf.go, and
-- `deriveSNN` and `GetRoutingIndicatorInOctets` of ue/context/context.go.
-- A text is the list of its bytes, all below 128, where Go's runes and bytes agree.
pub mod Hex
pub mod RoundTrip
pub mod Routing
mod Tests
use packet_rusher.Base.{
  suc, ◌+◌, List, [], ◌∷◌, ◌++◌, Outcome, ok, fatal, at, ◌>>=◌, ◌>>◌, fatal_if, ◌-◌, ℕ, Option,
  length, ◌==◌, ltb, if◌then◌else◌,
}
use packet_rusher.Base.{codes}
use Hex.{decode_hex}

-- The loop of `reverse` prepends each character to `aux`.
pub reverse_onto : List ℕ → List ℕ → List ℕ
reverse_onto aux [] = aux
reverse_onto aux (c ∷ s) = reverse_onto (c ∷ aux) s

pub reverse_text : List ℕ → List ℕ
unfolding reverse_onto
reverse_text s = reverse_onto [] s

-- The six hexadecimal digits that the gNB writes.
pub gnb_plmn_text : List ℕ → List ℕ → Outcome (List ℕ)
unfolding reverse_text
gnb_plmn_text mcc_text mnc_text = do
  let mcc = reverse_text mcc_text
  let mnc = reverse_text mnc_text
  m1 ← at mcc 1
  m2 ← at mcc 2
  m0 ← at mcc 0
  n0 ← at mnc 0
  n1 ← at mnc 1
  if length mnc == 2
      then ok (m1 ∷ m2 ∷ b'f' ∷ m0 ∷ n0 ∷ n1 ∷ [])
      else (at mnc 2 >>= λ n2. ok (m1 ∷ m2 ∷ n2 ∷ m0 ∷ n0 ∷ n1 ∷ []))

-- The gNB's octets; the error of `DecodeString` is dropped, as in the source.
pub gnb_plmn_octets : List ℕ → List ℕ → Outcome (List ℕ)
unfolding gnb_plmn_text
gnb_plmn_octets mcc mnc = gnb_plmn_text mcc mnc >>= λ text. ok (decode_hex text).0

-- The six hexadecimal digits that the UE writes: they differ from the gNB's for three-digit MNCs.
pub ue_plmn_text : List ℕ → List ℕ → Outcome (List ℕ)
unfolding reverse_text
ue_plmn_text mcc_text mnc_text = do
  let mcc = reverse_text mcc_text
  let mnc = reverse_text mnc_text
  m1 ← at mcc 1
  m2 ← at mcc 2
  m0 ← at mcc 0
  n0 ← at mnc 0
  n1 ← at mnc 1
  if length mnc == 2
      then ok (m1 ∷ m2 ∷ b'f' ∷ m0 ∷ n0 ∷ n1 ∷ [])
      else (at mnc 2 >>= λ n2. ok (m1 ∷ m2 ∷ n0 ∷ m0 ∷ n1 ∷ n2 ∷ []))

pub ue_plmn_octets : List ℕ → List ℕ → Outcome (List ℕ)
unfolding ue_plmn_text
ue_plmn_octets mcc mnc = ue_plmn_text mcc mnc >>= λ text. ok (decode_hex text).0

-- `convertMccMnc` reads the digits back from the hexadecimal text of the octets.
unfoldable pub convert_mcc_mnc : List ℕ → Outcome (List ℕ × List ℕ)
convert_mcc_mnc plmn = do
  c2 ← at plmn 2
  c1 ← at plmn 1
  c0 ← at plmn 0
  c3 ← at plmn 3
  c5 ← at plmn 5
  c4 ← at plmn 4
  if c2 == b'f'
      then ok (c1 ∷ c0 ∷ c3 ∷ [], c5 ∷ c4 ∷ [])
      else ok (c1 ∷ c0 ∷ c3 ∷ [], c2 ∷ c5 ∷ c4 ∷ [])

-- The loop that pads the routing indicator with 'F' to four bytes; `k` rounds are left.
pub pad_routing : ℕ → List ℕ → List ℕ
pad_routing ℕ.zero r = r
pad_routing (suc k) r = pad_routing k (r ++ b'F' ∷ [])

-- Neighbours change places, two by two.
unfoldable pub swap_pairs : List ℕ → List ℕ
swap_pairs [] = []
swap_pairs (a ∷ []) = a ∷ []
swap_pairs (a ∷ b ∷ r) = b ∷ a ∷ swap_pairs r

-- An empty indicator becomes "0", which the UE context keeps.
pub stored_routing : List ℕ → List ℕ
stored_routing [] = b'0' ∷ []
stored_routing (c ∷ s) = c ∷ s

-- The stored indicator, and its octets.
pub routing_octets : List ℕ → Outcome (List ℕ × List ℕ)
unfolding pad_routing swap_pairs stored_routing
routing_octets indicator = do
  let stored = stored_routing indicator
  fatal_if (ltb 4 (length stored))
  let (octets, failed) = decode_hex (swap_pairs (pad_routing (4 - length stored) stored))
  fatal_if failed
  ok (stored, octets)

-- `deriveSNN`: the serving network name, for a two-digit MNC with a zero put before it.
pub derive_snn : List ℕ → List ℕ → List ℕ
derive_snn mcc mnc =
    let tail = mnc ++ (codes ".mcc" ++ (mcc ++ codes ".3gppnetwork.org")) in
    if length mnc == 2 then codes "5G:mnc0" ++ tail else codes "5G:mnc" ++ tail
