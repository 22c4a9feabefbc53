-- ===== src/Plmn/Routing.antt =====
-- The routing indicator as octets, digit by digit.
use packet_rusher.Base.{
  ℕ, suc, zero, ◌+◌, ◌-◌, ◌*◌, ◌≡◌, refl, some, List, [], ◌∷◌, ok, fatal, arith, length, ltb,
  lt→ltb, if◌then◌else◌,
}
use packet_rusher.Plmn.{derive_snn, routing_octets, stored_routing}
use packet_rusher.Plmn.Hex.{decode_hex, hex_value, IsDigit}
use packet_rusher.Plmn.RoundTrip.{AllDigits, IsMcc, IsMnc}

-- The value of the digit at a place, and 15 where the indicator has none (TS 24.501 9.11.3.4.1).
abbrev pub filled : List ℕ → ℕ → ℕ
filled [] i = 15
filled (c ∷ s) zero = c - b'0'
filled (c ∷ s) (suc i) = filled s i

digit_value : (c : ℕ) → IsDigit c → hex_value c ≡ some (c - b'0')
digit_value c h = ground arith

-- At most four digits are coded as two octets, the earlier digit of each pair in the low half, the
-- places after the last digit filled with 1111, and an empty indicator coded as "0"; a longer
-- indicator ends the process.
pub routing_octets_bcd :
    (s : List ℕ)
    → AllDigits s
    → routing_octets s ≡ (
        if ltb 4 (length s)
        then fatal
        else ok (
          stored_routing s,
          (16 * filled (stored_routing s) 1 + filled (stored_routing s) 0)
              ∷ (16 * filled (stored_routing s) 3 + filled (stored_routing s) 2)
              ∷ [],
        ))
unfolding routing_octets stored_routing decode_hex
routing_octets_bcd [] h = refl
routing_octets_bcd (a ∷ []) h = rw (digit_value a h.0)
routing_octets_bcd (a ∷ b ∷ []) h = rw (digit_value a h.0, digit_value b h.1.0)
routing_octets_bcd (a ∷ b ∷ c ∷ []) h =
    rw (digit_value a h.0, digit_value b h.1.0, digit_value c h.1.1.0)
routing_octets_bcd (a ∷ b ∷ c ∷ d ∷ []) h =
    rw (digit_value a h.0, digit_value b h.1.0, digit_value c h.1.1.0, digit_value d h.1.1.1.0)
routing_octets_bcd (a ∷ b ∷ c ∷ d ∷ e ∷ s) h =
    rw (lt→ltb 4 (length (a ∷ b ∷ c ∷ d ∷ e ∷ s)) (omega arith))

-- The serving network name of an operator has 32 bytes, whether its MNC has two digits or three
-- (TS 24.501 9.12.1).
length-derive_snn : (mcc mnc : List ℕ) → IsMcc mcc → IsMnc mnc → length (derive_snn mcc mnc) ≡ 32
unfolding derive_snn
length-derive_snn (d1 ∷ d2 ∷ d3 ∷ []) (e1 ∷ e2 ∷ []) h k = refl
length-derive_snn (d1 ∷ d2 ∷ d3 ∷ []) (e1 ∷ e2 ∷ e3 ∷ []) h k = refl
length-derive_snn _ _ h k = absurd (omega arith)
