-- ===== src/Plmn/Hex.antt =====
-- Go's encoding/hex and the "%x" of fmt, as the source uses them.
use packet_rusher.Base.{
  ℕ, ◌+◌, ◌-◌, ◌*◌, ◌/◌, ◌%◌, ◌≤◌, ◌≡◌, refl, ap, ◌⊎◌, inl, inr, Bool, true, false, ◌&&◌, Option,
  none, some, List, [], ◌∷◌, arith, leb, ltb, if◌then◌else◌, length,
}

-- The value of a hexadecimal digit, of either case.
abbrev pub hex_value : ℕ → Option ℕ
hex_value c =
    if leb b'0' c && leb c b'9'
    then some (c - b'0')
    else (if leb b'a' c && leb c b'f'
        then some (c - b'a' + 10)
        else (if leb b'A' c && leb c b'F' then some (c - b'A' + 10) else none))

-- One byte of `DecodeString`, put before what the rest gives.
abbrev pub decode_byte : Option ℕ → Option ℕ → List ℕ × Bool → List ℕ × Bool
decode_byte (some a) (some b) (bs, failed) = ((16 * a + b) ∷ bs, failed)
decode_byte (some a) none rest = ([], true)
decode_byte none b rest = ([], true)

-- The bytes decoded before an error, and whether there was one.
unfoldable pub decode_hex : List ℕ → List ℕ × Bool
decode_hex [] = ([], false)
decode_hex (c ∷ []) = ([], true)
decode_hex (c ∷ d ∷ s) = decode_byte (hex_value c) (hex_value d) (decode_hex s)

abbrev pub hex_digit : ℕ → ℕ
hex_digit v = if ltb v 10 then b'0' + v else b'a' + (v - 10)

unfoldable pub encode_hex : List ℕ → List ℕ
encode_hex [] = []
encode_hex (b ∷ bs) = hex_digit (b / 16) ∷ hex_digit (b % 16) ∷ encode_hex bs

abbrev pub IsDigit : ℕ → Type 0
IsDigit c = (b'0' ≤ c) × (c ≤ b'9')

-- A digit as "%x" writes it: decimal, or a lower-case letter.
abbrev pub IsHex : ℕ → Type 0
IsHex c = IsDigit c ⊎ ((b'a' ≤ c) × (c ≤ b'f'))

abbrev pub AllHex : List ℕ → Type 0
AllHex [] = Unit {0}
AllHex (c ∷ s) = IsHex c × AllHex s

abbrev pub IsEven : List ℕ → Type 0
IsEven [] = Unit {0}
IsEven (c ∷ []) = ⊥
IsEven (c ∷ d ∷ s) = IsEven s

pub hex_value-IsHex :
    (c : ℕ) → IsHex c → (v : ℕ) × (hex_value c ≡ some v) × (v ≤ 15) × (hex_digit v ≡ c)
hex_value-IsHex c (inl h) = (c - 48, ground arith, ground arith, ground arith)
hex_value-IsHex c (inr h) = (c - 87, ground arith, ground arith, ground arith)

pub length-encode_hex : (bs : List ℕ) → length (encode_hex bs) ≡ 2 * length bs
unfolding encode_hex
length-encode_hex [] = refl
length-encode_hex (b ∷ bs) = omega (arith, length-encode_hex bs)

high_nibble : (v w : ℕ) → w ≤ 15 → (16 * v + w) / 16 ≡ v
high_nibble v w h = omega arith

low_nibble : (v w : ℕ) → w ≤ 15 → (16 * v + w) % 16 ≡ w
low_nibble v w h = omega arith

-- Lower-case digits, two by two, are decoded without an error, and "%x" writes them back.
pub decode_hex_lower :
    (s : List ℕ)
    → AllHex s
    → IsEven s
    → (encode_hex (decode_hex s).0 ≡ s) × ((decode_hex s).1 ≡ false)
unfolding decode_hex encode_hex
decode_hex_lower [] h e = (refl, refl)
decode_hex_lower (c ∷ []) h e = absurd e
decode_hex_lower (c ∷ d ∷ s) h e =
    let (v, hv, vb, vd) = hex_value-IsHex c h.0 in
    let (w, hw, wb, wd) = hex_value-IsHex d h.1.0 in
    let (ih, ok) = decode_hex_lower s h.1.1 e in
    rw (hv, hw)
      (cc (ap hex_digit (high_nibble v w wb), ap hex_digit (low_nibble v w wb), vd, wd, ih), ok)

-- Every element is a byte.
abbrev pub AllOctets : List ℕ → Type 0
AllOctets [] = Unit {0}
AllOctets (b ∷ bs) = (b ≤ 255) × AllOctets bs

pub decode_hex-AllOctets : (s : List ℕ) → AllHex s → IsEven s → AllOctets (decode_hex s).0
unfolding decode_hex
decode_hex-AllOctets [] h e = tt
decode_hex-AllOctets (c ∷ []) h e = absurd e
decode_hex-AllOctets (c ∷ d ∷ s) h e =
    let (v, hv, vb, vd) = hex_value-IsHex c h.0 in
    let (w, hw, wb, wd) = hex_value-IsHex d h.1.0 in
    rw (hv, hw) (omega arith, decode_hex-AllOctets s h.1.1 e)

hex_value-hex_digit : (v : ℕ) → v ≤ 15 → hex_value (hex_digit v) ≡ some v
hex_value-hex_digit v h = ground arith

-- "%x" of bytes is decoded to the bytes.
pub decode_hex-encode_hex : (bs : List ℕ) → AllOctets bs → decode_hex (encode_hex bs) ≡ (bs, false)
unfolding decode_hex encode_hex
decode_hex-encode_hex [] h = refl
decode_hex-encode_hex (b ∷ bs) h =
    let high = hex_value-hex_digit (b / 16) (omega (arith, h.0)) in
    let low = hex_value-hex_digit (b % 16) (omega (arith, h.0)) in
    let whole : 16 * (b / 16) + b % 16 ≡ b = omega arith in
    rw (high, low, decode_hex-encode_hex bs h.1) (ap (λ x. (x ∷ bs, false)) whole)
