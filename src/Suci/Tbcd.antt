-- ===== src/Suci/Tbcd.antt =====
-- `Tbcd` of internal/common/sidf/suci_deconcealing.go, and back.
use packet_rusher.Base.{
  ℕ, ◌≡◌, refl, sym, subst, inl, inr, ap, ◌∙◌, false, some, List, [], ◌∷◌, ok, arith,
}
use packet_rusher.Plmn.{swap_pairs}
use packet_rusher.Plmn.Hex.{
  decode_hex, encode_hex, decode_hex_lower, decode_hex-AllOctets, AllOctets, decode_byte, hex_value,
  IsDigit, AllHex, IsEven,
}
use packet_rusher.Plmn.RoundTrip.{AllDigits}
use packet_rusher.Suci.{pad_even, strip_filler, tbcd, decode_string}

-- What "%x" writes of the padded text.
abbrev pad_lower : List ℕ → List ℕ
pad_lower [] = []
pad_lower (c ∷ []) = c ∷ b'f' ∷ []
pad_lower (c ∷ d ∷ s) = c ∷ d ∷ pad_lower s

-- A text that begins and ends with a digit keeps its end.
strip-digit : (c : ℕ) → IsDigit c → strip_filler (c ∷ []) ≡ c ∷ []
unfolding strip_filler
strip-digit c h = ground arith

strip_filler-pad_lower : (s : List ℕ) → AllDigits s → strip_filler (pad_lower s) ≡ s
unfolding strip_filler
strip_filler-pad_lower [] h = refl
strip_filler-pad_lower (c ∷ []) h = refl
strip_filler-pad_lower (c ∷ d ∷ []) h = ap (λ r. c ∷ r) (strip-digit d h.1.0)
strip_filler-pad_lower (c ∷ d ∷ e ∷ []) h = refl
strip_filler-pad_lower (c ∷ d ∷ e ∷ f ∷ s) h =
    ap (λ r. c ∷ d ∷ r) (strip_filler-pad_lower (e ∷ f ∷ s) h.1.1)

strip_filler-swap_pairs :
    (s : List ℕ) → AllDigits s → strip_filler (swap_pairs (pad_even s)) ≡ swap_pairs (pad_even s)
unfolding strip_filler swap_pairs pad_even
strip_filler-swap_pairs [] h = refl
strip_filler-swap_pairs (c ∷ []) h = ap (λ r. b'F' ∷ r) (strip-digit c h.0)
strip_filler-swap_pairs (c ∷ d ∷ []) h = ap (λ r. d ∷ r) (strip-digit c h.0)
strip_filler-swap_pairs (c ∷ d ∷ e ∷ []) h =
    ap (λ r. d ∷ c ∷ r) (strip_filler-swap_pairs (e ∷ []) h.1.1)
strip_filler-swap_pairs (c ∷ d ∷ e ∷ f ∷ s) h =
    ap (λ r. d ∷ c ∷ r) (strip_filler-swap_pairs (e ∷ f ∷ s) h.1.1)

-- The case of the filler makes no difference to the octets.
decode_hex-pad :
    (s : List ℕ) → decode_hex (swap_pairs (pad_even s)) ≡ decode_hex (swap_pairs (pad_lower s))
unfolding decode_hex swap_pairs pad_even
decode_hex-pad [] = refl
decode_hex-pad (c ∷ []) = refl
decode_hex-pad (c ∷ d ∷ s) = ap (λ r. decode_byte (hex_value d) (hex_value c) r) (decode_hex-pad s)

swapped-AllHex : (s : List ℕ) → AllDigits s → AllHex (swap_pairs (pad_lower s))
unfolding swap_pairs
swapped-AllHex [] h = tt
swapped-AllHex (c ∷ []) h = (inr (ground arith, ground arith), (inl h.0, tt))
swapped-AllHex (c ∷ d ∷ s) h = (inl h.1.0, (inl h.0, swapped-AllHex s h.1.1))

swapped-IsEven : (s : List ℕ) → IsEven (swap_pairs (pad_lower s))
unfolding swap_pairs
swapped-IsEven [] = tt
swapped-IsEven (c ∷ []) = tt
swapped-IsEven (c ∷ d ∷ s) = swapped-IsEven s

swap_pairs-swap_pairs :
    (s : List ℕ) → swap_pairs (pad_even (swap_pairs (pad_lower s))) ≡ pad_lower s
unfolding swap_pairs pad_even
swap_pairs-swap_pairs [] = refl
swap_pairs-swap_pairs (c ∷ []) = refl
swap_pairs-swap_pairs (c ∷ d ∷ s) = ap (λ r. c ∷ d ∷ r) (swap_pairs-swap_pairs s)

tbcd-lower :
    (c : ℕ) (s : List ℕ) → AllDigits (c ∷ s) → tbcd (swap_pairs (pad_lower (c ∷ s))) ≡ ok (c ∷ s)
unfolding tbcd swap_pairs
tbcd-lower c [] h =
    ap (λ r. ok (strip_filler r)) (swap_pairs-swap_pairs (c ∷ []))
    ∙ ap (λ r. ok r) (strip_filler-pad_lower (c ∷ []) h)
tbcd-lower c (d ∷ s) h =
    ap (λ r. ok (strip_filler r)) (swap_pairs-swap_pairs (c ∷ d ∷ s))
    ∙ ap (λ r. ok r) (strip_filler-pad_lower (c ∷ d ∷ s) h)

-- Decimal digits, packed into octets and written back, are the same digits.
pub tbcd-tbcd :
    (c : ℕ) (s : List ℕ)
    → AllDigits (c ∷ s)
    → (text : List ℕ) × (octets : List ℕ) × (tbcd (c ∷ s) ≡ ok text)
      × (decode_string text ≡ some octets)
      × (tbcd (encode_hex octets) ≡ ok (c ∷ s))
      × AllOctets octets
unfolding tbcd decode_string
tbcd-tbcd c s h =
    let text = swap_pairs (pad_even (c ∷ s)) in
    let lower = swap_pairs (pad_lower (c ∷ s)) in
    let (written, whole) =
      decode_hex_lower lower (swapped-AllHex (c ∷ s) h) (swapped-IsEven (c ∷ s)) in
    let same = decode_hex-pad (c ∷ s) in
    let no_error : (decode_hex text).1 ≡ false = ap (λ r. r.1) same ∙ whole in
    let back : encode_hex (decode_hex text).0 ≡ lower = ap (λ r. encode_hex r.0) same ∙ written in
    (
      text,
      (decode_hex text).0,
      ap (λ r. ok r) (strip_filler-swap_pairs (c ∷ s) h),
      rw no_error refl,
      ap (λ r. tbcd r) back ∙ tbcd-lower c s h,
      subst (λ r. AllOctets r.0) (sym same)
          (decode_hex-AllOctets lower (swapped-AllHex (c ∷ s) h) (swapped-IsEven (c ∷ s))),
    )
