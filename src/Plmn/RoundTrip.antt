-- ===== src/Plmn/RoundTrip.antt =====
-- The PLMN octets read back by `convertMccMnc`, and the UE's octets beside the gNB's.
use packet_rusher.Base.{
  ℕ, ◌≡◌, refl, sym, ap, ◌*◌, ◌∙◌, ◌⊎◌, inr, ◌↔◌, List, [], ◌∷◌, Outcome, ok, arith, length,
}
use packet_rusher.Plmn.{gnb_plmn_octets, ue_plmn_octets, convert_mcc_mnc}
use packet_rusher.Plmn.Hex.{
  IsDigit, AllHex, decode_hex, encode_hex, length-encode_hex, decode_hex_lower,
}

abbrev pub AllDigits : List ℕ → Type 0
AllDigits [] = Unit {0}
AllDigits (c ∷ s) = IsDigit c × AllDigits s

-- Three decimal digits.
abbrev pub IsMcc : List ℕ → Type 0
IsMcc s = AllDigits s × (length s ≡ 3)

-- Two or three decimal digits.
abbrev pub IsMnc : List ℕ → Type 0
IsMnc s = AllDigits s × ((length s ≡ 2) ⊎ (length s ≡ 3))

-- Octets that were made, are three, and read back as this MCC and this MNC.
abbrev pub ReadsAs : Outcome (List ℕ) → List ℕ → List ℕ → Type 0
ReadsAs octets mcc mnc =
    (bs : List ℕ) × (octets ≡ ok bs)
    × (length bs ≡ 3)
    × (convert_mcc_mnc (encode_hex bs) ≡ ok (mcc, mnc))

-- Six digits are decoded to three octets, and "%x" writes the six digits again.
six_digits :
    (a b c d e f : ℕ)
    → AllHex (a ∷ b ∷ c ∷ d ∷ e ∷ f ∷ [])
    → (bs : List ℕ) × ((decode_hex (a ∷ b ∷ c ∷ d ∷ e ∷ f ∷ [])).0 ≡ bs)
      × (length bs ≡ 3)
      × (encode_hex bs ≡ a ∷ b ∷ c ∷ d ∷ e ∷ f ∷ [])
six_digits a b c d e f h =
    let text : List ℕ = a ∷ b ∷ c ∷ d ∷ e ∷ f ∷ [] in
    let same : encode_hex (decode_hex text).0 ≡ text = (decode_hex_lower text h tt).0 in
    let six : 2 * length (decode_hex text).0 ≡ 6 =
      sym (length-encode_hex (decode_hex text).0) ∙ ap length same in
    ((decode_hex text).0, refl, omega arith, same)

-- The octets that the gNB writes for its own MCC and MNC are read back as these.
pub gnb_plmn_octets-ReadsAs :
    (mcc mnc : List ℕ) → IsMcc mcc → IsMnc mnc → ReadsAs (gnb_plmn_octets mcc mnc) mcc mnc
unfolding gnb_plmn_octets convert_mcc_mnc
gnb_plmn_octets-ReadsAs (d1 ∷ d2 ∷ d3 ∷ []) (e1 ∷ e2 ∷ []) h k =
    let (bs, made, three, text) = six_digits d2 d1 b'f' d3 e2 e1 (omega arith) in
    (bs, ap ok made, three, rw text refl)
gnb_plmn_octets-ReadsAs (d1 ∷ d2 ∷ d3 ∷ []) (e1 ∷ e2 ∷ e3 ∷ []) h k =
    let (bs, made, three, text) = six_digits d2 d1 e1 d3 e3 e2 (omega arith) in
    (bs, ap ok made, three, rw text (ground arith))
gnb_plmn_octets-ReadsAs _ _ h k = absurd (omega arith)

-- The octets that the UE writes for an MCC and an MNC of two digits are read back as these.
pub ue_plmn_octets-ReadsAs :
    (mcc mnc : List ℕ)
    → IsMcc mcc
    → AllDigits mnc
    → length mnc ≡ 2
    → ReadsAs (ue_plmn_octets mcc mnc) mcc mnc
unfolding ue_plmn_octets convert_mcc_mnc
ue_plmn_octets-ReadsAs (d1 ∷ d2 ∷ d3 ∷ []) (e1 ∷ e2 ∷ []) h k two =
    let (bs, made, three, text) = six_digits d2 d1 b'f' d3 e2 e1 (omega arith) in
    (bs, ap ok made, three, rw text refl)
ue_plmn_octets-ReadsAs _ _ h k two = absurd (omega arith)

-- The octets that the UE writes for an MNC of three digits are read back as an MNC whose last digit
-- has moved to the front.
pub ue_plmn_octets_three_digits :
    (mcc : List ℕ) (e1 e2 e3 : ℕ)
    → IsMcc mcc
    → AllDigits (e1 ∷ e2 ∷ e3 ∷ [])
    → ReadsAs (ue_plmn_octets mcc (e1 ∷ e2 ∷ e3 ∷ [])) mcc (e3 ∷ e1 ∷ e2 ∷ [])
unfolding ue_plmn_octets convert_mcc_mnc
ue_plmn_octets_three_digits (d1 ∷ d2 ∷ d3 ∷ []) e1 e2 e3 h k =
    let (bs, made, three, text) = six_digits d2 d1 e3 d3 e2 e1 (omega arith) in
    (bs, ap ok made, three, rw text (ground arith))
ue_plmn_octets_three_digits _ e1 e2 e3 h k = absurd (omega arith)

reads_inj :
    {o o' : Outcome (List ℕ)} {mcc mnc mcc' mnc' : List ℕ}
    → ReadsAs o mcc mnc
    → ReadsAs o' mcc' mnc'
    → o ≡ o'
    → mnc ≡ mnc'
reads_inj (bs, made, _, read) (bs', made', _, read') e =
    let same : bs ≡ bs' = cc in cc (ap (λ (b : List ℕ). convert_mcc_mnc (encode_hex b)) same)

same_digits :
    (mcc : List ℕ) (e1 e2 e3 : ℕ)
    → IsMcc mcc
    → (e1 ≡ e2) × (e2 ≡ e3)
    → gnb_plmn_octets mcc (e1 ∷ e2 ∷ e3 ∷ []) ≡ ue_plmn_octets mcc (e1 ∷ e2 ∷ e3 ∷ [])
unfolding gnb_plmn_octets ue_plmn_octets
same_digits (d1 ∷ d2 ∷ d3 ∷ []) e1 e2 e3 h (p, q) = rw (p, q) refl
same_digits _ e1 e2 e3 h e = absurd (omega arith)

-- The two sides write the same octets for a three-digit MNC exactly when its digits are all equal.
pub plmn_octets_agree_iff :
    (mcc : List ℕ) (e1 e2 e3 : ℕ)
    → IsMcc mcc
    → AllDigits (e1 ∷ e2 ∷ e3 ∷ [])
    → (gnb_plmn_octets mcc (e1 ∷ e2 ∷ e3 ∷ []) ≡ ue_plmn_octets mcc (e1 ∷ e2 ∷ e3 ∷ []))
      ↔ ((e1 ≡ e2) × (e2 ≡ e3))
plmn_octets_agree_iff mcc e1 e2 e3 h k = (
  λ e.
      let same : ◌≡◌ {A = List ℕ} (e1 ∷ e2 ∷ e3 ∷ []) (e3 ∷ e1 ∷ e2 ∷ []) =
        reads_inj (gnb_plmn_octets-ReadsAs mcc (e1 ∷ e2 ∷ e3 ∷ []) h (k, inr refl))
          (ue_plmn_octets_three_digits mcc e1 e2 e3 h k) e in
      (cc, cc),
  λ e. same_digits mcc e1 e2 e3 h e,
)
