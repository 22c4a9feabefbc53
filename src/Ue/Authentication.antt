-- ===== src/Ue/Authentication.antt =====
-- The authentication of the network by the UE: `DeriveRESstarAndSetKey` and `DerivateKamf` of
-- internal/control_test_engine/ue/context/context.go. The USIM's OPc, K and sequence number are kept
-- as hexadecimal text.
pub mod Replay
mod Tests
use packet_rusher.Base.{
  ℕ, zero, suc, ◌+◌, ◌*◌, ◌/◌, ◌%◌, ◌^◌, Bool, true, false, ◌&&◌, Option, none, some, List, [], ◌∷◌,
  ◌++◌, Outcome, ok, panic, fatal, ◌>>=◌, ◌==◌, ltb, leb, if◌then◌else◌, length, replicate, drop,
  deref, codes, text_eq, take,
}
use packet_rusher.Plmn.Hex.{decode_hex}
use packet_rusher.Ue.Context.{UeContext, Security}
use packet_rusher.Ue.Nas.{NasLib, AkaKeys, Kdf, res_star, kausf, kseaf, kamf}

-- `bytes.Compare(a, b) > 0`.
pub bytes_greater : List ℕ → List ℕ → Bool
bytes_greater [] b = false
bytes_greater (x ∷ a) [] = true
bytes_greater (x ∷ a) (y ∷ b) =
    let rest = bytes_greater a b in if ltb y x then true else if x == y then rest else false

-- `x ^ y` on the lowest `w` bits.
xor_bits : ℕ → ℕ → ℕ → ℕ
xor_bits zero x y = 0
xor_bits (suc w) x y = (x + y) % 2 + 2 * xor_bits w (x / 2) (y / 2)

-- The loop into the array of `n` bytes.
xor_into : ℕ → List ℕ → List ℕ → Outcome (List ℕ)
unfolding xor_bits
xor_into n [] ak = ok (replicate n 0)
xor_into zero (x ∷ sqn) ak = panic
xor_into (suc n) (x ∷ sqn) [] = panic
xor_into (suc n) (x ∷ sqn) (a ∷ ak) = xor_into n sqn ak >>= λ rest. ok (xor_bits 8 x a ∷ rest)

-- At most `n` leading digits.
leading_digits : ℕ → List ℕ → List ℕ
leading_digits zero s = []
leading_digits (suc n) [] = []
leading_digits (suc n) (c ∷ s) =
    let rest = leading_digits n s in if leb 48 c && ltb c 58 then c ∷ rest else []

-- A match of `(?:imsi|supi)-([0-9]{5,15})` at the head.
supi_here : List ℕ → Option (List ℕ)
unfolding leading_digits
supi_here s =
    let digits = leading_digits 15 (drop 5 s) in
    if text_eq (take 5 s) (codes "imsi-")
    then (if ltb 4 (length digits) then some digits else none)
    else if text_eq (take 5 s) (codes "supi-")
    then (if ltb 4 (length digits) then some digits else none)
    else none

-- The leftmost match.
find_supi : List ℕ → Option (List ℕ)
unfolding supi_here
find_supi [] = none
find_supi (c ∷ s) = elim (supi_here (c ∷ s)) [ none ↦ find_supi s | some digits ↦ some digits ]

abbrev pub or_fatal {ℓ} : {A : Type ℓ} → Option A → Outcome A
or_fatal none = fatal
or_fatal (some a) = ok a

abbrev pub valid_hex : List ℕ × Bool → Outcome (List ℕ)
valid_hex (bytes, true) = fatal
valid_hex (bytes, false) = ok bytes

pub data AkaResult : Type 0 where
  mac_failure : AkaResult
  sqn_failure : (auts : List ℕ) → AkaResult
  successful : (res_star kamf : List ℕ) → AkaResult

module _ (lib : NasLib) where
  -- `DerivateKamf`: the new Kamf.
  pub derivate_kamf : Security → (key snn sqn ak : List ℕ) → Outcome (List ℕ)
  unfolding xor_into find_supi
  derivate_kamf s key snn sqn ak = xor_into 6 sqn ak >>= λ sqn_xor_ak.
      or_fatal (lib.kdf key kausf (snn ∷ sqn_xor_ak ∷ [])) >>= λ k_ausf.
      or_fatal (lib.kdf k_ausf kseaf (snn ∷ [])) >>= λ k_seaf.
      deref (find_supi s.supi) >>= λ digits.
      or_fatal (lib.kdf k_seaf kamf (digits ∷ (0 ∷ 0 ∷ []) ∷ []))

  -- The sequence number is fresh: the keys of the new security context.
  pub derive_fresh : Security → List ℕ → AkaKeys → Outcome AkaResult
  unfolding derivate_kamf
  derive_fresh s rand keys =
      let key = keys.ck ++ keys.ik in
      derivate_kamf s key s.snn keys.sqn_hn keys.ak >>= λ k_amf.
      or_fatal (lib.kdf key res_star (s.snn ∷ rand ∷ keys.res ∷ [])) >>= λ value.
      ok (successful (drop (length value / 2) value) k_amf)

  -- The sequence number's freshness.
  pub check_sqn : Security → (opc k sqn rand : List ℕ) → Option AkaKeys → Outcome AkaResult
  unfolding bytes_greater derive_fresh
  check_sqn s opc k sqn rand none = ok mac_failure
  check_sqn s opc k sqn rand (some keys) =
      if bytes_greater sqn keys.sqn_hn
      then (or_fatal (lib.generate_auts opc k rand sqn) >>= λ auts. ok (sqn_failure auts))
      else derive_fresh s rand keys

  pub aka : Security → (rand autn : List ℕ) → Outcome AkaResult
  unfolding check_sqn
  aka s rand autn = valid_hex (decode_hex s.opc) >>= λ opc.
      valid_hex (decode_hex s.permanent_key) >>= λ k.
      valid_hex (decode_hex s.sequence_number) >>= λ sqn.
      check_sqn s opc k sqn rand (lib.keys_with_autn opc k rand autn)

  abbrev pub set_kamf : UeContext → AkaResult → UeContext
  set_kamf ue mac_failure = ue
  set_kamf ue (sqn_failure auts) = ue
  set_kamf ue (successful res k) = record ue { security = record (ue.security) { kamf = k } }

  -- `DeriveRESstarAndSetKey`. The sequence number it updates is that of the copy `authSubs`.
  unfoldable pub derive_res_star_and_set_key :
      UeContext → (rand autn : List ℕ) → Outcome (UeContext × AkaResult)
  unfolding aka
  derive_res_star_and_set_key ue rand autn =
      aka ue.security rand autn >>= λ result. ok (set_kamf ue result, result)
