-- ===== src/Suci.antt =====
-- The concealment of a subscriber's identity by profile A, and its inverse: internal/common/sidf. A text is a list
-- of bytes. An error is `none`; `panic` is an index out of range. Keys of crypto/ecdh are known by
-- their octets, a private key by its address.
pub mod Octets
pub mod Tbcd
pub mod RoundTrip
mod Tests
use packet_rusher.Base.{
  put_uint32, ℕ, zero, suc, ◌+◌, ◌-◌, ◌*◌, Bool, true, false, ◌||◌, Option, none, some, List, [],
  ◌∷◌, ◌++◌, Outcome, ok, panic, ◌>>=◌, ◌==◌, if◌then◌else◌, ltb, length, take, drop, text_eq,
}
use packet_rusher.Plmn.{swap_pairs}
use packet_rusher.Plmn.Hex.{decode_hex, encode_hex}

-- What the source uses of crypto/ecdh, crypto/sha256, crypto/hmac and crypto/aes: on X25519, the octets
-- of a key's public key, whether `NewPublicKey` takes octets, and `ECDH`; `aes_ctr` is `NewCipher`,
-- `NewCTR` and `XORKeyStream`.
pub record SuciLib : Type 0 where
  pub public_key : ℕ → List ℕ
  pub new_public_key : List ℕ → Bool
  pub ecdh : ℕ → List ℕ → Option (List ℕ)
  pub sha256 : List ℕ → List ℕ
  pub hmac : (key message : List ℕ) → List ℕ
  pub aes_ctr : (key iv input : List ℕ) → Option (List ℕ)

-- 'F' makes the length even.
unfoldable pub pad_even : List ℕ → List ℕ
pad_even [] = []
pad_even (c ∷ []) = c ∷ b'F' ∷ []
pad_even (c ∷ d ∷ s) = c ∷ d ∷ pad_even s

unfoldable pub strip_filler : List ℕ → List ℕ
strip_filler [] = []
strip_filler (c ∷ []) = if c == b'F' || c == b'f' then [] else c ∷ []
strip_filler (c ∷ d ∷ s) = c ∷ strip_filler (d ∷ s)

-- The last byte of an empty text is out of range.
unfoldable pub tbcd : List ℕ → Outcome (List ℕ)
unfolding pad_even strip_filler
tbcd [] = panic
tbcd (c ∷ s) = ok (strip_filler (swap_pairs (pad_even (c ∷ s))))

-- An error ends the function.
infixl 5 ◌>>?◌
abbrev pub ◌>>?◌ :
    {A B : Type 0} → Outcome (Option A) → (A → Outcome (Option B)) → Outcome (Option B)
run >>? next = run >>= λ r. elim r [ none ↦ ok none | some a ↦ next a ]

-- `hex.DecodeString`, with its error.
unfoldable pub decode_string : List ℕ → Option (List ℕ)
decode_string text = let (octets, failed) = decode_hex text in if failed then none else some octets

abbrev pub enc_key_len : ℕ
enc_key_len = 16

abbrev pub mac_key_len : ℕ
mac_key_len = 32

abbrev pub icb_len : ℕ
icb_len = 16

abbrev pub mac_len : ℕ
mac_len = 8

abbrev pub profile_a_pub_key_len : ℕ
profile_a_pub_key_len = 32

-- The same lengths in both profiles.
pub record KdfKeys : Type 0 where
  pub enc_key : List ℕ
  pub iv : List ℕ
  pub mac_key : List ℕ

module _ (lib : SuciLib) where
  -- `AnsiX963KDF`, whose rounds are left.
  unfoldable pub kdf_rounds : (left counter : ℕ) → (shared public : List ℕ) → List ℕ
  kdf_rounds zero counter shared public = []
  kdf_rounds (suc left) counter shared public =
      lib.sha256 (shared ++ put_uint32 counter ++ public)
      ++ kdf_rounds left (counter + 1) shared public

  -- Two rounds give the 48 octets, of 32 each.
  unfoldable pub ansi_x963_kdf : (shared public : List ℕ) → List ℕ
  unfolding kdf_rounds
  ansi_x963_kdf shared public = kdf_rounds 2 1 shared public

  unfoldable pub derive_keys : (shared public : List ℕ) → KdfKeys
  unfolding ansi_x963_kdf
  derive_keys shared public =
      let kdf_key = ansi_x963_kdf shared public in
      record {
        enc_key = take enc_key_len kdf_key;
        iv = take icb_len (drop enc_key_len kdf_key);
        mac_key = drop (length kdf_key - mac_key_len) kdf_key;
      }

  abbrev pub hmac_sha256 : (input key : List ℕ) → List ℕ
  hmac_sha256 input key = take mac_len (lib.hmac key input)

  -- The ephemeral private key is the one that `GenerateKey` gave.
  unfoldable pub profile_a_encrypt :
      (msin hn_pubkey : List ℕ) → (ephemeral : ℕ) → Outcome (Option (List ℕ))
  unfolding tbcd decode_string derive_keys
  profile_a_encrypt msin hn_pubkey ephemeral =
      let ephemeral_pub = lib.public_key ephemeral in
      ok (lib.ecdh ephemeral hn_pubkey) >>? λ shared.
      (tbcd msin >>= λ text. ok (decode_string text)) >>? λ plain.
      let keys = derive_keys shared ephemeral_pub in
      ok (lib.aes_ctr keys.enc_key keys.iv plain) >>? λ cipher.
      ok (some (encode_hex ((ephemeral_pub ++ cipher) ++ hmac_sha256 cipher keys.mac_key)))

  unfoldable pub decrypt_with_kdf : (shared public cipher provided : List ℕ) → Option (List ℕ)
  unfolding derive_keys
  decrypt_with_kdf shared public cipher provided =
      let keys = derive_keys shared public in
      if text_eq (hmac_sha256 cipher keys.mac_key) provided
      then lib.aes_ctr keys.enc_key keys.iv cipher
      else none

  -- A nil private key is an error.
  unfoldable pub ecdh_x25519 : Option ℕ → (peer : List ℕ) → Option (List ℕ)
  ecdh_x25519 none peer = none
  ecdh_x25519 (some private_key) peer =
      if lib.new_public_key peer then lib.ecdh private_key peer else none

  -- The parts of the input: the peer's key, the text and its MAC.
  unfoldable pub profile_a_open :
      (peer cipher provided : List ℕ) → Option ℕ → Outcome (Option (List ℕ))
  unfolding tbcd decrypt_with_kdf ecdh_x25519
  profile_a_open peer cipher provided private_key = ok (ecdh_x25519 private_key peer) >>? λ shared.
      ok (decrypt_with_kdf shared peer cipher provided) >>? λ plain.
      tbcd (encode_hex plain) >>= λ msin. ok (some msin)

  unfoldable pub profile_a_read : (octets : List ℕ) → Option ℕ → Outcome (Option (List ℕ))
  profile_a_read s private_key =
      if ltb (length s) (profile_a_pub_key_len + mac_len)
      then ok none
      else (let rest = drop profile_a_pub_key_len s in
          profile_a_open (take profile_a_pub_key_len s) (take (length rest - mac_len) rest)
            (drop (length rest - mac_len) rest) private_key)

  unfoldable pub profile_a_decrypt : (input : List ℕ) → Option ℕ → Outcome (Option (List ℕ))
  unfolding profile_a_read decode_string
  profile_a_decrypt input private_key =
      ok (decode_string input) >>? λ s. profile_a_read s private_key
