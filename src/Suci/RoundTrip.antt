-- ===== src/Suci/RoundTrip.antt =====
-- What `profileAEncrypt` makes of an MSIN, `profileADecrypt` reads with the private key of the home
-- network: internal/common/sidf/suci_concealment.go against suci_deconcealing.go.
use packet_rusher.Base.{
  put_uint32, ℕ, zero, suc, ◌*◌, ◌+◌, ◌-◌, ◌≡◌, refl, ap, ◌∙◌, true, false, Option, some, List, ◌∷◌,
  ◌++◌, ok, arith, length, length-append, length-take, length-drop, take, drop, append_assoc, ltb,
  text_eq_refl,
}
use packet_rusher.Plmn.Hex.{encode_hex, AllOctets, decode_hex-encode_hex}
use packet_rusher.Plmn.RoundTrip.{AllDigits}
use packet_rusher.Suci.{
  SuciLib, tbcd, decode_string, kdf_rounds, ansi_x963_kdf, derive_keys, hmac_sha256,
  profile_a_encrypt, decrypt_with_kdf, ecdh_x25519, profile_a_open, profile_a_read,
  profile_a_decrypt,
}
use packet_rusher.Suci.Octets.{AllOctets-append, AllOctets-take, take-append, drop-append}
use packet_rusher.Suci.Tbcd.{tbcd-tbcd}

-- What the packages document: the sizes of keys, hashes and MACs; a key's octets are a key; both sides
-- of a Diffie-Hellman exchange agree; AES in counter mode takes keys and counters of 16 octets, and
-- undoes itself.
pub record IsSound (lib : SuciLib) : Type 0 where
  pub key_length : (k : ℕ) → length (lib.public_key k) ≡ 32
  pub key_octets : (k : ℕ) → AllOctets (lib.public_key k)
  pub is_key : (k : ℕ) → lib.new_public_key (lib.public_key k) ≡ true
  pub agree : (a b : ℕ) → lib.ecdh a (lib.public_key b) ≡ lib.ecdh b (lib.public_key a)
  pub hash_length : (m : List ℕ) → length (lib.sha256 m) ≡ 32
  pub hmac_length : (k m : List ℕ) → length (lib.hmac k m) ≡ 32
  pub hmac_octets : (k m : List ℕ) → AllOctets (lib.hmac k m)
  pub ctr :
      (k iv p : List ℕ)
      → length k ≡ 16
      → length iv ≡ 16
      → AllOctets p
      → (c : List ℕ) × (lib.aes_ctr k iv p ≡ some c) × (lib.aes_ctr k iv c ≡ some p) × AllOctets c

length-kdf_rounds :
    (lib : SuciLib)
    → IsSound lib
    → (left counter : ℕ) (shared public : List ℕ)
    → length (kdf_rounds lib left counter shared public) ≡ 32 * left
unfolding kdf_rounds
length-kdf_rounds lib sound zero counter shared public = refl
length-kdf_rounds lib sound (suc left) counter shared public =
    let block = shared ++ put_uint32 counter ++ public in
    let rest = kdf_rounds lib left (counter + 1) shared public in
    omega (
      arith,
      length-append (lib.sha256 block) rest,
      sound.hash_length block,
      length-kdf_rounds lib sound left (counter + 1) shared public,
    )

length-ansi_x963_kdf :
    (lib : SuciLib)
    → IsSound lib
    → (shared public : List ℕ) → length (ansi_x963_kdf lib shared public) ≡ 64
unfolding ansi_x963_kdf
length-ansi_x963_kdf lib sound shared public = length-kdf_rounds lib sound 2 1 shared public

length-enc_key :
    (lib : SuciLib)
    → IsSound lib
    → (shared public : List ℕ) → length (derive_keys lib shared public).enc_key ≡ 16
unfolding derive_keys
length-enc_key lib sound shared public =
    length-take 16 (ansi_x963_kdf lib shared public)
    ∙ rw (length-ansi_x963_kdf lib sound shared public) refl

length-iv :
    (lib : SuciLib)
    → IsSound lib
    → (shared public : List ℕ) → length (derive_keys lib shared public).iv ≡ 16
unfolding derive_keys
length-iv lib sound shared public =
    length-take 16 (drop 16 (ansi_x963_kdf lib shared public))
    ∙ rw
        (
          length-drop 16 (ansi_x963_kdf lib shared public),
          length-ansi_x963_kdf lib sound shared public,
        )
        refl

-- The input is taken apart where it was put together.
profile_a_read-parts :
    (lib : SuciLib) (peer cipher mac : List ℕ) (key : Option ℕ)
    → length peer ≡ 32
    → length mac ≡ 8
    → profile_a_read lib ((peer ++ cipher) ++ mac) key ≡ profile_a_open lib peer cipher mac key
unfolding profile_a_read
profile_a_read-parts lib peer cipher mac key hp hm =
    let s = (peer ++ cipher) ++ mac in
    let flat : s ≡ peer ++ (cipher ++ mac) = append_assoc peer cipher mac in
    let rest : drop 32 s ≡ cipher ++ mac =
      ap (λ x. drop 32 x) flat ∙ drop-append 32 peer (cipher ++ mac) hp in
    let first : take 32 s ≡ peer =
      ap (λ x. take 32 x) flat ∙ take-append 32 peer (cipher ++ mac) hp in
    let all : length s ≡ 32 + length cipher + 8 =
      length-append (peer ++ cipher) mac ∙ rw (length-append peer cipher, hp, hm) refl in
    let long : ltb (length s) 40 ≡ false = ground arith in
    let where_mac : length (drop 32 s) - 8 ≡ length cipher =
      ap (λ x. length x - 8) rest ∙ rw (length-append cipher mac, hm) (omega arith) in
    let text : take (length (drop 32 s) - 8) (drop 32 s) ≡ cipher =
      rw (where_mac, rest) (take-append (length cipher) cipher mac refl) in
    let last : drop (length (drop 32 s) - 8) (drop 32 s) ≡ mac =
      rw (where_mac, rest) (drop-append (length cipher) cipher mac refl) in
    rw (long, first, text, last) refl

-- Octets that were encrypted for a key of the other side are decrypted with it.
decrypt_with_kdf-ctr :
    (lib : SuciLib) (sound : IsSound lib) (shared public plain cipher : List ℕ)
    → lib.aes_ctr (derive_keys lib shared public).enc_key (derive_keys lib shared public).iv cipher
      ≡ some plain
    → decrypt_with_kdf lib shared public cipher
        (hmac_sha256 lib cipher (derive_keys lib shared public).mac_key)
      ≡ some plain
unfolding decrypt_with_kdf
decrypt_with_kdf-ctr lib sound shared public plain cipher h =
    rw (text_eq_refl (take 8 (lib.hmac (derive_keys lib shared public).mac_key cipher))) h

decode_string-encode_hex : (bs : List ℕ) → AllOctets bs → decode_string (encode_hex bs) ≡ some bs
unfolding decode_string
decode_string-encode_hex bs h = rw (decode_hex-encode_hex bs h) refl

profile_a_encrypted :
    (lib : SuciLib) (msin hn text plain cipher shared : List ℕ) (ephemeral : ℕ)
    → lib.ecdh ephemeral hn ≡ some shared
    → tbcd msin ≡ ok text
    → decode_string text ≡ some plain
    → lib.aes_ctr
        (derive_keys lib shared (lib.public_key ephemeral)).enc_key
        (derive_keys lib shared (lib.public_key ephemeral)).iv
        plain
      ≡ some cipher
    → profile_a_encrypt lib msin hn ephemeral
      ≡ ok (
          some (
            encode_hex (
              (lib.public_key ephemeral ++ cipher)
              ++ hmac_sha256 lib cipher
                  (derive_keys lib shared (lib.public_key ephemeral)).mac_key)))
unfolding profile_a_encrypt
profile_a_encrypted lib msin hn text plain cipher shared ephemeral agreed packed decoded sealed =
    rw (agreed, packed, decoded, sealed) refl

ecdh_x25519-agree :
    (lib : SuciLib)
    → IsSound lib
    → (hn ephemeral : ℕ)
    → ecdh_x25519 lib (some hn) (lib.public_key ephemeral) ≡ lib.ecdh ephemeral (lib.public_key hn)
unfolding ecdh_x25519
ecdh_x25519-agree lib sound hn ephemeral = rw (sound.is_key ephemeral) (sound.agree hn ephemeral)

profile_a_opened :
    (lib : SuciLib) (peer cipher mac shared plain msin : List ℕ) (key : Option ℕ)
    → ecdh_x25519 lib key peer ≡ some shared
    → decrypt_with_kdf lib shared peer cipher mac ≡ some plain
    → tbcd (encode_hex plain) ≡ ok msin
    → profile_a_open lib peer cipher mac key ≡ ok (some msin)
unfolding profile_a_open
profile_a_opened lib peer cipher mac shared plain msin key agreed opened back =
    rw (agreed, opened, back) refl

profile_a_decrypted :
    (lib : SuciLib) (s : List ℕ) (key : Option ℕ)
    → AllOctets s
    → profile_a_decrypt lib (encode_hex s) key ≡ profile_a_read lib s key
unfolding profile_a_decrypt
profile_a_decrypted lib s key h = rw (decode_string-encode_hex s h) refl

-- For a library of cryptography that keeps its documentation, an MSIN of decimal digits, at least one,
-- a key pair of the home network, and an ephemeral key that has a shared key with it: `profileAEncrypt`
-- gives an output, and `profileADecrypt` reads the MSIN in it with the private key.
pub profile_a_round_trip :
    (lib : SuciLib) (sound : IsSound lib) (c : ℕ) (s : List ℕ)
    → AllDigits (c ∷ s)
    → (hn ephemeral : ℕ) (shared : List ℕ) → lib.ecdh ephemeral (lib.public_key hn) ≡ some shared
    → (out : List ℕ) × (profile_a_encrypt lib (c ∷ s) (lib.public_key hn) ephemeral ≡ ok (some out))
      × (profile_a_decrypt lib out (some hn) ≡ ok (some (c ∷ s)))
profile_a_round_trip lib sound c s digits hn ephemeral shared agreed =
    let public = lib.public_key ephemeral in
    let keys = derive_keys lib shared public in
    let (text, plain, packed, decoded, back, octets) = tbcd-tbcd c s digits in
    let (cipher, sealed, opened, cipher_octets) =
      sound.ctr keys.enc_key keys.iv plain (length-enc_key lib sound shared public)
        (length-iv lib sound shared public) octets in
    let mac = hmac_sha256 lib cipher keys.mac_key in
    let mac_length : length mac ≡ 8 =
      length-take 8 (lib.hmac keys.mac_key cipher)
      ∙ rw (sound.hmac_length keys.mac_key cipher) refl in
    let all = (public ++ cipher) ++ mac in
    let all_octets : AllOctets all =
      AllOctets-append (public ++ cipher) mac
        (AllOctets-append public cipher (sound.key_octets ephemeral) cipher_octets)
        (AllOctets-take 8 (lib.hmac keys.mac_key cipher) (sound.hmac_octets keys.mac_key cipher)) in
    (
      encode_hex all,
      profile_a_encrypted lib (c ∷ s) (lib.public_key hn) text plain cipher shared ephemeral agreed
          packed decoded sealed,
      profile_a_decrypted lib all (some hn) all_octets
          ∙ profile_a_read-parts lib public cipher mac (some hn) (sound.key_length ephemeral)
              mac_length
          ∙ profile_a_opened lib public cipher mac shared plain (c ∷ s) (some hn)
              (ecdh_x25519-agree lib sound hn ephemeral ∙ agreed)
              (decrypt_with_kdf-ctr lib sound shared public plain cipher opened) back,
    )
