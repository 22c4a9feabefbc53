-- ===== src/Suci/Tests.antt =====
-- Runs of the concealment with a toy library.
use packet_rusher.Base.{
  ℕ, zero, suc, ◌≤◌, ◌≡◌, refl, true, some, List, [], ◌∷◌, ok, panic, arith, codes, replicate,
}
use packet_rusher.Plmn.{swap_pairs}
use packet_rusher.Plmn.Hex.{AllOctets}
use packet_rusher.Plmn.RoundTrip.{AllDigits}
use packet_rusher.Suci.{SuciLib, tbcd, pad_even, strip_filler, profile_a_encrypt, profile_a_decrypt}
use packet_rusher.Suci.RoundTrip.{IsSound, profile_a_round_trip}

tbcd_run : tbcd (codes "00120") ≡ ok (codes "0021F0")
unfolding tbcd swap_pairs pad_even strip_filler
tbcd_run = refl

tbcd_back_run : tbcd (codes "0021f0") ≡ ok (codes "00120")
unfolding tbcd swap_pairs pad_even strip_filler
tbcd_back_run = refl

tbcd_empty_run : tbcd [] ≡ panic
unfolding tbcd
tbcd_empty_run = refl

-- Keys that are all alike, and a cipher that leaves the text.
abbrev sample_lib : SuciLib
sample_lib = record {
  public_key = λ k. replicate 32 7;
  new_public_key = λ octets. true;
  ecdh = λ k peer. some (3 ∷ []);
  sha256 = λ m. replicate 32 1;
  hmac = λ k m. replicate 32 2;
  aes_ctr = λ k iv p. some p;
}

octets_of_one : (n b : ℕ) → b ≤ 255 → AllOctets (replicate n b)
octets_of_one zero b h = tt
octets_of_one (suc n) b h = (h, octets_of_one n b h)

sample_lib-IsSound : IsSound sample_lib
sample_lib-IsSound = record {
  key_length = λ k. refl;
  key_octets = λ k. octets_of_one 32 7 (omega arith);
  is_key = λ k. refl;
  agree = λ a b. refl;
  hash_length = λ m. refl;
  hmac_length = λ k m. refl;
  hmac_octets = λ k m. octets_of_one 32 2 (omega arith);
  ctr = λ k iv p hk hi h. (p, refl, refl, h);
}

msin_digits : AllDigits (codes "120")
msin_digits = (
  (ground arith, ground arith),
  ((ground arith, ground arith), ((ground arith, ground arith), tt)),
)

profile_a_round_trip_example :
    (out : List ℕ) × (profile_a_encrypt sample_lib (codes "120") (sample_lib.public_key 1) 2
      ≡ ok (some out))
    × (profile_a_decrypt sample_lib out (some 1) ≡ ok (some (codes "120")))
profile_a_round_trip_example =
    profile_a_round_trip sample_lib sample_lib-IsSound b'1' (codes "20") msin_digits 1 2 (3 ∷ [])
      refl
