-- ===== src/Ue/Authentication/Tests.antt =====
-- A challenge that comes twice.
use packet_rusher.Base.{ℕ, ◌≡◌, refl, List, [], ◌∷◌, ok, replicate}
use packet_rusher.Plmn.Hex.{decode_hex}
use packet_rusher.Ue.Context.{UeContext}
use packet_rusher.Ue.Authentication.{
  AkaResult, successful, derive_res_star_and_set_key, aka, check_sqn, derive_fresh, derivate_kamf,
  xor_into, xor_bits, find_supi, supi_here, leading_digits, bytes_greater,
}
use packet_rusher.Ue.Authentication.Replay.{answer_all, derive-replay}
use packet_rusher.Ue.Samples.{sample_lib, sample_ue}

abbrev rand : List ℕ
rand = replicate 16 8

abbrev answer : AkaResult
answer = successful (replicate 16 7) (replicate 32 7)

abbrev keyed : UeContext
keyed = record sample_ue { security = record (sample_ue.security) { kamf = replicate 32 7 } }

answered_once : derive_res_star_and_set_key sample_lib sample_ue rand rand ≡ ok (keyed, answer)
unfolding derive_res_star_and_set_key aka check_sqn derive_fresh derivate_kamf xor_into xor_bits
    find_supi supi_here leading_digits bytes_greater decode_hex
answered_once = refl

answered_more : answer_all sample_lib keyed ((rand, replicate 16 9) ∷ (rand, rand) ∷ []) ≡ ok keyed
unfolding answer_all derive_res_star_and_set_key aka check_sqn derive_fresh derivate_kamf xor_into
    xor_bits find_supi supi_here leading_digits bytes_greater decode_hex
answered_more = refl

derive-replay_example :
    (ue : UeContext) × (derive_res_star_and_set_key sample_lib keyed rand rand ≡ ok (ue, answer))
derive-replay_example =
    derive-replay sample_lib sample_ue keyed keyed rand rand answer
      ((rand, replicate 16 9) ∷ (rand, rand) ∷ []) answered_once answered_more
