-- ===== src/Ue/Samples.antt =====
-- A UE, and a library of simple functions, for the tests.
use packet_rusher.Base.{◌+◌, ◌*◌, ◌/◌, ◌%◌, false, none, some, [], ◌∷◌, codes, replicate, get_or}
use packet_rusher.Ue.Context.{UeContext, Security, mm_idle, new_session}
use packet_rusher.Ue.Nas.{NasLib, AkaKeys, authentication_reject}

abbrev pub sample_keys : AkaKeys
sample_keys = record {
  sqn_hn = 0 ∷ 0 ∷ 0 ∷ 0 ∷ 0 ∷ 9 ∷ [];
  ak = 1 ∷ 2 ∷ 3 ∷ 4 ∷ 5 ∷ 6 ∷ [];
  ik = replicate 16 1;
  ck = replicate 16 2;
  res = replicate 8 3;
}

-- A MAC of the algorithm, the count and the length; a cipher that changes nothing; counts with a
-- sequence number of eight bits.
abbrev pub sample_lib : NasLib
sample_lib = record {
  sqn = λ c. c % 256;
  overflow = λ c. c / 256;
  make_count = λ o s. 256 * o + s;
  add_one = λ c. c + 1;
  count_value = λ c. c;
  encode = λ ue m. 1 ∷ 2 ∷ [];
  reencode = λ pdu. some pdu;
  security_header_type = λ pdu. get_or pdu 1 0;
  plain_decode = λ pdu. some authentication_reject;
  sm_decode = λ pdu. none;
  encrypt = λ a k c d s. some s;
  mac = λ a k c d s. some (a ∷ c % 256 ∷ 3 ∷ 4 ∷ []);
  keys_with_autn = λ opc k rand autn. some sample_keys;
  generate_auts = λ opc k rand sqn. some sqn;
  kdf = λ k f ps. some (replicate 32 7);
  ip_text = λ a. a;
}

abbrev pub sample_security : Security
sample_security = record {
  supi = codes "imsi-208930000000001";
  msin = codes "0000000001";
  mcc = codes "208";
  mnc = codes "93";
  ul_count = 5;
  dl_count = 5;
  integrity_alg = 2;
  ciphering_alg = 0;
  ksi = 0;
  tsc_mapped = false;
  snn = [];
  knas_enc = replicate 16 0;
  knas_int = replicate 16 0;
  kamf = [];
  permanent_key = codes "00112233";
  opc = codes "44556677";
  sequence_number = codes "000000000001";
  suci = [];
  routing_indicator = codes "0000";
  guti = some (record { tmsi = 1 ∷ 2 ∷ 3 ∷ 4 ∷ [] });
}

abbrev pub sample_ue : UeContext
sample_ue = record {
  id = 1;
  pr_ue_id = 7;
  security = sample_security;
  state_mm = mm_idle;
  gnb_inbound_channel = some 2;
  gnb_rx = some 3;
  gnb_tx = some 4;
  drx_running = none;
  pdu_session = some 0 ∷ replicate 15 none;
  objects = new_session 1 ∷ [];
  amf_mcc = [];
  amf_mnc = [];
  dnn = codes "internet";
  sst = 1;
  sd = codes "112233";
  outputs = [];
}
