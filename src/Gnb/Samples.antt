-- ===== src/Gnb/Samples.antt =====
-- A gNB, an AMF and a UE for the tests.
use packet_rusher.Base.{ℕ, some, List, [], ◌∷◌, codes}
use packet_rusher.Base.Int.{ℤ, pos}
use packet_rusher.Gnb.Amf.{empty_bits, GnbAmf, AddrPort, active}
use packet_rusher.Gnb.Ue.{GnbUe, zero_ue, Request}
use packet_rusher.Gnb.Context.{GnbContext, no_association, new_ran_gnb_context}

abbrev pub address : AddrPort
address = record { addr = 127 ∷ 0 ∷ 0 ∷ 1 ∷ []; port = 38412 }

abbrev pub amf_of_weight : ℕ → GnbAmf
amf_of_weight w = record {
  amf_ip_port = address;
  amf_id = w;
  tnla = record no_association { tnla_weight_factor = pos w; sctp_conn = some 5 };
  relative_amf_capacity = pos 255;
  state = active;
  name = codes "amf";
  region_id = empty_bits;
  set_id = empty_bits;
  pointer = empty_bits;
  plmns = record { mcc = codes "208"; mnc = codes "93" } ∷ [];
  slices = record { sst = codes "01"; sd = codes "112233" } ∷ [];
  len_slice = 1;
  len_plmn = 1;
  backup_amf = [];
}

abbrev pub order : List GnbAmf
order = amf_of_weight 3 ∷ amf_of_weight 9 ∷ amf_of_weight 4 ∷ []

abbrev pub sample_ue : GnbUe
sample_ue = record zero_ue {
  ran_ue_ngap_id = 1;
  pr_ue_id = 7;
  sctp_connection = some 5;
  gnb_tx = some 11;
  context = record (zero_ue.context) {
    allowed_sst = codes "01" ∷ [];
    allowed_sd = codes "112233" ∷ [];
  };
}

abbrev pub session_of : ℤ → Request
session_of id = record {
  pdu_session_id = id;
  upf_ip = [];
  sst = codes "01";
  sd = codes "112233";
  uplink_teid = 1;
  downlink_teid = 2;
  pdu_type = 0;
  qos_id = 1;
  five_qi = 9;
  pri_arp = 1;
}

abbrev pub new_gnb : GnbContext
new_gnb =
    new_ran_gnb_context (codes "000008") (codes "208") (codes "93") (codes "000001") (codes "01")
      (codes "112233") address address 2
