-- ===== src/Gnb/Amf/Tests.antt =====
-- Runs of the lists of PLMNs and slices.
use packet_rusher.Base.{ℕ, ◌≡◌, refl, List, [], ◌∷◌, ◌++◌, ok, codes}
use packet_rusher.Gnb.Amf.{GnbAmf, PlmnSupported, SliceSupported, new_plmn, added_plmn, added_slice}
use packet_rusher.Gnb.Amf.Lists.{IsCounted, added_plmn-append, added_slice-append}
use packet_rusher.Plmn.{convert_mcc_mnc}
use packet_rusher.Gnb.Samples.{amf_of_weight}

abbrev amf : GnbAmf
amf = amf_of_weight 3

abbrev text : List ℕ
text = codes "130021"

abbrev read : PlmnSupported
read = record { mcc = codes "310"; mnc = codes "012" }

amf-IsCounted : IsCounted amf
amf-IsCounted = record { plmns_counted = refl; slices_counted = refl }

text_reads : new_plmn text ≡ ok read
unfolding new_plmn convert_mcc_mnc
text_reads = refl

abbrev two_plmns : GnbAmf
two_plmns = record amf { plmns = amf.plmns ++ read ∷ []; len_plmn = 2 }

abbrev slice : SliceSupported
slice = record { sst = codes "02"; sd = codes "445566" }

abbrev two_slices : GnbAmf
two_slices = record amf { slices = amf.slices ++ slice ∷ []; len_slice = 2 }

added_plmn-append_example : (added_plmn amf text ≡ ok two_plmns) × IsCounted two_plmns
added_plmn-append_example = added_plmn-append amf text read amf-IsCounted text_reads

added_slice-append_example :
    (added_slice amf (codes "02") (codes "445566") ≡ ok two_slices) × IsCounted two_slices
added_slice-append_example = added_slice-append amf (codes "02") (codes "445566") amf-IsCounted
