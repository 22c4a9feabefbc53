-- ===== src/Gnb/Ngap/Setup/Tests.antt =====
-- An NG Setup Response that is accepted.
use packet_rusher.Base.{◌≡◌, refl, none, some, List, [], ◌∷◌, ◌++◌, codes, ok, map}
use packet_rusher.Base.Int.{pos}
use packet_rusher.Plmn.{convert_mcc_mnc}
use packet_rusher.Plmn.Hex.{encode_hex}
use packet_rusher.Gnb.Amf.{GnbAmf, PlmnSupported, new_plmn, active}
use packet_rusher.Gnb.Amf.Lists.{IsCounted}
use packet_rusher.Gnb.Samples.{amf_of_weight}
use packet_rusher.Gnb.Ngap.{Ie, Guami, PlmnSupport, Snssai}
use packet_rusher.Gnb.Ngap.Setup.{handler_ng_setup_response}
use packet_rusher.Gnb.Ngap.Setup.Appended.{slice_of, extended, no_plmns, plmn_with}
use packet_rusher.Gnb.Ngap.Setup.Accepted.{
  with_other, with_plmns, with_name, with_guamis, with_capacity, nothing_more, ng_setup_accepted,
}

abbrev amf : GnbAmf
amf = amf_of_weight 3

abbrev amf_guami : Guami
amf_guami = record {
  plmn_identity = 2 ∷ 248 ∷ 57 ∷ [];
  amf_region_id = record { bytes = some (202 ∷ []); bit_length = 8 };
  amf_set_id = record { bytes = some (1 ∷ []); bit_length = 10 };
  amf_pointer = record { bytes = some (0 ∷ []); bit_length = 6 };
}

abbrev slices : List Snssai
slices = record { sst_value = some (1 ∷ []); sd_value = some (1 ∷ 2 ∷ 3 ∷ []) } ∷ []

abbrev supported : List PlmnSupport
supported = record { identity = 2 ∷ 248 ∷ 57 ∷ []; slice_support = some slices } ∷ []

abbrev plmn : PlmnSupported
plmn = record { mcc = codes "208"; mnc = codes "93" }

plmn_made : new_plmn (encode_hex (2 ∷ 248 ∷ 57 ∷ [])) ≡ ok plmn
unfolding new_plmn convert_mcc_mnc encode_hex
plmn_made = refl

abbrev after : GnbAmf
after = record (extended amf (plmn ∷ []) (map slice_of slices ++ [])) {
  name = codes "free5gc";
  relative_amf_capacity = pos 255;
  state = active;
}

-- The PLMNs come first, and there is a capacity that is missing.
abbrev response : List Ie
response =
    Ie.amf_capacity none
    ∷ Ie.plmn_support_list (some supported)
    ∷ Ie.amf_name (some (codes "free5gc"))
    ∷ Ie.served_guami_list (some (amf_guami ∷ []))
    ∷ Ie.amf_capacity (some (pos 255))
    ∷ []

ng_setup_accepted_example : (handler_ng_setup_response amf response ≡ ok after) × IsCounted after
ng_setup_accepted_example =
    ng_setup_accepted amf response (codes "free5gc") (pos 255) (plmn ∷ [])
      (map slice_of slices ++ []) (record { plmns_counted = refl; slices_counted = refl })
      (with_other (Ie.amf_capacity none) refl (
        with_plmns (plmn_with plmn_made refl no_plmns)
          (with_name (with_guamis refl (with_capacity nothing_more)))))
