-- ===== src/Gnb/Ngap/Status/Tests.antt =====
-- An AMF that is removed for a backup.
use packet_rusher.Base.{◌≡◌, [], ◌∷◌, ok}
use packet_rusher.Gnb.Context.{GnbContext}
use packet_rusher.Gnb.Messages.{release}
use packet_rusher.Gnb.Samples.{amf_of_weight}
use packet_rusher.Gnb.Amf.{GnbAmf}
use packet_rusher.Gnb.Ngap.Samples.{with_ue, with_ue-IsConsistent}
use packet_rusher.Gnb.Ngap.Status.{remove_amf}
use packet_rusher.Gnb.Ngap.Status.Moved.{Moved, remove_amf-Moved}

abbrev gone : GnbAmf
gone = amf_of_weight 0

remove_amf-Moved_example :
    (gnb' : GnbContext) × (remove_amf gone (amf_of_weight 3) with_ue
      ≡ ok (gnb', release gone.tnla.sctp_conn ∷ []))
    × Moved gone (amf_of_weight 3) with_ue gnb'
remove_amf-Moved_example = remove_amf-Moved gone (amf_of_weight 3) with_ue with_ue-IsConsistent
