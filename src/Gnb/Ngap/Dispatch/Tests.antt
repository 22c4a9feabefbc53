-- ===== src/Gnb/Ngap/Dispatch/Tests.antt =====
-- The release of a UE's context, dispatched.
use packet_rusher.Base.{◌+◌, ◌<◌, ◌≤◌, ◌≡◌, refl, [], ◌∷◌, ok, arith}
use packet_rusher.Gnb.Context.{GnbContext, uint32_mod, int64_mod, store_ue, new_ran_gnb_context}
use packet_rusher.Gnb.Context.Invariant.{IsConsistent}
use packet_rusher.Gnb.Messages.{to_amf}
use packet_rusher.Gnb.Samples.{sample_ue, amf_of_weight}
use packet_rusher.Gnb.Ngap.Samples.{
  sample_lib, release_pdu, with_ue, with_ue-at, with_ue-IsConsistent, release_ies, release_read,
  release_found, release_open,
}
use packet_rusher.Gnb.Ngap.Ies.Counts.{requested, sessions_in}
use packet_rusher.Gnb.Ngap.Handover.Released.{released_context-Deleted}
use packet_rusher.Gnb.Ngap.Dispatch.{Arrival, on_initiating, on_present, ngap_dispatch}
use packet_rusher.Gnb.Ngap.Dispatch.Kept.{ngap_dispatch-IsConsistent}

abbrev arrival : Arrival
arrival = record { amf = amf_of_weight 3; count = 0; time = 0; new_rx = 21; new_tx = 22 }

abbrev after_release : GnbContext
after_release =
    (released_context-Deleted sample_lib with_ue release_ies 1 0 sample_ue (7 ∷ []) release_read
      release_found with_ue-at refl release_open refl refl).0

dispatched :
    ngap_dispatch sample_lib arrival with_ue []
    ≡ ok (after_release, to_amf sample_ue.sctp_connection (7 ∷ []) ∷ [], 0)
unfolding ngap_dispatch on_present on_initiating
dispatched =
    let (_, handled, _, _) =
      released_context-Deleted sample_lib with_ue release_ies 1 0 sample_ue (7 ∷ []) release_read
        release_found with_ue-at refl release_open refl refl in
    rw handled refl

room : with_ue.teid_generator + requested release_pdu.ies < uint32_mod
unfolding requested sessions_in store_ue new_ran_gnb_context
room = omega arith

id_room : with_ue.id_ue_generator + 1 < int64_mod
unfolding store_ue new_ran_gnb_context
id_room = omega arith

ngap_dispatch-IsConsistent_example :
    IsConsistent after_release
    × (after_release.teid_generator ≤ with_ue.teid_generator + requested release_pdu.ies)
ngap_dispatch-IsConsistent_example =
    ngap_dispatch-IsConsistent sample_lib arrival with_ue after_release [] release_pdu
      (to_amf sample_ue.sctp_connection (7 ∷ []) ∷ []) 0 refl room id_room with_ue-IsConsistent
      dispatched
