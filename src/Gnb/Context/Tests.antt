-- ===== src/Gnb/Context/Tests.antt =====
-- Runs of the pools, of the selection of an AMF and of paging.
use packet_rusher.Base.{◌≡◌, refl, ◌⊎◌, none, some, [], ◌∷◌, ◌++◌, ok, arith, length}
use packet_rusher.Base.Int.{pos, ltb_ℤ}
use packet_rusher.Gnb.Amf.{GnbAmf}
use packet_rusher.Gnb.Ue.{GnbUe}
use packet_rusher.Gnb.Context.{
  GnbContext, PagedUe, new_ran_gnb_context, new_gnb_ue, store_ue, select_amf_by_active,
  select_amf_by_capacity, is_active,
}
use packet_rusher.Gnb.Context.Selection.{IsBest, select_amf-IsBest}
use packet_rusher.Gnb.Context.Pools.{Stored, new_gnb_ue-Stored}
use packet_rusher.Gnb.Context.Invariant.{IsConsistent, Reach, here, next, connect}
use packet_rusher.Gnb.Context.Reachable.{IsUsable, Reach-IsConsistent-IsUsable}
use mathlib.Core.List.{Memᴰ}
use packet_rusher.Gnb.Context.Paging.{page, expire, paging_run, paging_run_keeps}
use packet_rusher.Gnb.Samples.{order, new_gnb, sample_ue, address}
use packet_rusher.Base.{codes, false}

abbrev connected : GnbContext
connected = (new_gnb_ue order new_gnb (some 11) (some 12) 7 none).0

one_connection : Reach new_gnb connected
unfolding new_ran_gnb_context
one_connection = next here (connect order (some 11) (some 12) 7 none (omega arith))

Reach-IsConsistent-IsUsable_example : IsConsistent connected × IsUsable connected
Reach-IsConsistent-IsUsable_example =
    Reach-IsConsistent-IsUsable (codes "000008") (codes "208") (codes "93") (codes "000001")
      (codes "01") (codes "112233") address address 2 connected one_connection

new_gnb_ue-Stored_example :
    (ue : GnbUe) × Stored new_gnb 7 ue connected
    × (((select_amf_by_active order ≡ none)
          × ((new_gnb_ue order new_gnb (some 11) (some 12) 7 none).1 ≡ none))
        ⊎ ((amf : GnbAmf) × (select_amf_by_active order ≡ some amf)
            × ((new_gnb_ue order new_gnb (some 11) (some 12) 7 none).1 ≡ some (length new_gnb.ues))
            × (ue.amf_id ≡ amf.amf_id)
            × (ue.sctp_connection ≡ amf.tnla.sctp_conn)))
new_gnb_ue-Stored_example = new_gnb_ue-Stored order new_gnb (some 11) (some 12) 7 none

abbrev with_ue : GnbContext
with_ue = store_ue new_gnb sample_ue

select_amf-IsBest_example :
    IsBest (λ amf. is_active amf.state) order (select_amf_by_active order)
    × IsBest (λ amf. ltb_ℤ (pos 0) amf.relative_amf_capacity) order (select_amf_by_capacity order)
select_amf-IsBest_example = select_amf-IsBest order

abbrev paged : PagedUe
paged = record { five_g_s_tmsi = some 4; timestamp = 100 }

new_gnb_unlocked : new_gnb.paged_ue_locked ≡ false
unfolding new_ran_gnb_context
new_gnb_unlocked = refl

paging_run_keeps_example :
    (gnb' : GnbContext) × (paging_run new_gnb (page paged ∷ expire paged ∷ []) ≡ ok gnb')
    × (gnb'.paged_ues ≡ new_gnb.paged_ues ++ paged ∷ [])
    × (gnb'.paged_ue_locked ≡ false)
unfolding new_ran_gnb_context
paging_run_keeps_example =
    paging_run_keeps new_gnb (page paged ∷ expire paged ∷ []) new_gnb_unlocked (Memᴰ.head refl, tt)
