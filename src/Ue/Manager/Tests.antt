-- ===== src/Ue/Manager/Tests.antt =====
-- Paging of the sample UE, which is idle.
use mathlib.Core.List.{Memᴰ}
use packet_rusher.Base.{
  ◌≡◌, ◌≤◌, refl, sym, subst, none, some, List, Option, [], ◌∷◌, ok, ◌>>=◌, codes, length, ◌⊎◌,
  arith,
}
use packet_rusher.Ue.Context.{get_tmsi_5g, emit, fetch_paged_ues}
use packet_rusher.Ue.Trigger.{Connection}
use packet_rusher.Ue.Manager.{service_request, FiveGsTmsi, ue_mgr_handler, verify_paging}
use packet_rusher.Ue.Manager.Requests.{IsPaged, verify_paging-IsPaged}
use packet_rusher.Ue.Samples.{sample_lib, sample_ue}

abbrev answer : Connection
answer = record { rx = 21; tx = 22; mcc = codes "208"; mnc = codes "93" }

abbrev identity : FiveGsTmsi
identity = record { amf_set_id = 1 ∷ []; amf_pointer = 0 ∷ []; five_g_tmsi = 1 ∷ 2 ∷ 3 ∷ 4 ∷ [] }

abbrev paged : List (Option FiveGsTmsi)
paged = none ∷ some identity ∷ []

whole : (p : FiveGsTmsi) → Memᴰ (some p) paged → 4 ≤ length p.five_g_tmsi
whole p (Memᴰ.head e) = cc
whole p (Memᴰ.tail (Memᴰ.head e)) =
    let same : p ≡ identity = cc e in
    subst (λ (q : FiveGsTmsi). 4 ≤ length q.five_g_tmsi) (sym same) (omega arith)
whole p (Memᴰ.tail (Memᴰ.tail m)) = elim m [ ]

verify_paging-IsPaged_example :
    (IsPaged (get_tmsi_5g sample_ue) paged
      × (verify_paging sample_lib sample_ue paged answer ≡ (
          ue_mgr_handler sample_lib service_request (emit (fetch_paged_ues 2) sample_ue) answer
          >>= λ r. ok r.0)))
    ⊎ ((¬ IsPaged (get_tmsi_5g sample_ue) paged)
        × (verify_paging sample_lib sample_ue paged answer
            ≡ ok (emit (fetch_paged_ues 2) sample_ue)))
verify_paging-IsPaged_example =
    verify_paging-IsPaged sample_lib sample_ue 2 (record { tmsi = 1 ∷ 2 ∷ 3 ∷ 4 ∷ [] }) paged answer
      refl refl whole
