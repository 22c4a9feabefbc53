-- ===== src/Ue/Context/Tests.antt =====
-- Runs of the UE's table of PDU sessions.
use packet_rusher.Base.{ℕ, ◌≡◌, ◌≢◌, ◌<◌, ◌++◌, ◌⊎◌, refl, true, none, some, ok, arith, get_elem?}
use packet_rusher.Ue.Context.{
  UeContext, create_pdu_session, delete_pdu_session, get_pdu_session, new_session,
}
use packet_rusher.Ue.Context.Sessions.{
  IsTable, Created, ue_create_session-get, ue_delete_session-get, stops,
}
use packet_rusher.Ue.Samples.{sample_ue}

ue_create_session-get_example :
    ((create_pdu_session sample_ue ≡ none)
      × ((j : ℕ) → j < 16 → (p : ℕ) × (get_elem? sample_ue.pdu_session j ≡ some (some p))))
    ⊎ Created sample_ue
ue_create_session-get_example = ue_create_session-get sample_ue refl

ue_delete_session-get_example :
    (ue' : UeContext) × (delete_pdu_session sample_ue 1 ≡ ok (some ue'))
    × IsTable ue'
    × (get_pdu_session ue' 1 ≡ ok none)
    × ((id : ℕ) → id ≢ 1 → get_pdu_session ue' id ≡ get_pdu_session sample_ue id)
    × (get_elem? ue'.objects 0 ≡ some (record (new_session 1) { wait_closed = true }))
    × (ue'.outputs ≡ (stops none ++ sample_ue.outputs))
ue_delete_session-get_example =
    ue_delete_session-get sample_ue 0 0 (new_session 1) refl (omega arith) refl refl refl
