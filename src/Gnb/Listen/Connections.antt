-- ===== src/Gnb/Listen/Connections.antt =====
-- The life of a UE's connection at the gNB.
use packet_rusher.Base.{
  ℕ, ◌≡◌, refl, ap, ◌∙◌, true, false, Option, none, some, [], ok, arith, within, get_elem?-set_self,
}
use packet_rusher.Gnb.Ue.{GnbUe, down}
use packet_rusher.Gnb.Context.{GnbContext, get_gnb_ue, get_gnb_ue_by_pr_ue_id, delete_gnb_ue}
use packet_rusher.Gnb.Context.Pools.{ue_at, IsTxOpen, delete_gnb_ue-Deleted}
use packet_rusher.Gnb.Messages.{UeMessage, put_ue}
use packet_rusher.Gnb.Ngap.{NgapLib}
use packet_rusher.Gnb.Listen.{
  processing_conn, conn_round, known_message, connection_closed_by_ue, clean_context,
}

closing_round :
    (lib : NgapLib) (gnb gnb' : GnbContext) (p : ℕ) (ue : GnbUe) (message : UeMessage)
    → ue_at gnb p ≡ some ue
    → get_gnb_ue gnb ue.ran_ue_ngap_id ≡ some p
    → ue.new_gnb ≡ none
    → message.connection_closed ≡ true
    → delete_gnb_ue (put_ue gnb p (record ue { state = down })) p ≡ ok gnb'
    → processing_conn lib gnb p (some message) ≡ ok (gnb', [], true)
unfolding processing_conn conn_round known_message connection_closed_by_ue clean_context
closing_round lib gnb gnb' p ue message at known stays closing done =
    let cleaned : clean_context ue.new_gnb (put_ue gnb p (record ue { state = down })) p ≡ ok gnb' =
      ap (λ (o : Option ℕ). clean_context o (put_ue gnb p (record ue { state = down })) p) stays
      ∙ done in
    rw at (rw known (rw closing (rw at (rw cleaned refl))))

-- When a UE that is not being handed over closes its connection, its context is deleted: its RAN id
-- and its own entry under its PacketRusher id are gone, and whatever comes over its channel
-- afterwards is ignored and ends the loop.
pub closed_then_ignored :
    (lib : NgapLib) (gnb : GnbContext) (p : ℕ) (ue : GnbUe) (message : UeMessage)
    → ue_at gnb p ≡ some ue
    → get_gnb_ue gnb ue.ran_ue_ngap_id ≡ some p
    → ue.new_gnb ≡ none
    → IsTxOpen gnb ue
    → message.connection_closed ≡ true
    → (gnb' : GnbContext) × (processing_conn lib gnb p (some message) ≡ ok (gnb', [], true))
      × (get_gnb_ue gnb' ue.ran_ue_ngap_id ≡ none)
      × ¬ (get_gnb_ue_by_pr_ue_id gnb' ue.pr_ue_id ≡ some p)
      × ((later : Option UeMessage) → processing_conn lib gnb' p later ≡ ok (gnb', [], false))
unfolding processing_conn conn_round
closed_then_ignored lib gnb p ue message at known stays open_tx closing =
    let lowered = record ue { state = down } in
    let gnb1 = put_ue gnb p lowered in
    let there : ue_at gnb1 p ≡ some lowered =
      get_elem?-set_self gnb.ues p lowered (within gnb.ues p ue at) in
    let (gnb', done, gone) = delete_gnb_ue-Deleted gnb1 p lowered there open_tx in
    let no_id : get_gnb_ue gnb' ue.ran_ue_ngap_id ≡ none =
      gone.by_ran_id ue.ran_ue_ngap_id ∙ ground arith in
    (
      gnb',
      closing_round lib gnb gnb' p ue message at known stays closing done,
      no_id,
      gone.by_pr_id_gone,
      λ later. rw (gone.channel, no_id) refl,
    )
