-- ===== src/Gnb/Ngap/Handover/Released.antt =====
-- The release of a UE's context by the AMF.
use packet_rusher.Base.{ℕ, ◌≡◌, refl, ◌∙◌, none, some, List, [], ◌∷◌, ok, arith}
use packet_rusher.Gnb.Ue.{GnbUe}
use packet_rusher.Gnb.Context.{GnbContext, get_gnb_ue}
use packet_rusher.Gnb.Context.Pools.{ue_at, Deleted, IsTxOpen, delete_gnb_ue-Deleted}
use packet_rusher.Gnb.Messages.{to_amf}
use packet_rusher.Gnb.Ngap.{NgapLib, Ie, read_ies, ue_context_release_complete}
use packet_rusher.Gnb.Ngap.Triggers.{Writes, send_or_fatal-Writes, send_ue_context_release_complete}
use packet_rusher.Gnb.Ngap.Handover.{
  read_pair, release_ue, release_known, handler_ue_context_release_command,
}

command-release_ue :
    (lib : NgapLib) (gnb : GnbContext) (ies : List Ie) (ran : ℕ)
    → read_ies read_pair ies none ≡ ok (some ran)
    → handler_ue_context_release_command lib gnb ies ≡ release_ue lib gnb ran
unfolding handler_ue_context_release_command
command-release_ue lib gnb ies ran reads = rw reads refl

pub released_context-Deleted :
    (lib : NgapLib) (gnb : GnbContext) (ies : List Ie) (ran p : ℕ) (ue : GnbUe) (bytes : List ℕ)
    → read_ies read_pair ies none ≡ ok (some ran)
    → get_gnb_ue gnb ran ≡ some p
    → ue_at gnb p ≡ some ue
    → ue.ran_ue_ngap_id ≡ ran
    → IsTxOpen gnb ue
    → lib.encode (ue_context_release_complete (record ue { gnb_tx = none })) ≡ some bytes
    → Writes lib ue.sctp_connection bytes
    → (gnb' : GnbContext) × (handler_ue_context_release_command lib gnb ies
        ≡ ok (gnb', to_amf ue.sctp_connection bytes ∷ []))
      × Deleted gnb p ue gnb'
      × (handler_ue_context_release_command lib gnb' ies ≡ ok (gnb', []))
unfolding release_ue release_known send_ue_context_release_complete
released_context-Deleted lib gnb ies ran p ue bytes reads known at named open_tx encoded written =
    let (gnb', deleted, d) = delete_gnb_ue-Deleted gnb p ue at open_tx in
    let gone : get_gnb_ue gnb' ran ≡ none = d.by_ran_id ran ∙ ground arith in
    (
      gnb',
      command-release_ue lib gnb ies ran reads
          ∙ rw (known, release_ue)
              (rw
                (
                  deleted,
                  d.channel,
                  encoded,
                  send_or_fatal-Writes lib ue.sctp_connection bytes written,
                )
                refl),
      d,
      command-release_ue lib gnb' ies ran reads ∙ rw (gone, release_ue) refl,
    )
