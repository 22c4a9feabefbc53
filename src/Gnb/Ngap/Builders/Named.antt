-- ===== src/Gnb/Ngap/Builders/Named.antt =====
-- What an AMF reads in the gNB's messages about a UE: its ids and its PDU sessions.
use packet_rusher.Base.{
  append-nil, ℕ, ◌≡◌, refl, ◌∙◌, Option, some, List, [], ◌∷◌, Outcome, ok, map,
}
use packet_rusher.Base.Int.{ℤ}
use packet_rusher.Gnb.Ue.{GnbUe, GnbPduSession}
use packet_rusher.Gnb.Context.{GnbContext}
use packet_rusher.Gnb.Ngap.Builders.{
  Transfer, Value, SentPdu, BuilderLib, rejected, ignored, existing, unless_empty,
}
use packet_rusher.Gnb.Ngap.Builders.Sessions.{
  build_setup_response, build_initial_context_setup_response, build_release_response,
  build_ue_context_release_complete, build_ue_context_release_request, setup_item_of,
}
use packet_rusher.Gnb.Ngap.Builders.Mobility.{
  build_handover_notify, build_path_switch_request, build_handover_request_acknowledge,
  build_handover_required, switched_item, required_item, rrc_octets, acknowledge_pdu, required_pdu,
  build_source_to_target,
}
use packet_rusher.Gnb.Ngap.Builders.Transport.{build_uplink_nas_transport}
use packet_rusher.Gnb.Ngap.Builders.Read.{
  id_of, firsts, listed, amf_id_in, ran_id_in, firsts-map, firsts-map-released, existing-table_ids,
  table_ids, listed-unless_empty, admitted_items-firsts, Marshals, admitted_transfer,
}

pub data UeProcedure : Type 0 where
  answer_setup : List (Option GnbPduSession) → UeProcedure
  answer_release : List ℤ → UeProcedure
  uplink_nas : List ℕ → UeProcedure
  answer_context complete_release request_release : UeProcedure
  notify_handover switch_path acknowledge_handover require_handover : UeProcedure

abbrev pub ue_pdu : BuilderLib → GnbContext → GnbContext → GnbUe → UeProcedure → Outcome SentPdu
ue_pdu lib gnb target ue (answer_setup sessions) = ok (build_setup_response lib sessions ue gnb)
ue_pdu lib gnb target ue (answer_release ids) = ok (build_release_response ids ue)
ue_pdu lib gnb target ue (uplink_nas nas) =
    ok (build_uplink_nas_transport lib ue.amf_ue_ngap_id ue.ran_ue_ngap_id nas gnb)
ue_pdu lib gnb target ue answer_context = ok (build_initial_context_setup_response lib ue gnb)
ue_pdu lib gnb target ue complete_release = ok (build_ue_context_release_complete ue)
ue_pdu lib gnb target ue request_release = ok (build_ue_context_release_request ue)
ue_pdu lib gnb target ue notify_handover = ok (build_handover_notify lib gnb ue)
ue_pdu lib gnb target ue switch_path = ok (build_path_switch_request lib gnb ue)
ue_pdu lib gnb target ue acknowledge_handover = build_handover_request_acknowledge lib gnb ue
ue_pdu lib gnb target ue require_handover = build_handover_required lib gnb target ue

-- The sessions that a message is about.
abbrev pub concerned : GnbUe → UeProcedure → List ℤ
concerned ue (answer_setup sessions) = table_ids sessions
concerned ue (answer_release ids) = ids
concerned ue (uplink_nas nas) = []
concerned ue answer_context = table_ids ue.context.pdu_session
concerned ue complete_release = []
concerned ue request_release = table_ids ue.context.pdu_session
concerned ue notify_handover = []
concerned ue switch_path = table_ids ue.context.pdu_session
concerned ue acknowledge_handover = table_ids ue.context.pdu_session
concerned ue require_handover = table_ids ue.context.pdu_session

-- What has to be marshalled for the message to be built.
abbrev pub needed : BuilderLib → GnbContext → GnbContext → GnbUe → UeProcedure → List Transfer
needed lib gnb target ue acknowledge_handover =
    Transfer.target_to_source rrc_octets
    ∷ map (admitted_transfer lib gnb) (existing ue.context.pdu_session)
needed lib gnb target ue require_handover =
    Transfer.source_to_target
      (build_source_to_target lib gnb target ue.context.pdu_session ue.pr_ue_id)
    ∷ []
needed lib gnb target ue _ = []

-- Both ids are the UE's, and the sessions listed are those concerned.
pub record TellsOf (ue : GnbUe) (procedure : UeProcedure) (pdu : SentPdu) : Type 0 where
  pub amf_id_is : amf_id_in pdu.sent_ies ≡ some ue.amf_ue_ngap_id
  pub ran_id_is : ran_id_in pdu.sent_ies ≡ some ue.ran_ue_ngap_id
  pub sessions_are : listed pdu.sent_ies ≡ concerned ue procedure

abbrev Built : BuilderLib → GnbContext → GnbContext → GnbUe → UeProcedure → Type 0
Built lib gnb target ue procedure =
    (pdu : SentPdu) × (ue_pdu lib gnb target ue procedure ≡ ok pdu) × TellsOf ue procedure pdu

tells :
    (lib : BuilderLib) (gnb target : GnbContext) (ue : GnbUe) (procedure : UeProcedure)
    (pdu : SentPdu)
    → ue_pdu lib gnb target ue procedure ≡ ok pdu
    → amf_id_in pdu.sent_ies ≡ some ue.amf_ue_ngap_id
    → ran_id_in pdu.sent_ies ≡ some ue.ran_ue_ngap_id
    → listed pdu.sent_ies ≡ concerned ue procedure
    → Built lib gnb target ue procedure
tells lib gnb target ue procedure pdu built amf_id ran_id sessions =
    (pdu, built, record { amf_id_is = amf_id; ran_id_is = ran_id; sessions_are = sessions })

module _ (lib : BuilderLib) (gnb target : GnbContext) (ue : GnbUe) where
  setup-Built :
      (sessions : List (Option GnbPduSession)) → Built lib gnb target ue (answer_setup sessions)
  unfolding build_setup_response
  setup-Built sessions =
      tells lib gnb target ue (answer_setup sessions) (build_setup_response lib sessions ue gnb)
        refl refl refl
        (append-nil _
          ∙ firsts-map (setup_item_of lib gnb) (λ s. refl) (existing sessions)
          ∙ existing-table_ids sessions)

  release-Built : (ids : List ℤ) → Built lib gnb target ue (answer_release ids)
  unfolding build_release_response
  release-Built ids =
      tells lib gnb target ue (answer_release ids) (build_release_response ids ue) refl refl refl
        (append-nil _ ∙ firsts-map-released ids)

  context-Built : Built lib gnb target ue answer_context
  unfolding build_initial_context_setup_response
  context-Built =
      let its = existing ue.context.pdu_session in
      tells lib gnb target ue answer_context (build_initial_context_setup_response lib ue gnb) refl
        refl refl (listed_last its ∙ existing-table_ids ue.context.pdu_session)
    where
      listed_last :
          (l : List GnbPduSession)
          → listed (
              unless_empty
                (λ x. ignored (Value.sent_setup_list_cxt_res x))
                (map (setup_item_of lib gnb) l))
            ≡ map id_of l
      listed_last [] = refl
      listed_last (s ∷ l) = append-nil _ ∙ firsts-map (setup_item_of lib gnb) (λ x. refl) (s ∷ l)

  request-Built : Built lib gnb target ue request_release
  unfolding build_ue_context_release_request
  request-Built =
      tells lib gnb target ue request_release (build_ue_context_release_request ue) refl refl refl (
        listed-unless_empty (λ l. l) (λ l. rejected (Value.sent_list_cxt_rel_req l)) refl
          (λ l. refl) (map id_of (existing ue.context.pdu_session)) _
        ∙ append-nil _
        ∙ existing-table_ids ue.context.pdu_session)

  switch-Built : Built lib gnb target ue switch_path
  unfolding build_path_switch_request
  switch-Built =
      let its = existing ue.context.pdu_session in
      tells lib gnb target ue switch_path (build_path_switch_request lib gnb ue) refl refl refl (
        listed-unless_empty firsts (λ l. rejected (Value.sent_switched_list l)) refl (λ l. refl)
          (map (switched_item lib gnb) its) _
        ∙ append-nil _
        ∙ firsts-map (switched_item lib gnb) (λ s. refl) its
        ∙ existing-table_ids ue.context.pdu_session)

  acknowledge-Built :
      Marshals lib (needed lib gnb target ue acknowledge_handover)
      → Built lib gnb target ue acknowledge_handover
  unfolding build_handover_request_acknowledge acknowledge_pdu
  acknowledge-Built marshals =
      let its = existing ue.context.pdu_session in
      let (items, admitted, ids) = admitted_items-firsts lib gnb its marshals.1 in
      let (container, marshalled) = marshals.0 in
      tells lib gnb target ue acknowledge_handover (acknowledge_pdu ue items container)
        (rw (admitted, marshalled) refl) refl refl
        (listed-unless_empty firsts (λ l. ignored (Value.sent_admitted_list l)) refl (λ l. refl)
            items (rejected (Value.sent_target_to_source container) ∷ [])
          ∙ append-nil _
          ∙ ids
          ∙ existing-table_ids ue.context.pdu_session)

  require-Built :
      Marshals lib (needed lib gnb target ue require_handover)
      → Built lib gnb target ue require_handover
  unfolding build_handover_required required_pdu
  require-Built marshals =
      let sessions = ue.context.pdu_session in
      let (container, marshalled) = marshals.0 in
      tells lib gnb target ue require_handover (required_pdu lib target ue container)
        (rw marshalled refl) refl refl
        (listed-unless_empty firsts (λ l. rejected (Value.sent_ho_rqd_list l)) refl (λ l. refl)
            (map (required_item lib) (existing sessions)) _
          ∙ append-nil _
          ∙ firsts-map (required_item lib) (λ s. refl) (existing sessions)
          ∙ existing-table_ids sessions)

-- Of the gNB's ten messages about a UE that carry an AMF UE id, each is built where the codec marshals
-- what the message cannot do without: nothing for most, the container for a Handover Required, and the
-- container and the transfer of each of the UE's sessions for a Handover Request Acknowledge. It carries the AMF's id of the UE and the gNB's, and lists exactly the
-- sessions that it is about, in the order of the UE's table or of the handler's list: those that were
-- set up or released, all of the UE's in the answer to a context setup, in the request to release the
-- context and in the messages that prepare and admit a handover or switch the path, and none in the
-- other messages.
pub ue_pdu-TellsOf :
    (lib : BuilderLib) (gnb target : GnbContext) (ue : GnbUe) (procedure : UeProcedure)
    → Marshals lib (needed lib gnb target ue procedure)
    → (pdu : SentPdu) × (ue_pdu lib gnb target ue procedure ≡ ok pdu) × TellsOf ue procedure pdu
unfolding build_ue_context_release_complete build_handover_notify build_uplink_nas_transport
ue_pdu-TellsOf lib gnb target ue (answer_setup sessions) m = setup-Built lib gnb target ue sessions
ue_pdu-TellsOf lib gnb target ue (answer_release ids) m = release-Built lib gnb target ue ids
ue_pdu-TellsOf lib gnb target ue (uplink_nas nas) m =
    tells lib gnb target ue (uplink_nas nas) _ refl refl refl refl
ue_pdu-TellsOf lib gnb target ue answer_context m = context-Built lib gnb target ue
ue_pdu-TellsOf lib gnb target ue complete_release m =
    tells lib gnb target ue complete_release _ refl refl refl refl
ue_pdu-TellsOf lib gnb target ue request_release m = request-Built lib gnb target ue
ue_pdu-TellsOf lib gnb target ue notify_handover m =
    tells lib gnb target ue notify_handover _ refl refl refl refl
ue_pdu-TellsOf lib gnb target ue switch_path m = switch-Built lib gnb target ue
ue_pdu-TellsOf lib gnb target ue acknowledge_handover m = acknowledge-Built lib gnb target ue m
ue_pdu-TellsOf lib gnb target ue require_handover m = require-Built lib gnb target ue m
