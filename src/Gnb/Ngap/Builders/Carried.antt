-- ===== src/Gnb/Ngap/Builders/Carried.antt =====
-- An NGAP handover, from the message of the source gNB that asks for it to the UE that the target gNB
-- creates: gnb/ngap/message/ngap_control/ue_mobility_management/handover-required.go and
-- `HandlerHandoverRequest` of gnb/ngap/handler.go. The AMF passes the source's container on.
use packet_rusher.Base.{
  ℕ, ◌≡◌, refl, ◌∙◌, sym, ap, ◌⊎◌, inl, inr, false, Option, none, some, List, [], ◌∷◌, ◌++◌, ok,
  map, arith, length, ◌==◌,
}
use packet_rusher.Base.Int.{ℤ}
use packet_rusher.Gnb.Amf.{GnbAmf}
use packet_rusher.Gnb.Ue.{GnbUe}
use packet_rusher.Gnb.Context.{
  GnbContext, new_gnb_ue, get_gnb_ue, get_gnb_ue_by_pr_ue_id, select_amf_by_active,
}
use packet_rusher.Gnb.Context.Pools.{ue_at, new_gnb_ue-Stored}
use packet_rusher.Gnb.Ngap.{NgapLib, Ie, read_ies}
use packet_rusher.Gnb.Ngap.Ies.{Locals, zero_locals, read_handover}
use packet_rusher.Gnb.Ngap.Update.{amf_pool_values}
use packet_rusher.Gnb.Ngap.Handover.{handler_handover_request, create_handover, admit_handover}
use packet_rusher.Gnb.Ngap.Builders.{
  BuilderLib, Transfer, SourceContainer, Value, SentIe, SentPdu, unless_empty, rejected, existing,
  target_id,
}
use packet_rusher.Gnb.Ngap.Builders.Mobility.{
  build_source_to_target, build_handover_required, required_pdu, required_item,
}

abbrev pub or_container : Value → Option (List ℕ) → Option (List ℕ)
or_container (Value.sent_source_to_target bytes) later = some bytes
or_container _ later = later

abbrev pub container_in : List SentIe → Option (List ℕ)
container_in [] = none
container_in (ie ∷ rest) = or_container ie.value (container_in rest)

container_in-unless_empty :
    (l : List (ℤ × List ℕ)) (rest : List SentIe)
    → container_in (unless_empty (λ x. rejected (Value.sent_ho_rqd_list x)) l ++ rest)
      ≡ container_in rest
container_in-unless_empty [] rest = refl
container_in-unless_empty (x ∷ l) rest = refl

-- The UE that the target has created, when it goes on to admit the sessions.
pub record Expected (target made : GnbContext) (amf : GnbAmf) (pr_ue_id : ℕ) : Type 0 where
  pub fresh : GnbUe
  pub there : ue_at made (length target.ues) ≡ some fresh
  pub by_ran_id : get_gnb_ue made target.id_ue_generator ≡ some (length target.ues)
  pub by_pr_id : get_gnb_ue_by_pr_ue_id made pr_ue_id ≡ some (length target.ues)
  pub its_amf : fresh.amf_id ≡ amf.amf_id
  pub its_connection : fresh.sctp_connection ≡ amf.tnla.sctp_conn

created :
    (lib : NgapLib) (target : GnbContext) (amf : GnbAmf) (l : Locals) (pr_ue_id : ℕ)
    → select_amf_by_active (lib.visit (amf_pool_values target.amf_pool)) ≡ some amf
    → (pr_ue_id == 0) ≡ false
    → (made : GnbContext) × (create_handover lib l target pr_ue_id
        ≡ admit_handover lib l made (length target.ues))
      × Expected target made amf pr_ue_id
unfolding create_handover
created lib target amf l pr_ue_id selected nonzero =
    let order = lib.visit (amf_pool_values target.amf_pool) in
    let made = new_gnb_ue order target none none pr_ue_id none in
    let (fresh, stored, how) = new_gnb_ue-Stored order target none none pr_ue_id none in
    let (result, its, conn) = chosen fresh how in
    (
      made.0,
      rw result refl,
      record {
        fresh = fresh;
        there = stored.object;
        by_ran_id = stored.by_ran_id target.id_ue_generator ∙ ground arith;
        by_pr_id = stored.by_pr_id pr_ue_id ∙ rw nonzero (ground arith);
        its_amf = its;
        its_connection = conn;
      },
    )
  where
    chosen :
        (fresh : GnbUe)
        → ((select_amf_by_active (lib.visit (amf_pool_values target.amf_pool)) ≡ none)
            × ((new_gnb_ue
                  (lib.visit (amf_pool_values target.amf_pool))
                  target
                  none
                  none
                  pr_ue_id
                  none).1
                ≡ none))
          ⊎ ((a : GnbAmf) × (select_amf_by_active (lib.visit (amf_pool_values target.amf_pool))
                ≡ some a)
              × ((new_gnb_ue
                    (lib.visit (amf_pool_values target.amf_pool))
                    target
                    none
                    none
                    pr_ue_id
                    none).1
                  ≡ some (length target.ues))
              × (fresh.amf_id ≡ a.amf_id)
              × (fresh.sctp_connection ≡ a.tnla.sctp_conn))
        → ((new_gnb_ue
              (lib.visit (amf_pool_values target.amf_pool))
              target
              none
              none
              pr_ue_id
              none).1
            ≡ some (length target.ues))
          × (fresh.amf_id ≡ amf.amf_id)
          × (fresh.sctp_connection ≡ amf.tnla.sctp_conn)
    chosen fresh (inl (without, _)) = let no : none ≡ some amf = sym without ∙ selected in cc
    chosen fresh (inr (a, with_amf, result, its, conn)) =
        let same : a ≡ amf = cc (with_amf, selected) in
        (
          result,
          its ∙ ap (λ (x : GnbAmf). x.amf_id) same,
          conn ∙ ap (λ (x : GnbAmf). x.tnla.sctp_conn) same,
        )

read_container :
    (lib : NgapLib) (target : GnbContext) (ies : List Ie) (l : Locals) (bytes : List ℕ)
    (pr_ue_id : ℕ)
    → read_ies read_handover ies zero_locals ≡ ok l
    → l.container ≡ some bytes
    → lib.unmarshal_container bytes ≡ some (some pr_ue_id)
    → handler_handover_request lib target ies ≡ create_handover lib l target pr_ue_id
unfolding handler_handover_request
read_container lib target ies l bytes pr_ue_id read has index = rw (read, has, index) refl

-- Where decoding the container that a source gNB encoded gives its index back, the source asks for the
-- handover of a UE, whose PacketRusher id is not 0, with an encoded container, and the target handles a
-- request of the AMF that has this container, with an active AMF to select: the target goes on to admit
-- the request's sessions for a UE that it has created under a fresh RAN id and under the PacketRusher
-- id that the UE has at the source, at the selected AMF.
pub handover_required-Expected :
    (lib : NgapLib) (builder : BuilderLib) (source target : GnbContext) (ue : GnbUe) (amf : GnbAmf)
    (bytes : List ℕ) (ies : List Ie) (l : Locals)
    → ((c : SourceContainer) (b : List ℕ)
        → builder.marshal (Transfer.source_to_target c) ≡ some b
        → lib.unmarshal_container b ≡ some (some c.index_to_rfsp))
    → builder.marshal (
        Transfer.source_to_target
          (build_source_to_target builder source target ue.context.pdu_session ue.pr_ue_id))
      ≡ some bytes
    → read_ies read_handover ies zero_locals ≡ ok l
    → l.container ≡ some bytes
    → select_amf_by_active (lib.visit (amf_pool_values target.amf_pool)) ≡ some amf
    → (ue.pr_ue_id == 0) ≡ false
    → (pdu : SentPdu) × (made : GnbContext) × (build_handover_required builder source target ue
        ≡ ok pdu)
      × (container_in pdu.sent_ies ≡ some bytes)
      × (handler_handover_request lib target ies ≡ admit_handover lib l made (length target.ues))
      × Expected target made amf ue.pr_ue_id
unfolding build_handover_required build_source_to_target required_pdu
handover_required-Expected lib builder source target ue amf bytes ies l decodes encoded read has
      selected nonzero =
    let carried = build_source_to_target builder source target ue.context.pdu_session ue.pr_ue_id in
    let index : lib.unmarshal_container bytes ≡ some (some ue.pr_ue_id) =
      decodes carried bytes encoded in
    let (made, goes_on, expected) = created lib target amf l ue.pr_ue_id selected nonzero in
    (
      required_pdu builder target ue bytes,
      made,
      rw encoded refl,
      container_in-unless_empty (map (required_item builder) (existing ue.context.pdu_session)) (
          rejected (Value.sent_target_id (target_id builder target))
          ∷ rejected (Value.sent_source_to_target bytes)
          ∷ []),
      read_container lib target ies l bytes ue.pr_ue_id read has index ∙ goes_on,
      expected,
    )
