-- ===== src/Gnb/Listen/XnHandover.antt =====
-- An Xn handover, from the trigger at the source gNB to the UE's context at the target.
use packet_rusher.Base.{
  Option, ℕ, ◌≡◌, refl, ◌∙◌, ap, false, none, some, List, [], ◌∷◌, ok, arith, length,
  get_elem?-set_self, within, ◌==◌,
}
use packet_rusher.Gnb.Amf.{GnbAmf}
use packet_rusher.Gnb.Ue.{GnbUe, ready, copy_from_previous_context}
use packet_rusher.Gnb.Context.{
  GnbContext, new_gnb_ue, store_ue, fresh_ue, attach_amf, get_gnb_ue, get_gnb_ue_by_pr_ue_id,
  contains, select_amf_by_active,
}
use packet_rusher.Gnb.Context.Pools.{ue_at, store_ue-Stored}
use packet_rusher.Gnb.Messages.{to_ue, to_gnb, process_connection, put_ue, to_amf}
use packet_rusher.Gnb.Ngap.{NgapLib, AmfMessage}
use packet_rusher.Gnb.Ngap.Triggers.{
  bytes_of, Writes, send_or_fatal-Writes, send_path_switch_request, send_inbound, xn_request,
  new_connection, trigger_xn_handover,
}
use packet_rusher.Gnb.Ngap.Ues.Open.{send_open}
use packet_rusher.Gnb.Listen.{moved, start_ue, connect_ue, gnb_listen}

-- The UE that the target creates, and what it becomes with the source's context.
abbrev pub created : GnbContext → GnbAmf → GnbUe → ℕ → ℕ → GnbUe
created target amf ue rx tx = attach_amf (fresh_ue target (some tx) (some rx) ue.pr_ue_id none) amf

abbrev pub arrival : GnbContext → GnbAmf → GnbUe → ℕ → ℕ → GnbContext
arrival target amf ue rx tx =
    put_ue (store_ue target (created target amf ue rx tx)) (length target.ues)
      (moved (created target amf ue rx tx) ue)

-- The Path Switch Request of the target.
abbrev pub switch_bytes : NgapLib → GnbContext → GnbAmf → GnbUe → ℕ → ℕ → List ℕ
switch_bytes lib target amf ue rx tx = bytes_of (
    lib.encode (
      AmfMessage.path_switch_request (arrival target amf ue rx tx)
        (moved (created target amf ue rx tx) ue)))

-- The UE as the target has it: the AMF's id and the sessions of the source, and the new channels.
pub record Arrived (target target' : GnbContext) (amf : GnbAmf) (ue : GnbUe) (rx tx : ℕ)
    : Type 0 where
  pub now : GnbUe
  pub there : ue_at target' (length target.ues) ≡ some now
  pub by_ran_id : get_gnb_ue target' target.id_ue_generator ≡ some (length target.ues)
  pub by_pr_id : get_gnb_ue_by_pr_ue_id target' ue.pr_ue_id ≡ some (length target.ues)
  pub same_context : now.context ≡ ue.context
  pub same_amf_ue_id : now.amf_ue_ngap_id ≡ ue.amf_ue_ngap_id
  pub its_amf : now.amf_id ≡ amf.amf_id
  pub its_connection : now.sctp_connection ≡ amf.tnla.sctp_conn
  pub from_ue : now.gnb_rx ≡ some rx
  pub to_the_ue : now.gnb_tx ≡ some tx
  pub is_ready : now.state ≡ ready

-- The trigger at the source sends both messages, over channels that are open.
xn_triggered :
    (source target : GnbContext) (pr_ue_id p rx tx inbound c : ℕ) (ue : GnbUe)
    → get_gnb_ue_by_pr_ue_id source pr_ue_id ≡ some p
    → ue_at source p ≡ some ue
    → target.control_info.inbound_channel ≡ some inbound
    → contains target.closed inbound ≡ false
    → ue.gnb_tx ≡ some c
    → contains source.closed c ≡ false
    → trigger_xn_handover source target pr_ue_id rx tx
      ≡ ok (
          to_gnb inbound (xn_request ue rx tx) ∷ to_ue c (new_connection rx tx (some inbound)) ∷ [])
unfolding trigger_xn_handover send_inbound
xn_triggered source target pr_ue_id p rx tx inbound c ue known at channel open_in tx_is open_tx =
    let found : source.pr_ue_pool pr_ue_id ≡ some p = known in
    rw
      (
        found,
        at,
        channel,
        open_in,
        send_open c source ue (new_connection rx tx (some inbound)) tx_is open_tx,
      )
      refl

arrived :
    (target : GnbContext) (amf : GnbAmf) (ue : GnbUe) (rx tx : ℕ)
    → (ue.pr_ue_id == 0) ≡ false
    → Arrived target (arrival target amf ue rx tx) amf ue rx tx
unfolding copy_from_previous_context
arrived target amf ue rx tx nonzero =
    let fresh = created target amf ue rx tx in
    let stored = store_ue-Stored target fresh refl refl in
    let now = moved fresh ue in
    record {
      now = now;
      there =
          get_elem?-set_self (store_ue target fresh).ues (length target.ues) now
            (within (store_ue target fresh).ues (length target.ues) fresh stored.object);
      by_ran_id = stored.by_ran_id target.id_ue_generator ∙ ground arith;
      by_pr_id = stored.by_pr_id ue.pr_ue_id ∙ rw nonzero (ground arith);
      same_context = refl;
      same_amf_ue_id = refl;
      its_amf = refl;
      its_connection = refl;
      from_ue = refl;
      to_the_ue = refl;
      is_ready = refl;
    }

switched :
    (lib : NgapLib) (target : GnbContext) (amf : GnbAmf) (ue : GnbUe) (rx tx : ℕ)
    → Writes lib amf.tnla.sctp_conn (switch_bytes lib target amf ue rx tx)
    → start_ue lib
        (store_ue target (created target amf ue rx tx))
        (length target.ues)
        (created target amf ue rx tx)
        (xn_request ue rx tx)
      ≡ ok (
        arrival target amf ue rx tx,
        to_amf amf.tnla.sctp_conn (switch_bytes lib target amf ue rx tx)
            ∷ process_connection (length target.ues)
            ∷ [],
      )
unfolding start_ue xn_request send_path_switch_request copy_from_previous_context
switched lib target amf ue rx tx writes =
    rw (send_or_fatal-Writes lib amf.tnla.sctp_conn (switch_bytes lib target amf ue rx tx) writes)
      refl

new_ue_selected :
    (order : List GnbAmf) (target : GnbContext) (amf : GnbAmf) (ue : GnbUe) (rx tx : ℕ)
    → select_amf_by_active order ≡ some amf
    → new_gnb_ue order target (some tx) (some rx) ue.pr_ue_id none
      ≡ (store_ue target (created target amf ue rx tx), some (length target.ues))
unfolding new_gnb_ue
new_ue_selected order target amf ue rx tx selected = rw (selected, new_gnb_ue) refl

xn_arrives :
    (lib : NgapLib) (order : List GnbAmf) (target : GnbContext) (amf : GnbAmf) (ue : GnbUe)
    (rx tx : ℕ)
    → select_amf_by_active order ≡ some amf
    → get_gnb_ue_by_pr_ue_id target ue.pr_ue_id ≡ none
    → Writes lib amf.tnla.sctp_conn (switch_bytes lib target amf ue rx tx)
    → gnb_listen lib order target (xn_request ue rx tx)
      ≡ ok (
        arrival target amf ue rx tx,
        to_amf amf.tnla.sctp_conn (switch_bytes lib target amf ue rx tx)
            ∷ process_connection (length target.ues)
            ∷ [],
      )
unfolding gnb_listen connect_ue xn_request
xn_arrives lib order target amf ue rx tx selected unknown writes =
    let free : target.pr_ue_pool ue.pr_ue_id ≡ none = unknown in
    let fresh = created target amf ue rx tx in
    let made = new_gnb_ue order target (some tx) (some rx) ue.pr_ue_id none in
    let is_made : made ≡ (store_ue target fresh, some (length target.ues)) =
      new_ue_selected order target amf ue rx tx selected in
    let object : ue_at made.0 (length target.ues) ≡ some fresh =
      ap (λ (r : GnbContext × Option ℕ). ue_at r.0 (length target.ues)) is_made
      ∙ (store_ue-Stored target fresh refl refl).object in
    let result : made.1 ≡ some (length target.ues) =
      ap (λ (r : GnbContext × Option ℕ). r.1) is_made in
    let handled : connect_ue lib order target (xn_request ue rx tx)
        ≡ start_ue lib made.0 (length target.ues) fresh (xn_request ue rx tx) =
      rw (result, connect_ue) (rw object refl) in
    rw (free, gnb_listen)
      (handled
        ∙ ap
            (λ (r : GnbContext × Option ℕ).
              start_ue lib r.0 (length target.ues) fresh (xn_request ue rx tx))
            is_made
        ∙ switched lib target amf ue rx tx writes)

-- An Xn handover of a UE that the source knows and the target does not, over channels that are open, and
-- with an active AMF to select at the target, over whose connection the target's request can be
-- written: the trigger sends the target the request and the UE the new channels; when the target has
-- handled the request, it has the UE under a fresh RAN id and under its PacketRusher id, ready, with
-- the source's sessions and AMF UE id and the new channels, at the selected AMF, and has sent this AMF
-- the request to switch the path.
pub xn_handover-Arrived :
    (lib : NgapLib) (source target : GnbContext) (order : List GnbAmf) (amf : GnbAmf)
    (pr_ue_id p rx tx inbound c : ℕ) (ue : GnbUe)
    → get_gnb_ue_by_pr_ue_id source pr_ue_id ≡ some p
    → ue_at source p ≡ some ue
    → target.control_info.inbound_channel ≡ some inbound
    → contains target.closed inbound ≡ false
    → ue.gnb_tx ≡ some c
    → contains source.closed c ≡ false
    → select_amf_by_active order ≡ some amf
    → get_gnb_ue_by_pr_ue_id target ue.pr_ue_id ≡ none
    → (ue.pr_ue_id == 0) ≡ false
    → Writes lib amf.tnla.sctp_conn (switch_bytes lib target amf ue rx tx)
    → (trigger_xn_handover source target pr_ue_id rx tx
        ≡ ok (
            to_gnb inbound (xn_request ue rx tx)
            ∷ to_ue c (new_connection rx tx (some inbound))
            ∷ []))
      × ((target' : GnbContext) × (gnb_listen lib order target (xn_request ue rx tx)
            ≡ ok (
              target',
              to_amf amf.tnla.sctp_conn (switch_bytes lib target amf ue rx tx)
                  ∷ process_connection (length target.ues)
                  ∷ [],
            ))
          × Arrived target target' amf ue rx tx)
xn_handover-Arrived lib source target order amf pr_ue_id p rx tx inbound c ue known at channel
      open_in tx_is open_tx selected unknown nonzero writes =
    (
      xn_triggered source target pr_ue_id p rx tx inbound c ue known at channel open_in tx_is
          open_tx,
      (
        arrival target amf ue rx tx,
        xn_arrives lib order target amf ue rx tx selected unknown writes,
        arrived target amf ue rx tx nonzero,
      ),
    )
