-- ===== src/Gnb/Ngap/Handover/Kept.antt =====
-- What the release of a context, a handover and paging do to the pools.
use packet_rusher.Base.{
  Bool, true, false, if◌then◌else◌, blocked, ◌++◌, ℕ, suc, ◌+◌, ◌<◌, ◌≡◌, refl, Option, none, some,
  List, [], ◌∷◌, ok, ◌>>=◌, arith, length, Post, bind, after, weaken, deref,
}
use packet_rusher.Gnb.Ue.{GnbUe, create_ue_context, not_informed}
use packet_rusher.Gnb.Ue.Ids.{HasIdsOf, create_ue_context-ids}
use packet_rusher.Gnb.Context.{
  GnbContext, PagedUe, get_gnb_ue, delete_gnb_ue, new_gnb_ue, add_paged_ue, uint32_mod, int64_mod,
}
use packet_rusher.Gnb.Context.Pools.{ue_at}
use packet_rusher.Gnb.Context.Invariant.{here, next, adjust, SameIds-refl}
use packet_rusher.Gnb.Context.Kept.{
  Kept, Keeps, Kept-refl, Kept-trans, Kept-more, Kept-connect, deref-at, delete_gnb_ue-Kept,
}
use packet_rusher.Gnb.Messages.{put_ue, send_message_to_ue}
use packet_rusher.Gnb.Ngap.{
  NgapLib, Ie, SetupItem, TransferIe, read_ies, mandatory, ue_of, send_from, ◌>>>◌,
}
use packet_rusher.Gnb.Ngap.Ies.{Locals, zero_locals, read_handover, read_ids}
use packet_rusher.Gnb.Ngap.Ies.Counts.{
  count_items, requested, requested-Grows, read_handover-Reads, Grows,
}
use packet_rusher.Gnb.Ngap.Triggers.{
  bytes_of, send_ue_context_release_complete, send_handover_request_acknowledge, send_inbound,
  new_connection,
}
use packet_rusher.Gnb.Ngap.Ues.{plain_setup}
use packet_rusher.Gnb.Ngap.Ues.Kept.{
  for_ue-Keeps, then-Keeps, put_ue-Kept, with_ue-Keeps, send_from-Keeps, plain_setup-Kept,
}
use packet_rusher.Gnb.Ngap.Update.{amf_pool_values}
use packet_rusher.Gnb.Ngap.Handover.{
  release_ue, read_pair, read_paging, handler_paging, ngap_request, release_known,
  handler_ue_context_release_command, handover_items, admit_handover, create_handover,
  handler_handover_request, command_for, handler_handover_command, handler_error_indication,
}

add_paged_ue-Kept :
    (gnb : GnbContext) (paged : PagedUe) → Post (λ g. Kept 0 gnb g) (add_paged_ue gnb paged)
unfolding add_paged_ue
add_paged_ue-Kept gnb paged = go gnb.paged_ue_locked
  where
    go :
        (b : Bool)
        → Post
            (λ g. Kept 0 gnb g)
            (if b then blocked else ok (record gnb { paged_ues = gnb.paged_ues ++ paged ∷ [] }))
    go true = tt
    go false = record {
      path = next here (
          adjust (record gnb { paged_ues = gnb.paged_ues ++ paged ∷ [] }) refl refl refl refl refl
            (SameIds-refl gnb.ues));
      teids = omega arith;
    }

pub handler_paging-Keeps :
    (gnb : GnbContext) (time : ℕ) (ies : List Ie) → Keeps 0 gnb (handler_paging gnb time ies)
unfolding handler_paging
handler_paging-Keeps gnb time ies =
    after (λ r. Kept 0 gnb r.0) (read_ies read_paging ies none) _
      (λ id.
        after (λ r. Kept 0 gnb r.0) (deref id) _
          (λ tmsi.
            bind (λ g. Kept 0 gnb g) (λ r. Kept 0 gnb r.0)
              (add_paged_ue gnb (record { five_g_s_tmsi = tmsi; timestamp = time })) _
              (add_paged_ue-Kept gnb (record { five_g_s_tmsi = tmsi; timestamp = time }))
              (λ g kept. kept)))

module _ (lib : NgapLib) where
  release_known-Keeps : (gnb : GnbContext) (p : ℕ) → Keeps 0 gnb (release_known lib gnb p)
  unfolding release_known
  release_known-Keeps gnb p =
      bind (λ g. Kept 0 gnb g) (λ r. Kept 0 gnb r.0) (delete_gnb_ue gnb p) _
        (delete_gnb_ue-Kept gnb p)
        (λ g kept.
          weaken (λ r. Kept 0 g r.0) (λ r. Kept 0 gnb r.0) _
            (with_ue-Keeps g p (send_ue_context_release_complete lib))
            (λ r later. Kept-more (omega arith) (Kept-trans kept later)))

  pub handler_ue_context_release_command-Keeps :
      (gnb : GnbContext) (ies : List Ie)
      → Keeps 0 gnb (handler_ue_context_release_command lib gnb ies)
  unfolding handler_ue_context_release_command release_ue
  handler_ue_context_release_command-Keeps gnb ies =
      after (λ r. Kept 0 gnb r.0) (read_ies read_pair ies none) _
        (λ id. after (λ r. Kept 0 gnb r.0) (deref id) _ (λ ran. go (get_gnb_ue gnb ran)))
    where
      go :
          (found : Option ℕ)
          → Keeps 0 gnb (elim found [ none ↦ ok (gnb, []) | some p ↦ release_known lib gnb p ])
      go none = Kept-refl gnb
      go (some p) = release_known-Keeps gnb p

  handover_item-Kept :
      (p : ℕ) (item : SetupItem) (gnb : GnbContext) (o : Option (List TransferIe))
      → gnb.teid_generator + 1 < uint32_mod
      → Post
          (λ g. Kept 1 gnb g)
          (elim o [ none ↦ ok gnb | some ies ↦ plain_setup lib gnb p item ies ])
  handover_item-Kept p item gnb none small = Kept-more (omega arith) (Kept-refl gnb)
  handover_item-Kept p item gnb (some ies) small = plain_setup-Kept lib gnb p item ies small

  handover_items-Kept :
      (p : ℕ) (items : List SetupItem) (gnb : GnbContext)
      → gnb.teid_generator + length items < uint32_mod
      → Post (λ g. Kept (length items) gnb g) (handover_items lib p items gnb)
  unfolding handover_items
  handover_items-Kept p [] gnb small = Kept-refl gnb
  handover_items-Kept p (item ∷ rest) gnb small =
      bind (λ g. Kept 1 gnb g) (λ g. Kept (suc (length rest)) gnb g) _ _
        (handover_item-Kept p item gnb (lib.unmarshal_setup (bytes_of item.transfer))
          (omega (arith, small)))
        (λ g kept.
          weaken (λ h. Kept (length rest) g h) (λ h. Kept (suc (length rest)) gnb h)
            (handover_items lib p rest g)
            (handover_items-Kept p rest g (omega (arith, small, kept.teids)))
            (λ h later. Kept-more (omega arith) (Kept-trans kept later)))

  admit_handover-Keeps :
      (l : Locals) (gnb : GnbContext) (p : ℕ)
      → gnb.teid_generator + count_items l.setup_list < uint32_mod
      → Keeps (count_items l.setup_list) gnb (admit_handover lib l gnb p)
  unfolding admit_handover
  admit_handover-Keeps l gnb p small =
      let n = count_items l.setup_list in
      bind (λ ue. ue_at gnb p ≡ some ue) (λ r. Kept n gnb r.0) (ue_of gnb p) _
        (deref-at (ue_at gnb p))
        (λ ue at.
          let named : GnbUe = record ue { amf_ue_ngap_id = l.amf_id } in
          bind (HasIdsOf named) (λ r. Kept n gnb r.0)
            (create_ue_context named not_informed l.imeisv l.sst_list l.sd_list l.capabilities) _
            (create_ue_context-ids named not_informed l.imeisv l.sst_list l.sd_list l.capabilities)
            (λ ue' ids.
              let start = put_ue-Kept gnb p ue ue' at (record { ran = ids.ran; pr = ids.pr }) in
              items_after (put_ue gnb p ue') start l.setup_list small))
    where
      items_after :
          (g : GnbContext)
          → Kept 0 gnb g
          → (list : Option (List SetupItem)) → gnb.teid_generator + count_items list < uint32_mod
          → Keeps (count_items list) gnb (
              deref list >>= λ items. handover_items lib p items g >>= λ gnb'.
              ue_of gnb' p >>= λ now.
              send_from gnb' (send_handover_request_acknowledge lib gnb' now))
      items_after g start none small' = tt
      items_after g start (some items) small' =
          bind (λ h. Kept (length items) g h) (λ r. Kept (length items) gnb r.0)
            (handover_items lib p items g) _
            (handover_items-Kept p items g (omega (arith, small', start.teids)))
            (λ h kept.
              weaken (λ r. Kept 0 h r.0) (λ r. Kept (length items) gnb r.0) _
                (with_ue-Keeps h p (send_handover_request_acknowledge lib h))
                (λ r later. Kept-more (omega arith) (Kept-trans (Kept-trans start kept) later)))

  create_handover-Keeps :
      (l : Locals) (gnb : GnbContext) (pr_ue_id : ℕ)
      → gnb.teid_generator + count_items l.setup_list < uint32_mod
      → gnb.id_ue_generator + 1 < int64_mod
      → Keeps (count_items l.setup_list) gnb (create_handover lib l gnb pr_ue_id)
  unfolding create_handover
  create_handover-Keeps l gnb pr_ue_id small ids =
      let n = count_items l.setup_list in
      let order = lib.visit (amf_pool_values gnb.amf_pool) in
      let made = new_gnb_ue order gnb none none pr_ue_id none in
      let start = Kept-connect order gnb none none pr_ue_id none ids in
      after (λ r. Kept n gnb r.0) (mandatory made.1) _
        (λ p.
          weaken (λ r. Kept n made.0 r.0) (λ r. Kept n gnb r.0) (admit_handover lib l made.0 p)
            (admit_handover-Keeps l made.0 p (omega (arith, small, start.teids)))
            (λ r later. Kept-more (omega arith) (Kept-trans start later)))

  pub handler_handover_request-Keeps :
      (gnb : GnbContext) (ies : List Ie)
      → gnb.teid_generator + requested ies < uint32_mod
      → gnb.id_ue_generator + 1 < int64_mod
      → Keeps (requested ies) gnb (handler_handover_request lib gnb ies)
  unfolding handler_handover_request
  handler_handover_request-Keeps gnb ies small ids =
      bind (Grows (requested ies) zero_locals) (λ r. Kept (requested ies) gnb r.0)
        (read_ies read_handover ies zero_locals) _
        (requested-Grows read_handover ies zero_locals read_handover-Reads)
        (λ l h. container l h l.container)
    where
      zero-Kept : Kept (requested ies) gnb gnb
      zero-Kept = Kept-more (omega arith) (Kept-refl gnb)

      indexed :
          (l : Locals)
          → Grows (requested ies) zero_locals l
          → (index : Option ℕ)
          → Keeps (requested ies) gnb (elim index [
            | none ↦ ok (gnb, [])
            | some pr_ue_id ↦ create_handover lib l gnb pr_ue_id
          ])
      indexed l h none = zero-Kept
      indexed l h (some pr_ue_id) =
          weaken (λ r. Kept (count_items l.setup_list) gnb r.0) (λ r. Kept (requested ies) gnb r.0)
            (create_handover lib l gnb pr_ue_id)
            (create_handover-Keeps l gnb pr_ue_id (omega (arith, small, h)) ids)
            (λ r kept. Kept-more (omega (arith, h)) kept)

      decoded :
          (l : Locals)
          → Grows (requested ies) zero_locals l
          → (o : Option (Option ℕ))
          → Keeps (requested ies) gnb (elim o [
            | none ↦ ok (gnb, [])
            | some index ↦ elim index [
              | none ↦ ok (gnb, [])
              | some pr_ue_id ↦ create_handover lib l gnb pr_ue_id
            ]
          ])
      decoded l h none = zero-Kept
      decoded l h (some index) = indexed l h index

      container :
          (l : Locals)
          → Grows (requested ies) zero_locals l
          → (c : Option (List ℕ))
          → Keeps (requested ies) gnb (elim c [
            | none ↦ ok (gnb, [])
            | some bytes ↦ elim (lib.unmarshal_container bytes) [
              | none ↦ ok (gnb, [])
              | some index ↦ elim index [
                | none ↦ ok (gnb, [])
                | some pr_ue_id ↦ create_handover lib l gnb pr_ue_id
              ]
            ]
          ])
      container l h none = zero-Kept
      container l h (some bytes) = decoded l h (lib.unmarshal_container bytes)

  pub command_for-Keeps :
      (rx tx : ℕ) (gnb : GnbContext) (p : ℕ) → Keeps 0 gnb (command_for lib rx tx gnb p)
  unfolding command_for
  command_for-Keeps rx tx gnb p =
      after (λ r. Kept 0 gnb r.0) (ue_of gnb p) _ (λ ue. go ue ue.new_gnb)
    where
      go :
          (ue : GnbUe) (target : Option ℕ)
          → Keeps 0 gnb (elim target [
            | none ↦ ok (gnb, [])
            | some t ↦
                let inbound = lib.inbound_channel_of t in
                send_from gnb (send_inbound inbound (ngap_request ue rx tx) (lib.closed_of t))
                >>> λ gnb'.
                    send_from gnb'
                      (send_message_to_ue ue (new_connection rx tx inbound) gnb'.closed)
          ])
      go ue none = Kept-refl gnb
      go ue (some t) =
          let inbound = lib.inbound_channel_of t in
          weaken (λ r. Kept (0 + 0) gnb r.0) (λ r. Kept 0 gnb r.0) _
            (then-Keeps 0 0 gnb _ _
              (send_from-Keeps 0 gnb gnb
                (send_inbound inbound (ngap_request ue rx tx) (lib.closed_of t)) (Kept-refl gnb))
              (λ g kept.
                send_from-Keeps 0 g g
                  (send_message_to_ue ue (new_connection rx tx inbound) g.closed) (Kept-refl g)))
            (λ r kept. Kept-more (omega arith) kept)

  pub command-Keeps :
      (gnb : GnbContext) (rx tx : ℕ) (ies : List Ie)
      → Keeps 0 gnb (handler_handover_command lib gnb rx tx ies)
  unfolding handler_handover_command
  command-Keeps gnb rx tx ies =
      after (λ r. Kept 0 gnb r.0) (read_ies read_ids ies zero_locals) _
        (λ l.
          for_ue-Keeps 0 gnb l (command_for lib rx tx) (λ g p kept. command_for-Keeps rx tx g p))

pub error_indication-Keeps :
    (gnb : GnbContext) (ies : List Ie) → Keeps 0 gnb (handler_error_indication gnb ies)
unfolding handler_error_indication
error_indication-Keeps gnb ies =
    after (λ r. Kept 0 gnb r.0) (read_ies read_ids ies zero_locals) _ (λ l. Kept-refl gnb)
