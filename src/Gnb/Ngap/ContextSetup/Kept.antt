-- ===== src/Gnb/Ngap/ContextSetup/Kept.antt =====
-- What an Initial Context Setup Request does to the pools.
use packet_rusher.Base.{
  ℕ, suc, ◌+◌, ◌<◌, ◌≡◌, Option, none, some, List, [], ◌∷◌, ok, ◌>>=◌, arith, length, bind, after,
  weaken,
}
use packet_rusher.Gnb.Ue.{create_ue_context}
use packet_rusher.Gnb.Ue.Ids.{HasIdsOf, create_ue_context-ids}
use packet_rusher.Gnb.Context.{GnbContext, uint32_mod}
use packet_rusher.Gnb.Context.Pools.{ue_at}
use packet_rusher.Gnb.Context.Kept.{Kept, Keeps, Kept-refl, Kept-trans, Kept-more, deref-at}
use packet_rusher.Gnb.Messages.{zero_message, put_ue}
use packet_rusher.Gnb.Ngap.{NgapLib, Ie, SetupItem, TransferIe, ue_of}
use packet_rusher.Gnb.Ngap.Ies.{Locals, read_context}
use packet_rusher.Gnb.Ngap.Ies.Counts.{count_items, requested, read_context-Reads}
use packet_rusher.Gnb.Ngap.Triggers.{bytes_of, send_initial_context_setup_response}
use packet_rusher.Gnb.Ngap.Ues.{plain_setup, tell_nas_if}
use packet_rusher.Gnb.Ngap.Ues.Kept.{
  for_request-Keeps, then-Keeps, put_ue-Kept, with_ue-Keeps, tell-Keeps, tell_nas_if-Keeps,
  plain_setup-Kept,
}
use packet_rusher.Gnb.Ngap.ContextSetup.{
  context_item, context_items, context_list, tell_sessions, setup_context,
  handler_initial_context_setup_request,
}

module _ (lib : NgapLib) where
  context_item-Keeps :
      (p : ℕ) (item : SetupItem) (gnb : GnbContext)
      → gnb.teid_generator + 1 < uint32_mod
      → Keeps 1 gnb (context_item lib p item gnb)
  unfolding context_item
  context_item-Keeps p item gnb small = go (lib.unmarshal_setup (bytes_of item.transfer))
    where
      go :
          (o : Option (List TransferIe))
          → Keeps 1 gnb (elim o [
            | none ↦ ok (gnb, [])
            | some ies ↦ plain_setup lib gnb p item ies >>= λ gnb'. tell_nas_if item.item_nas p gnb'
          ])
      go none = Kept-more (omega arith) (Kept-refl gnb)
      go (some ies) =
          bind (λ g. Kept 1 gnb g) (λ r. Kept 1 gnb r.0) (plain_setup lib gnb p item ies) _
            (plain_setup-Kept lib gnb p item ies small)
            (λ g kept.
              weaken (λ r. Kept 0 g r.0) (λ r. Kept 1 gnb r.0) (tell_nas_if item.item_nas p g)
                (tell_nas_if-Keeps item.item_nas p g)
                (λ r later. Kept-more (omega arith) (Kept-trans kept later)))

  context_items-Keeps :
      (p : ℕ) (items : List SetupItem) (gnb : GnbContext)
      → gnb.teid_generator + length items < uint32_mod
      → Keeps (length items) gnb (context_items lib p items gnb)
  unfolding context_items
  context_items-Keeps p [] gnb small = Kept-refl gnb
  context_items-Keeps p (item ∷ rest) gnb small =
      weaken (λ r. Kept (1 + length rest) gnb r.0) (λ r. Kept (suc (length rest)) gnb r.0) _
        (then-Keeps 1 (length rest) gnb (context_item lib p item gnb) (context_items lib p rest)
          (context_item-Keeps p item gnb (omega (arith, small)))
          (λ g kept. context_items-Keeps p rest g (omega (arith, small, kept.teids))))
        (λ r kept. Kept-more (omega arith) kept)

  tell_sessions-Keeps : (p : ℕ) (gnb : GnbContext) → Keeps 0 gnb (tell_sessions lib p gnb)
  unfolding tell_sessions
  tell_sessions-Keeps p gnb =
      after (λ r. Kept 0 gnb r.0) (ue_of gnb p) _
        (λ ue.
          tell-Keeps
            (record zero_message {
              gnb_pdu_sessions = ue.context.pdu_session;
              gnb_ip = gnb.data_ip_port.addr;
            })
            p gnb)

  context_list-Keeps :
      (p : ℕ) (items : Option (List SetupItem)) (gnb : GnbContext)
      → gnb.teid_generator + count_items items < uint32_mod
      → Keeps (count_items items) gnb (context_list lib p items gnb)
  context_list-Keeps p none gnb small = Kept-refl gnb
  context_list-Keeps p (some items) gnb small =
      weaken (λ r. Kept (length items + 0) gnb r.0) (λ r. Kept (length items) gnb r.0) _
        (then-Keeps (length items) 0 gnb (context_items lib p items gnb) (tell_sessions lib p)
          (context_items-Keeps p items gnb small) (λ g kept. tell_sessions-Keeps p g))
        (λ r kept. Kept-more (omega arith) kept)

  pub setup_context-Keeps :
      (l : Locals) (gnb : GnbContext) (p : ℕ)
      → gnb.teid_generator + count_items l.setup_list < uint32_mod
      → Keeps (count_items l.setup_list) gnb (setup_context lib l gnb p)
  unfolding setup_context
  setup_context-Keeps l gnb p small =
      let n = count_items l.setup_list in
      bind (λ ue. ue_at gnb p ≡ some ue) (λ r. Kept n gnb r.0) (ue_of gnb p) _
        (deref-at (ue_at gnb p))
        (λ ue at.
          bind (HasIdsOf ue) (λ r. Kept n gnb r.0)
            (create_ue_context ue l.mobility_restrict l.imeisv l.sst_list l.sd_list l.capabilities)
            _
            (create_ue_context-ids ue l.mobility_restrict l.imeisv l.sst_list l.sd_list
              l.capabilities)
            (λ ue' ids.
              let start = put_ue-Kept gnb p ue ue' at ids in
              weaken (λ r. Kept (0 + n + 0) (put_ue gnb p ue') r.0) (λ r. Kept n gnb r.0) _
                (then-Keeps (0 + n) 0 (put_ue gnb p ue') _ _
                  (then-Keeps 0 n (put_ue gnb p ue')
                    (tell_nas_if l.message_nas p (put_ue gnb p ue'))
                    (context_list lib p l.setup_list)
                    (tell_nas_if-Keeps l.message_nas p (put_ue gnb p ue'))
                    (λ g kept.
                      context_list-Keeps p l.setup_list g (omega (arith, small, kept.teids))))
                  (λ g kept.
                    with_ue-Keeps g p (λ now. send_initial_context_setup_response lib now g)))
                (λ r kept. Kept-more (omega arith) (Kept-trans start kept))))

  pub context_request-Keeps :
      (gnb : GnbContext) (ies : List Ie)
      → gnb.teid_generator + requested ies < uint32_mod
      → Keeps (requested ies) gnb (handler_initial_context_setup_request lib gnb ies)
  unfolding handler_initial_context_setup_request
  context_request-Keeps gnb ies small =
      for_request-Keeps gnb ies read_context (setup_context lib) read_context-Reads small
        (setup_context-Keeps)
