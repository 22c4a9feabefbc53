-- ===== src/Gnb/Ngap/SessionSetup/Kept.antt =====
-- What a PDU Session Resource Setup Request does to the pools.
use packet_rusher.Base.{
  ℕ, suc, ◌+◌, ◌<◌, Option, none, some, List, [], ◌∷◌, ok, ◌>>=◌, arith, length, Post, bind, after,
  weaken, deref,
}
use packet_rusher.Gnb.Ue.{GnbPduSession, get_selected_nssai}
use packet_rusher.Gnb.Context.{GnbContext, uint32_mod}
use packet_rusher.Gnb.Context.Kept.{Kept, Keeps, Kept-refl, Kept-trans, Kept-more}
use packet_rusher.Gnb.Ngap.{NgapLib, Ie, SetupItem, mandatory, ue_of, ◌>>>◌}
use packet_rusher.Gnb.Ngap.Ies.{Locals, read_setup}
use packet_rusher.Gnb.Ngap.Triggers.{send_pdu_session_resource_setup_response}
use packet_rusher.Gnb.Ngap.Triggers.Kept.{setup_response-Keeps}
use packet_rusher.Gnb.Ngap.Ues.{tell_nas, tell, create_for}
use packet_rusher.Gnb.Ngap.Ues.Kept.{
  for_request-Keeps, then-Keeps, tell-Keeps, tell_nas-Keeps, create_for-Kept,
}
use packet_rusher.Gnb.Ngap.Ies.Counts.{count_items, requested, read_setup-Reads}
use packet_rusher.Gnb.Ngap.SessionSetup.{
  session_message, announce_session, requested_session, transfer_or_zero, dotted, setup_item,
  setup_items, setup_sessions, handler_pdu_session_resource_setup_request,
}

announce_session-Keeps :
    (nas : List ℕ) (p : ℕ) (gnb : GnbContext) (s : Option GnbPduSession)
    → Post (λ r. Kept 0 gnb r.0) (announce_session nas p gnb s)
unfolding announce_session
announce_session-Keeps nas p gnb none = tt
announce_session-Keeps nas p gnb (some s) =
    after (λ r. Kept 0 gnb r.0) (ue_of gnb p) _
      (λ ue.
        after (λ r. Kept 0 gnb r.0) (get_selected_nssai ue s.pdu_session_id) _
          (λ _.
            bind (λ r. Kept (0 + 0) gnb r.0) (λ r. Kept 0 gnb r.0)
              (tell_nas nas p gnb >>> tell (session_message gnb (some s)) p) _
              (then-Keeps 0 0 gnb (tell_nas nas p gnb) (tell (session_message gnb (some s)) p)
                (tell_nas-Keeps nas p gnb)
                (λ g kept. tell-Keeps (session_message gnb (some s)) p g))
              (λ r kept. Kept-more (omega arith) kept)))

module _ (lib : NgapLib) where
  setup_item-Keeps :
      (p : ℕ) (item : SetupItem) (gnb : GnbContext)
      → gnb.teid_generator + 1 < uint32_mod
      → Post (λ r. Kept 1 gnb r.0) (setup_item lib p item gnb)
  unfolding setup_item
  setup_item-Keeps p item gnb small =
      after (λ r. Kept 1 gnb r.0) (mandatory item.item_nas) _
        (λ nas.
          after (λ r. Kept 1 gnb r.0) (mandatory item.transfer) _
            (λ bytes.
              after (λ r. Kept 1 gnb r.0) (transfer_or_zero (lib.unmarshal_setup bytes)) _
                (λ l.
                  after (λ r. Kept 1 gnb r.0) (dotted l.upf_address) _
                    (λ ip.
                      bind (λ r. Kept 1 gnb r.0) (λ r. Kept 1 gnb r.0)
                        (create_for gnb p (requested_session item l ip)) _
                        (create_for-Kept gnb p (requested_session item l ip) small)
                        (λ made kept.
                          weaken (λ r. Kept 0 made.0 r.0) (λ r. Kept 1 gnb r.0)
                            (announce_session nas p made.0 made.1)
                            (announce_session-Keeps nas p made.0 made.1)
                            (λ r later. Kept-more (omega arith) (Kept-trans kept later)))))))

  setup_items-Keeps :
      (p : ℕ) (items : List SetupItem) (gnb : GnbContext)
      → gnb.teid_generator + length items < uint32_mod
      → Post (λ r. Kept (length items) gnb r.0) (setup_items lib p items gnb)
  unfolding setup_items
  setup_items-Keeps p [] gnb small = Kept-refl gnb
  setup_items-Keeps p (item ∷ rest) gnb small =
      bind (λ r. Kept 1 gnb r.0) (λ r. Kept (suc (length rest)) gnb r.0) (setup_item lib p item gnb)
        _ (setup_item-Keeps p item gnb (omega (arith, small)))
        (λ r kept.
          bind (λ t. Kept (length rest) r.0 t.0) (λ t. Kept (suc (length rest)) gnb t.0)
            (setup_items lib p rest r.0) _
            (setup_items-Keeps p rest r.0 (omega (arith, small, kept.teids)))
            (λ t later. Kept-more (omega arith) (Kept-trans kept later)))

  pub setup_sessions-Keeps :
      (l : Locals) (gnb : GnbContext) (p : ℕ)
      → gnb.teid_generator + count_items l.setup_list < uint32_mod
      → Keeps (count_items l.setup_list) gnb (setup_sessions lib l gnb p)
  unfolding setup_sessions
  setup_sessions-Keeps l gnb p small = go l.setup_list small
    where
      go :
          (list : Option (List SetupItem))
          → gnb.teid_generator + count_items list < uint32_mod
          → Keeps (count_items list) gnb (
              deref list >>= λ items. setup_items lib p items gnb >>= λ r.
              let (gnb', out, sessions) = r in
              ok (gnb', out) >>> send_pdu_session_resource_setup_response lib sessions p)
      go none small' = tt
      go (some items) small' =
          bind (λ r. Kept (length items) gnb r.0) (λ r. Kept (length items) gnb r.0)
            (setup_items lib p items gnb) _ (setup_items-Keeps p items gnb small')
            (λ r kept.
              bind (λ t. Kept 0 r.0 t.0) (λ t. Kept (length items) gnb t.0)
                (send_pdu_session_resource_setup_response lib r.2 p r.0) _
                (setup_response-Keeps lib r.2 p r.0)
                (λ t later. Kept-more (omega arith) (Kept-trans kept later)))

  pub session_request-Keeps :
      (gnb : GnbContext) (ies : List Ie)
      → gnb.teid_generator + requested ies < uint32_mod
      → Keeps (requested ies) gnb (handler_pdu_session_resource_setup_request lib gnb ies)
  unfolding handler_pdu_session_resource_setup_request
  session_request-Keeps gnb ies small =
      for_request-Keeps gnb ies read_setup (setup_sessions lib) read_setup-Reads small
        (setup_sessions-Keeps)
