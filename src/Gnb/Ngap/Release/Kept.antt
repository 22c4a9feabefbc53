-- ===== src/Gnb/Ngap/Release/Kept.antt =====
-- What a PDU Session Resource Release Command and a Path Switch Request Acknowledge do to the pools.
use packet_rusher.Base.{
  ℕ, ◌+◌, ◌≡◌, refl, ◌∙◌, Option, none, some, List, [], ◌∷◌, ok, ◌>>=◌, arith, Post, bind, after,
  weaken, deref,
}
use packet_rusher.Base.Int.{ℤ}
use packet_rusher.Gnb.Ue.{
  GnbUe, GnbPduSession, Result, done, error, get_pdu_session, delete_pdu_session, slot,
}
use packet_rusher.Gnb.Ue.Ids.{HasIdsOf, HasIdsLeft, ids_refl, delete_pdu_session-ids}
use packet_rusher.Gnb.Context.{GnbContext}
use packet_rusher.Gnb.Context.Pools.{ue_at}
use packet_rusher.Gnb.Context.Kept.{Kept, Keeps, Kept-refl, Kept-trans, Kept-more, deref-at}
use packet_rusher.Gnb.Messages.{put_ue}
use packet_rusher.Gnb.Ngap.{
  NgapLib, Ie, read_ies, Tunnel, SwitchedItem, ue_of, send_from, big_endian_uint32,
}
use packet_rusher.Gnb.Ngap.Ies.{Locals, zero_locals, read_release, read_switched}
use packet_rusher.Gnb.Ngap.Triggers.{bytes_of, send_pdu_session_release_response}
use packet_rusher.Gnb.Ngap.Ues.{tell_nas, tell}
use packet_rusher.Gnb.Ngap.Ues.Kept.{
  for_ue-Keeps, then-Keeps, put_ue-Kept, send_from-Keeps, tell-Keeps, tell_nas-Keeps,
}
use packet_rusher.Gnb.Ngap.Release.{
  left_after, delete_present, release_sessions, release_for, switch_tunnel, switch_found,
  switch_items, switch_for, first_session, handler_pdu_session_release_command,
  handler_path_switch_request_acknowledge,
}

pub ids_trans : {a b c : GnbUe} → HasIdsOf a b → HasIdsOf b c → HasIdsOf a c
ids_trans h k = record { ran = k.ran ∙ h.ran; pr = k.pr ∙ h.pr }

delete_present-ids :
    (ue : GnbUe) (id : ℤ) (found : Result (Option GnbPduSession))
    → Post (HasIdsOf ue) (delete_present ue id found)
unfolding delete_present
delete_present-ids ue id (error e) = ids_refl ue
delete_present-ids ue id (done none) = ids_refl ue
delete_present-ids ue id (done (some s)) =
    bind (HasIdsLeft ue) (HasIdsOf ue) (delete_pdu_session ue id) _ (delete_pdu_session-ids ue id)
      go
  where
    go : (r : Result GnbUe) → HasIdsLeft ue r → HasIdsOf ue (left_after ue r)
    go (done ue') h = h
    go (error e) h = ids_refl ue

release_sessions-ids : (ids : List ℤ) (ue : GnbUe) → Post (HasIdsOf ue) (release_sessions ids ue)
unfolding release_sessions
release_sessions-ids [] ue = ids_refl ue
release_sessions-ids (id ∷ rest) ue = after (HasIdsOf ue) (get_pdu_session ue id) _ (λ found.
    bind (HasIdsOf ue) (HasIdsOf ue) (delete_present ue id found) _ (delete_present-ids ue id found)
      (λ ue' h.
        weaken (HasIdsOf ue') (HasIdsOf ue) (release_sessions rest ue')
          (release_sessions-ids rest ue') (λ ue'' k. ids_trans h k)))

switch_tunnel-ids :
    (lib : NgapLib) (ue : GnbUe) (id : ℤ) (s : Option GnbPduSession) (t : Option Tunnel)
    → Post (λ r. HasIdsOf ue r.0) (switch_tunnel lib ue id s t)
unfolding switch_tunnel
switch_tunnel-ids lib ue id s none = ids_refl ue
switch_tunnel-ids lib ue id s (some t) =
    after (λ r. HasIdsOf ue r.0) (big_endian_uint32 t.gtp_teid) _
      (λ uplink.
        after (λ r. HasIdsOf ue r.0) (deref s) _
          (λ old. after (λ r. HasIdsOf ue r.0) (slot id) _ (λ i. record { ran = refl; pr = refl })))

module _ (lib : NgapLib) where
  pub release_for-Keeps :
      (l : Locals) (gnb : GnbContext) (p : ℕ) → Keeps 0 gnb (release_for lib l gnb p)
  unfolding release_for
  release_for-Keeps l gnb p =
      bind (λ ue. ue_at gnb p ≡ some ue) (λ r. Kept 0 gnb r.0) (ue_of gnb p) _
        (deref-at (ue_at gnb p))
        (λ ue at.
          bind (HasIdsOf ue) (λ r. Kept 0 gnb r.0) (release_sessions l.release_ids ue) _
            (release_sessions-ids l.release_ids ue)
            (λ ue' ids.
              let sent = send_pdu_session_release_response lib l.release_ids ue' in
              weaken (λ r. Kept (0 + 0) gnb r.0) (λ r. Kept 0 gnb r.0) _
                (then-Keeps 0 0 gnb (send_from (put_ue gnb p ue') sent)
                  (tell_nas (bytes_of l.message_nas) p)
                  (send_from-Keeps 0 gnb (put_ue gnb p ue') sent (put_ue-Kept gnb p ue ue' at ids))
                  (λ g kept. tell_nas-Keeps (bytes_of l.message_nas) p g))
                (λ r kept. Kept-more (omega arith) kept)))

  switch_found-Keeps :
      (p : ℕ) (item : SwitchedItem) (gnb : GnbContext) (ue : GnbUe)
      (found : Result (Option GnbPduSession))
      → ue_at gnb p ≡ some ue
      → Keeps 0 gnb (switch_found lib p item gnb ue found)
  unfolding switch_found
  switch_found-Keeps p item gnb ue (error e) at = Kept-refl gnb
  switch_found-Keeps p item gnb ue (done s) at = go (lib.unmarshal_switch item.switch_transfer)
    where
      go :
          (o : Option (Option Tunnel))
          → Keeps 0 gnb (elim o [
            | none ↦ ok (gnb, [])
            | some t ↦ switch_tunnel lib ue item.switched_id s t >>= λ r.
                tell (first_session gnb r.1) p (put_ue gnb p r.0)
          ])
      go none = Kept-refl gnb
      go (some t) =
          bind (λ r. HasIdsOf ue r.0) (λ r. Kept 0 gnb r.0)
            (switch_tunnel lib ue item.switched_id s t) _
            (switch_tunnel-ids lib ue item.switched_id s t)
            (λ r ids.
              weaken (λ q. Kept 0 (put_ue gnb p r.0) q.0) (λ q. Kept 0 gnb q.0) _
                (tell-Keeps (first_session gnb r.1) p (put_ue gnb p r.0))
                (λ q kept.
                  Kept-more (omega arith) (Kept-trans (put_ue-Kept gnb p ue r.0 at ids) kept)))

  switch_items-Keeps :
      (p : ℕ) (items : List SwitchedItem) (gnb : GnbContext)
      → Keeps 0 gnb (switch_items lib p items gnb)
  unfolding switch_items
  switch_items-Keeps p [] gnb = Kept-refl gnb
  switch_items-Keeps p (item ∷ rest) gnb =
      weaken (λ r. Kept (0 + 0) gnb r.0) (λ r. Kept 0 gnb r.0) _
        (then-Keeps 0 0 gnb _ (switch_items lib p rest)
          (bind (λ ue. ue_at gnb p ≡ some ue) (λ r. Kept 0 gnb r.0) (ue_of gnb p) _
            (deref-at (ue_at gnb p))
            (λ ue at.
              after (λ r. Kept 0 gnb r.0) (get_pdu_session ue item.switched_id) _
                (λ found. switch_found-Keeps p item gnb ue found at)))
          (λ g kept. switch_items-Keeps p rest g))
        (λ r kept. Kept-more (omega arith) kept)

  pub switch_for-Keeps :
      (l : Locals) (gnb : GnbContext) (p : ℕ) → Keeps 0 gnb (switch_for lib l gnb p)
  unfolding switch_for
  switch_for-Keeps l gnb p = go l.switched
    where
      go :
          (o : Option (List SwitchedItem))
          → Keeps 0 gnb (elim o [ none ↦ ok (gnb, []) | some items ↦ switch_items lib p items gnb ])
      go none = Kept-refl gnb
      go (some items) = switch_items-Keeps p items gnb

  pub release_command-Keeps :
      (gnb : GnbContext) (ies : List Ie)
      → Keeps 0 gnb (handler_pdu_session_release_command lib gnb ies)
  unfolding handler_pdu_session_release_command
  release_command-Keeps gnb ies =
      after (λ r. Kept 0 gnb r.0) (read_ies read_release ies zero_locals) _
        (λ l. for_ue-Keeps 0 gnb l (release_for lib l) (λ g p kept. release_for-Keeps l g p))

  pub path_switch-Keeps :
      (gnb : GnbContext) (ies : List Ie)
      → Keeps 0 gnb (handler_path_switch_request_acknowledge lib gnb ies)
  unfolding handler_path_switch_request_acknowledge
  path_switch-Keeps gnb ies =
      after (λ r. Kept 0 gnb r.0) (read_ies read_switched ies zero_locals) _
        (λ l. for_ue-Keeps 0 gnb l (switch_for lib l) (λ g p kept. switch_for-Keeps l g p))
