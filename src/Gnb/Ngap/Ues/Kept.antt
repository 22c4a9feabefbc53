-- ===== src/Gnb/Ngap/Ues/Kept.antt =====
-- What the shared parts of the handlers do to the pools.
use packet_rusher.Base.{
  ℕ, ◌+◌, ◌<◌, ◌≡◌, refl, Option, none, some, List, [], Outcome, ok, ◌>>=◌, arith, within, Post,
  bind, after, weaken,
}
use packet_rusher.Gnb.Ue.{GnbUe, GnbPduSession, Request, Result, done, error, create_pdu_session}
use packet_rusher.Gnb.Ue.Ids.{HasIdsOf, HasIdsIn, create_pdu_session-ids}
use packet_rusher.Gnb.Context.{GnbContext, get_ue_teid, get_gnb_ue, uint32_mod}
use packet_rusher.Gnb.Context.Pools.{ue_at}
use packet_rusher.Gnb.Context.Kept.{
  Kept, Keeps, Kept-refl, Kept-trans, Kept-more, Kept-change, Kept-tunnel, deref-at,
}
use packet_rusher.Gnb.Messages.{Output, UeMessage, put_ue, send_message_to_ue, send_to_ue}
use packet_rusher.Gnb.Ngap.{
  NgapLib, Run, SetupItem, TransferIe, ue_of, send_from, get_ue_from_context, ◌>>>◌,
  big_endian_uint32, Ie, read_ies,
}
use packet_rusher.Gnb.Ngap.Ies.{Locals, zero_locals, read_downlink}
use packet_rusher.Gnb.Ngap.Ies.Counts.{requested, requested-Grows, Grows, Reads, count_items}
use packet_rusher.Gnb.Ngap.Triggers.{bytes_of}
use packet_rusher.Gnb.Ngap.Ues.{
  for_ue, tell, tell_nas, tell_nas_if, created, create_for, last_tunnel, plain_session, plain_setup,
  teid_of, handler_downlink_nas_transport,
}

-- Two parts of a handler, one after the other.
pub then-Keeps :
    (m n : ℕ) (gnb : GnbContext) (first : Run) (second : GnbContext → Run)
    → Keeps m gnb first
    → ((g : GnbContext) → Kept m gnb g → Keeps n g (second g))
    → Keeps (m + n) gnb (first >>> second)
then-Keeps m n gnb first second h k =
    bind (λ r. Kept m gnb r.0) (λ r. Kept (m + n) gnb r.0) first _ h
      (λ r kept.
        bind (λ s. Kept n r.0 s.0) (λ s. Kept (m + n) gnb s.0) (second r.0) _ (k r.0 kept)
          (λ s later. Kept-trans kept later))

-- The UE object at `p` replaced by one with its ids.
pub put_ue-Kept :
    (gnb : GnbContext) (p : ℕ) (old ue : GnbUe)
    → ue_at gnb p ≡ some old
    → HasIdsOf old ue
    → Kept 0 gnb (put_ue gnb p ue)
put_ue-Kept gnb p old ue at ids = Kept-change gnb p old ue at ids.ran ids.pr

pub send_from-Keeps :
    (n : ℕ) (gnb gnb' : GnbContext) (sent : Outcome (List Output))
    → Kept n gnb gnb'
    → Keeps n gnb (send_from gnb' sent)
send_from-Keeps n gnb gnb' sent kept = after (λ r. Kept n gnb r.0) sent _ (λ out. kept)

-- What is sent with a UE object changes nothing.
pub with_ue-Keeps :
    (gnb : GnbContext) (p : ℕ) (sent : GnbUe → Outcome (List Output))
    → Keeps 0 gnb (ue_of gnb p >>= λ ue. send_from gnb (sent ue))
with_ue-Keeps gnb p sent =
    after (λ r. Kept 0 gnb r.0) (ue_of gnb p) _
      (λ ue. send_from-Keeps 0 gnb gnb (sent ue) (Kept-refl gnb))

pub tell-Keeps : (m : UeMessage) (p : ℕ) (gnb : GnbContext) → Keeps 0 gnb (tell m p gnb)
unfolding tell
tell-Keeps m p gnb = with_ue-Keeps gnb p (λ ue. send_message_to_ue ue m gnb.closed)

pub tell_nas-Keeps : (m : List ℕ) (p : ℕ) (gnb : GnbContext) → Keeps 0 gnb (tell_nas m p gnb)
unfolding tell_nas
tell_nas-Keeps m p gnb = with_ue-Keeps gnb p (λ ue. send_to_ue ue m gnb.closed)

pub tell_nas_if-Keeps :
    (m : Option (List ℕ)) (p : ℕ) (gnb : GnbContext) → Keeps 0 gnb (tell_nas_if m p gnb)
tell_nas_if-Keeps none p gnb = Kept-refl gnb
tell_nas_if-Keeps (some m) p gnb = tell_nas-Keeps m p gnb

-- What `getUeFromContext` gives changes only the AMF's id of the UE.
get_ue_from_context-Kept :
    (gnb : GnbContext) (ran amf : ℕ) → Post (λ r. Kept 0 gnb r.0) (get_ue_from_context gnb ran amf)
unfolding get_ue_from_context
get_ue_from_context-Kept gnb ran amf = go (get_gnb_ue gnb ran)
  where
    go :
        (found : Option ℕ)
        → Keeps {A = Option ℕ} 0 gnb (elim found [
          | none ↦ ok (gnb, none)
          | some p ↦
              ue_of gnb p >>= λ ue. ok (put_ue gnb p (record ue { amf_ue_ngap_id = amf }), some p)
        ])
    go none = Kept-refl gnb
    go (some p) =
        bind (λ ue. ue_at gnb p ≡ some ue) (λ r. Kept 0 gnb r.0) (ue_of gnb p) _
          (deref-at (ue_at gnb p))
          (λ ue at.
            put_ue-Kept gnb p ue (record ue { amf_ue_ngap_id = amf }) at
              (record { ran = refl; pr = refl }))

pub for_ue-Keeps :
    (n : ℕ) (gnb : GnbContext) (l : Locals) (body : GnbContext → ℕ → Run)
    → ((g : GnbContext) (p : ℕ) → Kept 0 gnb g → Keeps n g (body g p))
    → Keeps n gnb (for_ue gnb l body)
unfolding for_ue
for_ue-Keeps n gnb l body k =
    bind (λ r. Kept 0 gnb r.0) (λ r. Kept n gnb r.0) (get_ue_from_context gnb l.ran_id l.amf_id) _
      (get_ue_from_context-Kept gnb l.ran_id l.amf_id) (λ r kept. go r.0 r.1 kept)
  where
    go :
        (g : GnbContext) (found : Option ℕ)
        → Kept 0 gnb g
        → Keeps n gnb (elim found [ none ↦ ok (g, []) | some p ↦ body g p ])
    go g none kept = Kept-more (omega arith) kept
    go g (some p) kept =
        weaken (λ r. Kept n g r.0) (λ r. Kept n gnb r.0) (body g p) (k g p kept)
          (λ r later. Kept-more (omega arith) (Kept-trans kept later))

created-Kept :
    (gnb : GnbContext) (p : ℕ) (ue : GnbUe) (r : Result (GnbUe × GnbPduSession))
    → ue_at gnb p ≡ some ue
    → HasIdsIn ue r
    → Kept 0 gnb (created gnb p r).0
created-Kept gnb p ue (done r) at ids = put_ue-Kept gnb p ue r.0 at ids
created-Kept gnb p ue (error e) at ids = Kept-refl gnb

pub create_for-Kept :
    (gnb : GnbContext) (p : ℕ) (request : ℕ → Request)
    → gnb.teid_generator + 1 < uint32_mod
    → Post (λ r. Kept 1 gnb r.0) (create_for gnb p request)
unfolding create_for get_ue_teid
create_for-Kept gnb p request small =
    let tunnelled = (get_ue_teid gnb p).0 in
    bind (λ ue. ue_at gnb p ≡ some ue) (λ r. Kept 1 gnb r.0) (ue_of gnb p) _
      (deref-at (ue_at gnb p))
      (λ ue at.
        bind (HasIdsIn ue) (λ r. Kept 1 gnb r.0)
          (create_pdu_session ue (request gnb.teid_generator)) _
          (create_pdu_session-ids ue (request gnb.teid_generator))
          (λ r ids.
            Kept-trans (Kept-tunnel gnb p (within gnb.ues p ue at) small)
              (created-Kept tunnelled p ue r at ids)))

pub plain_setup-Kept :
    (lib : NgapLib) (gnb : GnbContext) (p : ℕ) (item : SetupItem) (ies : List TransferIe)
    → gnb.teid_generator + 1 < uint32_mod
    → Post (λ g. Kept 1 gnb g) (plain_setup lib gnb p item ies)
unfolding plain_setup
plain_setup-Kept lib gnb p item ies small =
    let t = last_tunnel ies none in
    after (λ g. Kept 1 gnb g) (big_endian_uint32 (teid_of lib t)) _
      (λ uplink.
        bind (λ r. Kept 1 gnb r.0) (λ g. Kept 1 gnb g)
          (create_for gnb p (plain_session lib item t uplink)) _
          (create_for-Kept gnb p (plain_session lib item t uplink) small) (λ r kept. kept))

pub downlink-Keeps :
    (gnb : GnbContext) (ies : List Ie) → Keeps 0 gnb (handler_downlink_nas_transport gnb ies)
unfolding handler_downlink_nas_transport
downlink-Keeps gnb ies =
    after (λ r. Kept 0 gnb r.0) (read_ies read_downlink ies zero_locals) _
      (λ l.
        for_ue-Keeps 0 gnb l (λ g p. tell_nas (bytes_of l.message_nas) p g)
          (λ g p kept. tell_nas-Keeps (bytes_of l.message_nas) p g))

-- A handler that reads a list of sessions to set up, and sets them up for the UE.
pub for_request-Keeps :
    (gnb : GnbContext) (ies : List Ie) (read : Ie → Locals → Outcome Locals)
    (body : Locals → GnbContext → ℕ → Run)
    → Reads read
    → gnb.teid_generator + requested ies < uint32_mod
    → ((l : Locals) (g : GnbContext) (p : ℕ)
        → g.teid_generator + count_items l.setup_list < uint32_mod
        → Keeps (count_items l.setup_list) g (body l g p))
    → Keeps (requested ies) gnb (read_ies read ies zero_locals >>= λ l. for_ue gnb l (body l))
for_request-Keeps gnb ies read body reads small k =
    bind (Grows (requested ies) zero_locals) (λ r. Kept (requested ies) gnb r.0)
      (read_ies read ies zero_locals) _ (requested-Grows read ies zero_locals reads)
      (λ l h. for_ue-Keeps (requested ies) gnb l (body l) (λ g p kept.
        weaken (λ r. Kept (count_items l.setup_list) g r.0) (λ r. Kept (requested ies) g r.0)
          (body l g p) (k l g p (omega (arith, small, kept.teids, h)))
          (λ r later. Kept-more (omega (arith, h)) later)))
