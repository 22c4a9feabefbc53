-- ===== src/Gnb/Ngap/SessionSetup/Accepted.antt =====
-- How one item of a PDU Session Resource Setup Request ends.
use packet_rusher.Base.{
  ℕ, suc, ◌<◌, ◌≡◌, refl, ◌∙◌, true, false, none, some, List, [], ◌∷◌, ok, panic, arith, get_elem?,
  get_elem?-set_self, within, ap,
}
use packet_rusher.Base.Int.{pos}
use packet_rusher.Gnb.Ue.{
  GnbUe, GnbPduSession, Result, done, error, SessionError, create_pdu_session, with_session,
  is_wanted_nssai,
}
use packet_rusher.Gnb.Ue.Sessions.{create_within, put_wanted, selected_after}
use packet_rusher.Gnb.Context.{GnbContext, get_ue_teid, get_gnb_ue_by_teid, contains}
use packet_rusher.Gnb.Context.Pools.{ue_at}
use packet_rusher.Gnb.Messages.{UeMessage, to_ue, zero_message, put_ue}
use packet_rusher.Gnb.Ngap.{NgapLib, SetupItem, TransferIe, informed, ◌>>>◌}
use packet_rusher.Gnb.Ngap.Ues.{create_for, tell, tell_nas}
use packet_rusher.Gnb.Ngap.Ues.Open.{tell_open, tell_nas_open}
use packet_rusher.Gnb.Ngap.SessionSetup.{
  TransferLocals, zero_transfer, read_transfer, requested_session, dotted, setup_item,
  session_message, announce_session,
}

-- An item that can be read: its NAS PDU, its transfer, and the address of the UPF.
pub record IsReadable (lib : NgapLib) (item : SetupItem) (nas : List ℕ) (l : TransferLocals)
    (ip : List ℕ) : Type 0 where
  pub bytes : List ℕ
  pub ies : List TransferIe
  pub has_nas : item.item_nas ≡ some nas
  pub has_transfer : item.transfer ≡ some bytes
  pub decoded : lib.unmarshal_setup bytes ≡ some ies
  pub read : read_transfer ies zero_transfer ≡ ok l
  pub address : dotted l.upf_address ≡ ok ip

-- An item that can be read, for a session that the UE refuses, because its id is in use or its slice
-- is not allowed, ends in a panic.
pub refused_session_panics :
    (lib : NgapLib) (p : ℕ) (item : SetupItem) (gnb : GnbContext) (ue : GnbUe) (nas : List ℕ)
    (l : TransferLocals) (ip : List ℕ) (why : SessionError)
    → IsReadable lib item nas l ip
    → ue_at gnb p ≡ some ue
    → create_pdu_session ue (requested_session item l ip gnb.teid_generator) ≡ ok (error why)
    → setup_item lib p item gnb ≡ panic
unfolding setup_item create_for get_ue_teid announce_session
refused_session_panics lib p item gnb ue nas l ip why r at refused =
    rw (r.has_nas, r.has_transfer, r.decoded, r.read, r.address, at, refused) refl

told_open :
    (c p : ℕ) (gnb : GnbContext) (ue : GnbUe) (nas : List ℕ) (m : UeMessage)
    → ue_at gnb p ≡ some ue
    → ue.gnb_tx ≡ some c
    → contains gnb.closed c ≡ false
    → (tell_nas nas p gnb >>> tell m p)
      ≡ ok (gnb, to_ue c (record zero_message { is_nas = true; nas = nas }) ∷ to_ue c m ∷ [])
told_open c p gnb ue nas m at tx open_tx =
    rw (tell_nas_open c p gnb ue at tx open_tx nas, tell_open c p gnb ue at tx open_tx m) refl

-- An item that can be read, for a session whose id is free and between 1 and 16 and whose slice is
-- allowed, is set up if the channel to the UE is open: the session has the TEID that was next, which
-- then leads to the UE, stands in the UE's table under its id, and the UE gets the item's NAS message
-- and then the session with the gNB's address.
pub accepted_session_stored :
    (lib : NgapLib) (p c i : ℕ) (item : SetupItem) (gnb : GnbContext) (ue : GnbUe) (nas : List ℕ)
    (l : TransferLocals) (ip : List ℕ)
    → IsReadable lib item nas l ip
    → ue_at gnb p ≡ some ue
    → ue.gnb_tx ≡ some c
    → contains gnb.closed c ≡ false
    → item.item_id ≡ pos (suc i)
    → i < 16
    → get_elem? ue.context.pdu_session i ≡ some none
    → is_wanted_nssai ue (informed item.snssai.sst_value) (informed item.snssai.sd_value) ≡ true
    → let s = requested_session item l ip gnb.teid_generator in
      (gnb' : GnbContext) × (setup_item lib p item gnb
        ≡ ok (
          gnb',
          to_ue c (record zero_message { is_nas = true; nas = nas })
              ∷ to_ue c (session_message gnb (some s))
              ∷ [],
          s,
        ))
      × (ue_at gnb' p ≡ some (with_session ue i (some s)))
      × (get_gnb_ue_by_teid gnb' s.downlink_teid ≡ some p)
      × (s.pdu_session_id ≡ pos (suc i))
unfolding setup_item create_for get_ue_teid announce_session requested_session session_message
accepted_session_stored lib p c i item gnb ue nas l ip r at tx open_tx e h free wanted =
    let s = requested_session item l ip gnb.teid_generator in
    let ue' = with_session ue i (some s) in
    let gnb' = put_ue (get_ue_teid gnb p).0 p ue' in
    let there : ue_at gnb' p ≡ some ue' =
      get_elem?-set_self gnb.ues p ue' (within gnb.ues p ue at) in
    let made : create_pdu_session ue s ≡ ok (done (ue', s)) =
      create_within ue s i none e h free
      ∙ ap (λ (x : Result (GnbUe × GnbPduSession)). ok x) (put_wanted ue i s wanted) in
    let selected = selected_after ue i s e h (within ue.context.pdu_session i none free) in
    let told = told_open c p gnb' ue' nas (session_message gnb' (some s)) there tx open_tx in
    (
      gnb',
      rw (r.has_nas, r.has_transfer, r.decoded, r.read, r.address, at, made, there, selected, told)
          refl,
      there,
      ground arith,
      e,
    )
