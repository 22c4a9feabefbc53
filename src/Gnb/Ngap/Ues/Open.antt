-- ===== src/Gnb/Ngap/Ues/Open.antt =====
-- What is sent to a UE whose channel is open.
use packet_rusher.Base.{ℕ, ◌≡◌, refl, true, false, some, List, [], ◌∷◌, ok}
use packet_rusher.Gnb.Ue.{GnbUe}
use packet_rusher.Gnb.Context.{GnbContext, contains}
use packet_rusher.Gnb.Context.Pools.{ue_at}
use packet_rusher.Gnb.Messages.{
  UeMessage, zero_message, to_ue, send_on, send_message_to_ue, send_to_ue,
}
use packet_rusher.Gnb.Ngap.Ues.{tell, tell_nas}

pub send_open :
    (c : ℕ) (gnb : GnbContext) (ue : GnbUe) (m : UeMessage)
    → ue.gnb_tx ≡ some c
    → contains gnb.closed c ≡ false
    → send_message_to_ue ue m gnb.closed ≡ ok (to_ue c m ∷ [])
unfolding send_message_to_ue send_on
send_open c gnb ue m tx open_tx = rw (tx, open_tx) refl

module _ (c p : ℕ) (gnb : GnbContext) (ue : GnbUe) (at : ue_at gnb p ≡ some ue)
    (tx : ue.gnb_tx ≡ some c) (open_tx : contains gnb.closed c ≡ false) where
  pub tell_open : (m : UeMessage) → tell m p gnb ≡ ok (gnb, to_ue c m ∷ [])
  unfolding tell
  tell_open m = rw (at, send_open c gnb ue m tx open_tx) refl

  pub tell_nas_open :
      (nas : List ℕ)
      → tell_nas nas p gnb
        ≡ ok (gnb, to_ue c (record zero_message { is_nas = true; nas = nas }) ∷ [])
  unfolding tell_nas send_to_ue
  tell_nas_open nas =
      rw (at, send_open c gnb ue (record zero_message { is_nas = true; nas = nas }) tx open_tx) refl
