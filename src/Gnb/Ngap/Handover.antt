-- ===== src/Gnb/Ngap/Handover.antt =====
-- The other handlers of gnb/ngap/handler.go: the release of a UE's context, both handover messages,
-- paging and the error indication.
pub mod Kept
pub mod Released
mod Tests
use packet_rusher.Base.{
  ℕ, Bool, true, false, Option, none, some, List, [], ◌∷◌, ◌++◌, Outcome, ok, panic, fatal, ◌>>=◌,
  deref, map,
}
use packet_rusher.Gnb.Amf.{GnbAmf}
use packet_rusher.Gnb.Ue.{GnbUe, create_ue_context, not_informed}
use packet_rusher.Gnb.Context.{
  GnbContext, PagedUe, get_gnb_ue, new_gnb_ue, delete_gnb_ue, add_paged_ue,
}
use packet_rusher.Gnb.Messages.{Output, UeMessage, zero_message, put_ue, send_message_to_ue}
use packet_rusher.Gnb.Ngap.{
  NgapLib, Ie, Run, SetupItem, read_ies, mandatory, ue_of, send_from, ◌>>>◌,
}
use packet_rusher.Gnb.Ngap.Ies.{Locals, zero_locals, read_ids, read_handover}
use packet_rusher.Gnb.Ngap.Triggers.{
  bytes_of, send_ue_context_release_complete, send_handover_request_acknowledge, send_inbound,
  new_connection,
}
use packet_rusher.Gnb.Ngap.Ues.{for_ue, plain_setup}
use packet_rusher.Gnb.Ngap.Update.{amf_pool_values}

-- The RAN id of the pair of ids; a message with the AMF's id alone has a nil pair.
unfoldable pub read_pair : Ie → Option ℕ → Outcome (Option ℕ)
read_pair (Ie.ue_ngap_ids pair) id = deref pair >>= λ ran. ok (some ran)
read_pair _ id = ok id

-- What the AMF pages; the IEs that are missing are fatal.
pub read_paging : Ie → Option (Option ℕ) → Outcome (Option (Option ℕ))
read_paging (Ie.ue_paging_identity v) id = mandatory v >>= λ tmsi. ok (some tmsi)
read_paging (Ie.tai_list_for_paging v) id = mandatory v >>= λ l. ok id
read_paging _ id = ok id

-- `time` is the clock's.
pub handler_paging : GnbContext → ℕ → List Ie → Run
unfolding read_paging
handler_paging gnb time ies = read_ies read_paging ies none >>= λ id. deref id >>= λ tmsi.
    add_paged_ue gnb (record { five_g_s_tmsi = tmsi; timestamp = time }) >>= λ gnb'. ok (gnb', [])

pub handler_error_indication : GnbContext → List Ie → Run
handler_error_indication gnb ies = read_ies read_ids ies zero_locals >>= λ l. ok (gnb, [])

-- What the target gNB of an NGAP handover receives.
unfoldable pub ngap_request : GnbUe → ℕ → ℕ → UeMessage
ngap_request ue rx tx = record zero_message {
  gnb_rx = some rx;
  gnb_tx = some tx;
  pr_ue_id = ue.pr_ue_id;
  is_handover = true;
}

module _ (lib : NgapLib) where
  pub release_known : GnbContext → ℕ → Run
  release_known gnb p = delete_gnb_ue gnb p >>= λ gnb'.
      ue_of gnb' p >>= λ ue. send_from gnb' (send_ue_context_release_complete lib ue)

  -- An unknown UE is only logged.
  pub release_ue : GnbContext → ℕ → Run
  unfolding release_known
  release_ue gnb ran = elim (get_gnb_ue gnb ran) [
    | none ↦ ok (gnb, [])
    | some p ↦ release_known gnb p
  ]

  pub handler_ue_context_release_command : GnbContext → List Ie → Run
  unfolding release_ue read_pair
  handler_ue_context_release_command gnb ies =
      read_ies read_pair ies none >>= λ id. deref id >>= λ ran. release_ue gnb ran

  -- A transfer that cannot be decoded is skipped.
  pub handover_items : ℕ → List SetupItem → GnbContext → Outcome GnbContext
  handover_items p [] gnb = ok gnb
  handover_items p (item ∷ rest) gnb =
      (elim (lib.unmarshal_setup (bytes_of item.transfer)) [
        | none ↦ ok gnb
        | some ies ↦ plain_setup lib gnb p item ies
      ])
      >>= λ gnb'. handover_items p rest gnb'

  -- The UE object was created at `p`.
  pub admit_handover : Locals → GnbContext → ℕ → Run
  unfolding handover_items
  admit_handover l gnb p = ue_of gnb p >>= λ ue.
      create_ue_context (record ue { amf_ue_ngap_id = l.amf_id }) not_informed l.imeisv l.sst_list
        l.sd_list l.capabilities
      >>= λ ue'. deref l.setup_list >>= λ items.
          handover_items p items (put_ue gnb p ue') >>= λ gnb'.
          ue_of gnb' p >>= λ now. send_from gnb' (send_handover_request_acknowledge lib gnb' now)

  -- A UE without channels, under the PacketRusher id of the container.
  unfoldable pub create_handover : Locals → GnbContext → ℕ → Run
  unfolding admit_handover
  create_handover l gnb pr_ue_id =
      let (gnb', made) =
        new_gnb_ue (lib.visit (amf_pool_values gnb.amf_pool)) gnb none none pr_ue_id none in
      mandatory made >>= λ p. admit_handover l gnb' p

  -- A container that is missing, cannot be decoded or has no index is only logged.
  unfoldable pub handler_handover_request : GnbContext → List Ie → Run
  unfolding create_handover
  handler_handover_request gnb ies = read_ies read_handover ies zero_locals >>= λ l.
      elim l.container [
        | none ↦ ok (gnb, [])
        | some bytes ↦ elim (lib.unmarshal_container bytes) [
          | none ↦ ok (gnb, [])
          | some index ↦ elim index [
            | none ↦ ok (gnb, [])
            | some pr_ue_id ↦ create_handover l gnb pr_ue_id
          ]
        ]
      ]

  -- The channels `rx` and `tx` are those that `make` gives. A UE without a target is only logged.
  unfoldable pub command_for : ℕ → ℕ → GnbContext → ℕ → Run
  unfolding ngap_request
  command_for rx tx gnb p = ue_of gnb p >>= λ ue. elim ue.new_gnb [
    | none ↦ ok (gnb, [])
    | some target ↦
        let inbound = lib.inbound_channel_of target in
        send_from gnb (send_inbound inbound (ngap_request ue rx tx) (lib.closed_of target))
        >>> λ gnb'.
            send_from gnb' (send_message_to_ue ue (new_connection rx tx inbound) gnb'.closed)
  ]

  unfoldable pub handler_handover_command : GnbContext → ℕ → ℕ → List Ie → Run
  unfolding command_for
  handler_handover_command gnb rx tx ies =
      read_ies read_ids ies zero_locals >>= λ l. for_ue gnb l (command_for rx tx)
