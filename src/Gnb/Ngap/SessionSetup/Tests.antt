-- ===== src/Gnb/Ngap/SessionSetup/Tests.antt =====
-- A session that is set up, and one that is refused.
use packet_rusher.Base.{◌≡◌, refl, true, false, some, none, [], ◌∷◌, codes, ok, panic, arith}
use packet_rusher.Base.Int.{pos}
use packet_rusher.Plmn.Hex.{encode_hex}
use packet_rusher.Gnb.Ue.{
  GnbPduSession, is_wanted_nssai, wanted_loop, with_session, create_pdu_session, put_session, slot,
  is_refused_id, error, slice_not_selected,
}
use packet_rusher.Gnb.Context.{
  GnbContext, contains, get_gnb_ue_by_teid, store_ue, new_ran_gnb_context,
}
use packet_rusher.Gnb.Context.Pools.{ue_at}
use packet_rusher.Gnb.Messages.{to_ue, zero_message}
use packet_rusher.Gnb.Samples.{sample_ue}
use packet_rusher.Gnb.Ngap.{SetupItem, TransferIe, big_endian_uint32, informed}
use packet_rusher.Gnb.Ngap.Samples.{sample_lib, with_ue, with_ue-at, uplink_tunnel}
use packet_rusher.Gnb.Ngap.SessionSetup.{
  TransferLocals, zero_transfer, read_transfer, read_transfer_ie, requested_session, dotted,
  setup_item, session_message,
}
use packet_rusher.Gnb.Ngap.SessionSetup.Accepted.{
  IsReadable, accepted_session_stored, refused_session_panics,
}

abbrev item : SetupItem
item = record {
  item_id = pos 1;
  item_nas = some (42 ∷ []);
  snssai = record { sst_value = some (1 ∷ []); sd_value = some (17 ∷ 34 ∷ 51 ∷ []) };
  transfer = some (5 ∷ []);
}

-- Without a slice differentiator.
abbrev unwanted_item : SetupItem
unwanted_item = record item { snssai = record { sst_value = some (1 ∷ []); sd_value = none } }

abbrev read_item : TransferLocals
read_item = record zero_transfer { ul_teid = 258; upf_address = 10 ∷ 0 ∷ 0 ∷ 254 ∷ [] }

readable :
    (i : SetupItem)
    → i.item_nas ≡ some (42 ∷ [])
    → i.transfer ≡ some (5 ∷ [])
    → IsReadable sample_lib i (42 ∷ []) read_item (codes "10.0.0.254")
unfolding read_transfer read_transfer_ie big_endian_uint32 dotted
readable i nas transfer = record {
  bytes = 5 ∷ [];
  ies = TransferIe.ul_ngu_up_tnl_information uplink_tunnel ∷ [];
  has_nas = nas;
  has_transfer = transfer;
  decoded = refl;
  read = refl;
  address = refl;
}

item-wanted :
    is_wanted_nssai sample_ue (informed item.snssai.sst_value) (informed item.snssai.sd_value)
    ≡ true
unfolding is_wanted_nssai wanted_loop encode_hex
item-wanted = refl

abbrev session : GnbPduSession
session = requested_session item read_item (codes "10.0.0.254") with_ue.teid_generator

channel_open : contains with_ue.closed 11 ≡ false
unfolding store_ue new_ran_gnb_context
channel_open = refl

accepted_session_stored_example :
    (gnb' : GnbContext) × (setup_item sample_lib 0 item with_ue
      ≡ ok (
        gnb',
        to_ue 11 (record zero_message { is_nas = true; nas = 42 ∷ [] })
            ∷ to_ue 11 (session_message with_ue (some session))
            ∷ [],
        session,
      ))
    × (ue_at gnb' 0 ≡ some (with_session sample_ue 0 (some session)))
    × (get_gnb_ue_by_teid gnb' session.downlink_teid ≡ some 0)
    × (session.pdu_session_id ≡ pos 1)
accepted_session_stored_example =
    accepted_session_stored sample_lib 0 11 0 item with_ue sample_ue (42 ∷ []) read_item
      (codes "10.0.0.254") (readable item refl refl) with_ue-at refl channel_open refl (omega arith)
      refl item-wanted

session_refused :
    create_pdu_session sample_ue
      (requested_session unwanted_item read_item (codes "10.0.0.254") with_ue.teid_generator)
    ≡ ok (error slice_not_selected)
unfolding create_pdu_session put_session slot is_refused_id is_wanted_nssai wanted_loop
    requested_session encode_hex
session_refused = refl

refused_session_panics_example : setup_item sample_lib 0 unwanted_item with_ue ≡ panic
refused_session_panics_example =
    refused_session_panics sample_lib 0 unwanted_item with_ue sample_ue (42 ∷ []) read_item
      (codes "10.0.0.254") slice_not_selected (readable unwanted_item refl refl) with_ue-at
      session_refused
