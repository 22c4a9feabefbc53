-- ===== src/Gnb/Listen/Tests.antt =====
-- Runs of the gNB's side of a UE's connection.
use packet_rusher.Base.{◌≡◌, refl, true, false, Option, none, some, [], ◌∷◌, ok, codes, length}
use packet_rusher.Gnb.Ue.{GnbUe, ongoing}
use packet_rusher.Gnb.Context.{
  GnbContext, new_ran_gnb_context, store_ue, get_gnb_ue, get_gnb_ue_by_pr_ue_id, contains,
  select_amf_by_active, select_loop,
}
use packet_rusher.Gnb.Context.Pools.{ue_at, IsTxOpen}
use packet_rusher.Gnb.Messages.{
  UeMessage, zero_message, to_amf, to_ue, to_gnb, process_connection, put_ue,
}
use packet_rusher.Gnb.Ngap.Triggers.{xn_request, new_connection, trigger_xn_handover}
use packet_rusher.Gnb.Ngap.Samples.{sample_lib, with_ue, with_ue-at}
use packet_rusher.Gnb.Ngap.Handover.{command_for, ngap_request}
use packet_rusher.Gnb.Listen.NgapHandover.{Taken, sessions_of, notify_bytes, ngap_handover-Taken}
use packet_rusher.Gnb.Listen.XnHandover.{Arrived, switch_bytes, xn_handover-Arrived}
use packet_rusher.Gnb.Listen.{gnb_listen, processing_conn}
use packet_rusher.Gnb.Listen.Dispatch.{dispatch_all, passed_on, dispatch_all_new}
use packet_rusher.Gnb.Listen.Connections.{closed_then_ignored}
use packet_rusher.Gnb.Samples.{new_gnb, sample_ue, order, amf_of_weight}

dispatch_all_new_example :
    dispatch_all sample_lib new_gnb.control_info sample_ue (codes "a" ∷ codes "b" ∷ [])
    ≡ passed_on sample_lib new_gnb.control_info sample_ue (some 5) (codes "a") (codes "b" ∷ [])
dispatch_all_new_example =
    dispatch_all_new sample_lib new_gnb.control_info sample_ue (codes "a") (codes "b" ∷ []) refl

-- Two messages are written, and one over no connection panics.
passed_on_run :
    passed_on sample_lib new_gnb.control_info sample_ue (some 5) (codes "a") (codes "b" ∷ [])
    ≡ ok (
      record sample_ue { state = ongoing },
      to_amf (some 5) (7 ∷ []) ∷ to_amf (some 5) (7 ∷ []) ∷ [],
    )
passed_on_run = refl

abbrev closing : UeMessage
closing = record zero_message { connection_closed = true }

ue_stored : ue_at with_ue 0 ≡ some sample_ue
unfolding store_ue new_ran_gnb_context
ue_stored = refl

ue_known : get_gnb_ue with_ue 1 ≡ some 0
unfolding store_ue new_ran_gnb_context
ue_known = refl

ue_open : IsTxOpen with_ue sample_ue
unfolding store_ue new_ran_gnb_context
ue_open c h = refl

closed_then_ignored_example :
    (gnb' : GnbContext) × (processing_conn sample_lib with_ue 0 (some closing)
      ≡ ok (gnb', [], true))
    × (get_gnb_ue gnb' 1 ≡ none)
    × ¬ (get_gnb_ue_by_pr_ue_id gnb' 7 ≡ some 0)
    × ((later : Option UeMessage) → processing_conn sample_lib gnb' 0 later ≡ ok (gnb', [], false))
closed_then_ignored_example =
    closed_then_ignored sample_lib with_ue 0 sample_ue closing ue_stored ue_known refl ue_open refl

-- Another gNB, whose inbound channel is 2.
target_channel : new_gnb.control_info.inbound_channel ≡ some 2
unfolding new_ran_gnb_context
target_channel = refl

target_open : contains new_gnb.closed 2 ≡ false
unfolding new_ran_gnb_context
target_open = refl

source_open : contains with_ue.closed 11 ≡ false
unfolding store_ue new_ran_gnb_context
source_open = refl

source_known : get_gnb_ue_by_pr_ue_id with_ue 7 ≡ some 0
unfolding store_ue new_ran_gnb_context
source_known = refl

target_unknown : get_gnb_ue_by_pr_ue_id new_gnb 7 ≡ none
unfolding new_ran_gnb_context
target_unknown = refl

nine_selected : select_amf_by_active order ≡ some (amf_of_weight 9)
unfolding select_amf_by_active select_loop
nine_selected = refl

xn_handover-Arrived_example :
    (trigger_xn_handover with_ue new_gnb 7 21 22
      ≡ ok (to_gnb 2 (xn_request sample_ue 21 22) ∷ to_ue 11 (new_connection 21 22 (some 2)) ∷ []))
    × ((target' : GnbContext) × (gnb_listen sample_lib order new_gnb (xn_request sample_ue 21 22)
          ≡ ok (
            target',
            to_amf (some 5) (switch_bytes sample_lib new_gnb (amf_of_weight 9) sample_ue 21 22)
                ∷ process_connection (length new_gnb.ues)
                ∷ [],
          ))
        × Arrived new_gnb target' (amf_of_weight 9) sample_ue 21 22)
xn_handover-Arrived_example =
    xn_handover-Arrived sample_lib with_ue new_gnb order (amf_of_weight 9) 7 0 21 22 2 11 sample_ue
      source_known with_ue-at target_channel target_open refl source_open nine_selected
      target_unknown refl refl

-- The UE at the source on its way to the gNB 1, and at the target, which prepared it.
abbrev leaving : GnbUe
leaving = record sample_ue { new_gnb = some 1 }

abbrev source : GnbContext
source = put_ue with_ue 0 leaving

leaving_stored : ue_at source 0 ≡ some leaving
unfolding store_ue new_ran_gnb_context
leaving_stored = refl

new_channel_open : contains with_ue.closed 22 ≡ false
unfolding store_ue new_ran_gnb_context
new_channel_open = refl

ngap_handover-Taken_example :
    (command_for sample_lib 21 22 source 0
      ≡ ok (
        source,
        to_gnb 3 (ngap_request leaving 21 22) ∷ to_ue 11 (new_connection 21 22 (some 3)) ∷ [],
      ))
    × ((target' : GnbContext) × (gnb_listen sample_lib order with_ue (ngap_request leaving 21 22)
          ≡ ok (
            target',
            to_ue 22 (sessions_of with_ue sample_ue)
                ∷ to_amf (some 5) (notify_bytes sample_lib with_ue 0 sample_ue 21 22)
                ∷ process_connection 0
                ∷ [],
          ))
        × Taken with_ue target' 0 sample_ue 21 22)
ngap_handover-Taken_example =
    ngap_handover-Taken sample_lib order source with_ue 0 0 21 22 1 3 11 leaving sample_ue
      leaving_stored refl refl refl refl source_open source_known ue_stored new_channel_open refl
