-- ===== src/Gnb/Ngap/Dispatch/Kept.antt =====
-- Whatever NGAP message arrives, the pools of UEs stay consistent.
use packet_rusher.Base.{ℕ, ◌+◌, ◌<◌, ◌≤◌, ◌≡◌, subst, some, List, ok, arith, Post, bind, after}
use packet_rusher.Gnb.Context.{GnbContext, uint32_mod, int64_mod}
use packet_rusher.Gnb.Context.Invariant.{IsConsistent}
use packet_rusher.Gnb.Context.Reachable.{Reach-IsConsistent}
use packet_rusher.Gnb.Context.Kept.{Kept, Keeps, Kept-refl, Kept-more}
use packet_rusher.Gnb.Messages.{Output}
use packet_rusher.Gnb.Ngap.{
  NgapLib, Ie, Run, NgapPdu, ProcedureCode, Present, initiating_message, successful_outcome,
  unsuccessful_outcome, nothing,
}
use packet_rusher.Gnb.Ngap.Ies.Counts.{requested}
use packet_rusher.Gnb.Ngap.Ues.Kept.{downlink-Keeps}
use packet_rusher.Gnb.Ngap.ContextSetup.Kept.{context_request-Keeps}
use packet_rusher.Gnb.Ngap.SessionSetup.Kept.{session_request-Keeps}
use packet_rusher.Gnb.Ngap.Release.Kept.{release_command-Keeps, path_switch-Keeps}
use packet_rusher.Gnb.Ngap.Setup.{handler_ng_setup_response, handler_ng_setup_failure}
use packet_rusher.Gnb.Ngap.Update.{Update, handler_amf_configuration_update}
use packet_rusher.Gnb.Ngap.Update.Kept.{
  SameUes, SameUes-Kept, put_amf-SameUes, handler_amf_configuration_update-SameUes,
}
use packet_rusher.Gnb.Ngap.Status.Kept.{handler_amf_status_indication-Keeps}
use packet_rusher.Gnb.Ngap.Handover.Kept.{
  handler_ue_context_release_command-Keeps, handler_handover_request-Keeps, command-Keeps,
  handler_paging-Keeps, error_indication-Keeps,
}
use packet_rusher.Gnb.Ngap.Dispatch.{
  Arrival, Dispatched, keep_count, on_initiating, on_successful, on_unsuccessful, on_present,
  ngap_dispatch,
}

-- The outcome of a dispatch, with the steps that it took.
abbrev DispatchKeeps : ℕ → GnbContext → Dispatched → Type 0
DispatchKeeps n gnb o = Post (λ r. Kept n gnb r.0) o

counted :
    (n m count : ℕ) (gnb : GnbContext) (run : Run)
    → n ≤ m
    → Keeps n gnb run
    → DispatchKeeps m gnb (keep_count count run)
counted n m count gnb run h k =
    bind (λ r. Kept n gnb r.0) (λ r. Kept m gnb r.0) run _ k (λ r kept. Kept-more h kept)

zero-Kept : (n : ℕ) (gnb : GnbContext) → Kept n gnb gnb
zero-Kept n gnb = Kept-more (omega arith) (Kept-refl gnb)

module _ (lib : NgapLib) where
  on_initiating-Keeps :
      (code : ProcedureCode) (w : Arrival) (gnb : GnbContext) (ies : List Ie)
      → gnb.teid_generator + requested ies < uint32_mod
      → gnb.id_ue_generator + 1 < int64_mod
      → DispatchKeeps (requested ies) gnb (on_initiating lib code w gnb ies)
  unfolding on_initiating
  on_initiating-Keeps ProcedureCode.downlink_nas_transport w gnb ies small ids =
      counted 0 (requested ies) w.count gnb _ (omega arith) (downlink-Keeps gnb ies)
  on_initiating-Keeps ProcedureCode.initial_context_setup w gnb ies small ids =
      counted (requested ies) (requested ies) w.count gnb _ (omega arith)
        (context_request-Keeps lib gnb ies small)
  on_initiating-Keeps ProcedureCode.pdu_session_resource_setup w gnb ies small ids =
      counted (requested ies) (requested ies) w.count gnb _ (omega arith)
        (session_request-Keeps lib gnb ies small)
  on_initiating-Keeps ProcedureCode.pdu_session_resource_release w gnb ies small ids =
      counted 0 (requested ies) w.count gnb _ (omega arith) (release_command-Keeps lib gnb ies)
  on_initiating-Keeps ProcedureCode.ue_context_release w gnb ies small ids =
      counted 0 (requested ies) w.count gnb _ (omega arith)
        (handler_ue_context_release_command-Keeps lib gnb ies)
  on_initiating-Keeps ProcedureCode.amf_configuration_update w gnb ies small ids =
      bind (λ (u : Update). SameUes gnb u.gnb) (λ r. Kept (requested ies) gnb r.0)
        (handler_amf_configuration_update lib w.amf gnb w.count ies) _
        (handler_amf_configuration_update-SameUes lib w.amf gnb w.count ies)
        (λ u same. Kept-more (omega arith) (SameUes-Kept same))
  on_initiating-Keeps ProcedureCode.amf_status_indication w gnb ies small ids =
      counted 0 (requested ies) w.count gnb _ (omega arith)
        (handler_amf_status_indication-Keeps lib gnb ies)
  on_initiating-Keeps ProcedureCode.handover_resource_allocation w gnb ies small ids =
      counted (requested ies) (requested ies) w.count gnb _ (omega arith)
        (handler_handover_request-Keeps lib gnb ies small ids)
  on_initiating-Keeps ProcedureCode.paging w gnb ies small ids =
      counted 0 (requested ies) w.count gnb _ (omega arith) (handler_paging-Keeps gnb w.time ies)
  on_initiating-Keeps ProcedureCode.error_indication w gnb ies small ids =
      counted 0 (requested ies) w.count gnb _ (omega arith) (error_indication-Keeps gnb ies)
  on_initiating-Keeps _ w gnb ies small ids = zero-Kept (requested ies) gnb

  on_successful-Keeps :
      (n : ℕ) (code : ProcedureCode) (w : Arrival) (gnb : GnbContext) (ies : List Ie)
      → DispatchKeeps n gnb (on_successful lib code w gnb ies)
  unfolding on_successful
  on_successful-Keeps n ProcedureCode.ng_setup w gnb ies =
      after (λ r. Kept n gnb r.0) (handler_ng_setup_response w.amf ies) _
        (λ amf. Kept-more (omega arith) (SameUes-Kept (put_amf-SameUes gnb amf)))
  on_successful-Keeps n ProcedureCode.path_switch w gnb ies =
      counted 0 n w.count gnb _ (omega arith) (path_switch-Keeps lib gnb ies)
  on_successful-Keeps n ProcedureCode.handover_preparation w gnb ies =
      counted 0 n w.count gnb _ (omega arith) (command-Keeps lib gnb w.new_rx w.new_tx ies)
  on_successful-Keeps n _ w gnb ies = zero-Kept n gnb

  on_unsuccessful-Keeps :
      (n : ℕ) (code : ProcedureCode) (w : Arrival) (gnb : GnbContext) (ies : List Ie)
      → DispatchKeeps n gnb (on_unsuccessful lib code w gnb ies)
  unfolding on_unsuccessful
  on_unsuccessful-Keeps n ProcedureCode.ng_setup w gnb ies =
      Kept-more (omega arith)
        (SameUes-Kept (put_amf-SameUes gnb (handler_ng_setup_failure w.amf ies)))
  on_unsuccessful-Keeps n _ w gnb ies = zero-Kept n gnb

  on_present-Keeps :
      (present : Present) (code : ProcedureCode) (w : Arrival) (gnb : GnbContext) (ies : List Ie)
      → gnb.teid_generator + requested ies < uint32_mod
      → gnb.id_ue_generator + 1 < int64_mod
      → DispatchKeeps (requested ies) gnb (on_present lib present code w gnb ies)
  unfolding on_present
  on_present-Keeps initiating_message code w gnb ies small ids =
      on_initiating-Keeps code w gnb ies small ids
  on_present-Keeps successful_outcome code w gnb ies small ids =
      on_successful-Keeps (requested ies) code w gnb ies
  on_present-Keeps unsuccessful_outcome code w gnb ies small ids =
      on_unsuccessful-Keeps (requested ies) code w gnb ies
  on_present-Keeps nothing code w gnb ies small ids = zero-Kept (requested ies) gnb

-- If the dispatch of an NGAP message, of any kind and content, returns, then the pools that were
-- consistent before are consistent after it: every entry leads to the UE with the entry's id, and the
-- ids and TEIDs in use are below their generators. The TEID generator must have room for the sessions
-- that the message asks for and the RAN id generator for one UE; of TEIDs, no more than those were taken.
pub ngap_dispatch-IsConsistent :
    (lib : NgapLib) (w : Arrival) (gnb gnb' : GnbContext) (message : List ℕ) (pdu : NgapPdu)
    (out : List Output) (count : ℕ)
    → lib.decoder message ≡ some pdu
    → gnb.teid_generator + requested pdu.ies < uint32_mod
    → gnb.id_ue_generator + 1 < int64_mod
    → IsConsistent gnb
    → ngap_dispatch lib w gnb message ≡ ok (gnb', out, count)
    → IsConsistent gnb' × (gnb'.teid_generator ≤ gnb.teid_generator + requested pdu.ies)
unfolding ngap_dispatch
ngap_dispatch-IsConsistent lib w gnb gnb' message pdu out count decoded small ids c done =
    let run = on_present lib pdu.present pdu.procedure_code w gnb pdu.ies in
    let returns : run ≡ ok (gnb', out, count) = rw decoded at done in
    let kept : Kept (requested pdu.ies) gnb gnb' =
      subst (DispatchKeeps (requested pdu.ies) gnb) returns
        (on_present-Keeps lib pdu.present pdu.procedure_code w gnb pdu.ies small ids) in
    (Reach-IsConsistent kept.path c, kept.teids)
