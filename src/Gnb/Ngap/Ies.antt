-- ===== src/Gnb/Ngap/Ies.antt =====
-- How each handler of gnb/ngap/handler.go reads the protocol IEs of its message: one function per
-- handler, which takes one IE to the handler's local variables. A variable that a handler has not is
-- left alone. A missing value ends the process, except where the source goes on and dereferences it.
pub mod Counts
use packet_rusher.Base.{
  ℕ, Option, none, some, List, [], ◌∷◌, ◌++◌, Outcome, ok, panic, fatal, ◌>>=◌, deref, map,
}
use packet_rusher.Base.Int.{ℤ}
use packet_rusher.Gnb.Ue.{not_informed}
use packet_rusher.Gnb.Ngap.{Ie, Snssai, SetupItem, SwitchedItem, mandatory, informed}

pub record Locals : Type 0 where
  pub amf_id : ℕ
  pub ran_id : ℕ
  pub message_nas : Option (List ℕ)
  pub sst_list : List (List ℕ)
  pub sd_list : List (List ℕ)
  pub mobility_restrict : List ℕ
  pub imeisv : List ℕ
  pub capabilities : Option ℕ
  pub setup_list : Option (List SetupItem)
  pub release_ids : List ℤ
  pub switched : Option (List SwitchedItem)
  pub container : Option (List ℕ)

abbrev pub zero_locals : Locals
zero_locals = record {
  amf_id = 0;
  ran_id = 0;
  message_nas = none;
  sst_list = [];
  sd_list = [];
  mobility_restrict = not_informed;
  imeisv = [];
  capabilities = none;
  setup_list = none;
  release_ids = [];
  switched = none;
  container = none;
}

-- The two ids of a UE.
unfoldable pub read_ids : Ie → Locals → Outcome Locals
read_ids (Ie.amf_ue_id v) l = mandatory v >>= λ id. ok (record l { amf_id = id })
read_ids (Ie.ran_ue_id v) l = mandatory v >>= λ id. ok (record l { ran_id = id })
read_ids _ l = ok l

unfoldable pub read_downlink : Ie → Locals → Outcome Locals
unfolding read_ids
read_downlink (Ie.nas_pdu v) l = mandatory v >>= λ nas. ok (record l { message_nas = some nas })
read_downlink ie l = read_ids ie l

abbrev pub with_nssai : Locals → List Snssai → Locals
with_nssai l items = record l {
  sst_list = map (λ (s : Snssai). informed s.sst_value) items;
  sd_list = map (λ (s : Snssai). informed s.sd_value) items;
}

-- A NAS PDU without a value is logged as missing, and dereferenced.
pub read_context : Ie → Locals → Outcome Locals
unfolding read_ids
read_context (Ie.nas_pdu v) l = deref v >>= λ nas. ok (record l { message_nas = some nas })
read_context (Ie.security_key v) l = mandatory v >>= λ key. ok l
read_context (Ie.guami_ie v) l = mandatory v >>= λ g. ok l
read_context (Ie.allowed_nssai v) l = mandatory v >>= λ items. ok (with_nssai l items)
read_context (Ie.mobility_restriction_list v) l = ok (record l { mobility_restrict = informed v })
read_context (Ie.masked_imeisv_ie v) l = ok (record l { imeisv = informed v })
read_context (Ie.security_capabilities v) l =
    mandatory v >>= λ caps. ok (record l { capabilities = some caps })
read_context (Ie.setup_list_cxt_req v) l =
    mandatory v >>= λ items. ok (record l { setup_list = some items })
read_context ie l = read_ids ie l

pub read_setup : Ie → Locals → Outcome Locals
unfolding read_ids
read_setup (Ie.setup_list_su_req v) l =
    mandatory v >>= λ items. ok (record l { setup_list = some items })
read_setup ie l = read_ids ie l

pub read_release : Ie → Locals → Outcome Locals
unfolding read_ids
read_release (Ie.nas_pdu v) l = deref v >>= λ nas. ok (record l { message_nas = some nas })
read_release (Ie.to_release_list_rel_cmd v) l =
    mandatory v >>= λ items. ok (record l { release_ids = l.release_ids ++ items })
read_release ie l = read_ids ie l

pub read_switched : Ie → Locals → Outcome Locals
unfolding read_ids
read_switched (Ie.switched_list v) l =
    mandatory v >>= λ items. ok (record l { switched = some items })
read_switched ie l = read_ids ie l

unfoldable pub read_handover : Ie → Locals → Outcome Locals
read_handover (Ie.amf_ue_id v) l = mandatory v >>= λ id. ok (record l { amf_id = id })
read_handover (Ie.allowed_nssai v) l = mandatory v >>= λ items. ok (with_nssai l items)
read_handover (Ie.masked_imeisv_ie v) l = ok (record l { imeisv = informed v })
read_handover (Ie.source_to_target_container v) l =
    mandatory v >>= λ bytes. ok (record l { container = some bytes })
read_handover (Ie.setup_list_ho_req v) l =
    mandatory v >>= λ items. ok (record l { setup_list = some items })
read_handover (Ie.security_capabilities v) l =
    mandatory v >>= λ caps. ok (record l { capabilities = some caps })
read_handover _ l = ok l
