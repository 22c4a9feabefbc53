-- ===== src/Gnb/Ngap/Status/Kept.antt =====
-- What an AMF Status Indication does to the pools of UEs: the objects keep their ids.
use packet_rusher.Base.{
  ℕ, suc, ◌+◌, refl, ◌∙◌, Bool, true, false, Option, none, some, List, [], ◌∷◌, ◌++◌, ok, ◌>>=◌,
  arith, Post, bind, after, weaken, if◌then◌else◌,
}
use packet_rusher.Gnb.Amf.{GnbAmf}
use packet_rusher.Gnb.Ue.{GnbUe}
use packet_rusher.Gnb.Ue.Ids.{HasIdsOf, ids_refl}
use packet_rusher.Gnb.Context.{GnbContext, delete_gnb_amf}
use packet_rusher.Gnb.Context.Invariant.{here, next, adjust, SameIds}
use packet_rusher.Gnb.Context.Kept.{Kept, Keeps, Kept-refl, Kept-trans, Kept-more}
use packet_rusher.Gnb.Messages.{Output}
use packet_rusher.Gnb.Ngap.{NgapLib, Ie, Guami, UnavailableGuami, ◌>>>◌}
use packet_rusher.Gnb.Ngap.Ues.Kept.{then-Keeps}
use packet_rusher.Gnb.Ngap.Update.{amf_pool_values}
use packet_rusher.Gnb.Ngap.Status.{
  plmn_digits, find_backup, serves, rebound, visited, rebind_at, rebind_from, remove_amf,
  remove_matching, status_item, status_items, handler_amf_status_indication,
}

rebound-ids :
    (b : Bool) (old backup : GnbAmf) (ue : GnbUe)
    → HasIdsOf ue (if b then rebound old backup ue else ue)
rebound-ids true old backup ue = record { ran = ground arith; pr = ground arith }
rebound-ids false old backup ue = ids_refl ue

rebind_at-ids :
    (gnb : GnbContext) (old backup : GnbAmf) (p : ℕ) (ue : GnbUe)
    → HasIdsOf ue (rebind_at gnb old backup p ue)
unfolding rebind_at
rebind_at-ids gnb old backup p ue =
    let b = visited gnb.ue_pool ue.ran_ue_ngap_id p in
    let first : GnbUe = if b then rebound old backup ue else ue in
    let h = rebound-ids b old backup ue in
    let k = rebound-ids (visited gnb.pr_ue_pool ue.pr_ue_id p) old backup first in
    record { ran = k.ran ∙ h.ran; pr = k.pr ∙ h.pr }

rebind_from-SameIds :
    (gnb : GnbContext) (old backup : GnbAmf) (p : ℕ) (l : List GnbUe)
    → SameIds l (rebind_from gnb old backup p l)
unfolding rebind_from
rebind_from-SameIds gnb old backup p [] = tt
rebind_from-SameIds gnb old backup p (ue ∷ rest) =
    let ids = rebind_at-ids gnb old backup p ue in
    (ids.ran, ids.pr, rebind_from-SameIds gnb old backup (suc p) rest)

remove_amf-Keeps :
    (old backup : GnbAmf) (gnb : GnbContext) → Keeps 0 gnb (remove_amf old backup gnb)
unfolding remove_amf delete_gnb_amf
remove_amf-Keeps old backup gnb = record {
  path = next here (
      adjust (delete_gnb_amf (record gnb { ues = rebind_from gnb old backup 0 gnb.ues }) old.amf_id)
        refl refl refl refl refl (rebind_from-SameIds gnb old backup 0 gnb.ues));
  teids = omega arith;
}

remove_matching-Keeps :
    (plmn : List ℕ × List ℕ) (g : Guami) (backup : GnbAmf) (order : List GnbAmf) (gnb : GnbContext)
    → Keeps 0 gnb (remove_matching plmn g backup order gnb)
unfolding remove_matching
remove_matching-Keeps plmn g backup [] gnb = Kept-refl gnb
remove_matching-Keeps plmn g backup (amf ∷ rest) gnb =
    weaken (λ r. Kept (0 + 0) gnb r.0) (λ r. Kept 0 gnb r.0) _
      (then-Keeps 0 0 gnb _ (remove_matching plmn g backup rest)
        (after (λ r. Kept 0 gnb r.0) (serves amf.len_plmn 0 plmn g amf) _ go)
        (λ h kept. remove_matching-Keeps plmn g backup rest h))
      (λ r kept. Kept-more (omega arith) kept)
  where
    go : (found : Bool) → Keeps 0 gnb (if found then remove_amf amf backup gnb else ok (gnb, []))
    go true = remove_amf-Keeps amf backup gnb
    go false = Kept-refl gnb

module _ (lib : NgapLib) where
  status_item-Keeps :
      (item : UnavailableGuami) (gnb : GnbContext)
      → Post (λ r. Kept 0 gnb r.0) (status_item lib item gnb)
  unfolding status_item
  status_item-Keeps item gnb =
      let order = lib.visit (amf_pool_values gnb.amf_pool) in
      after (λ r. Kept 0 gnb r.0) (plmn_digits item.guami.plmn_identity) _
        (λ plmn. go plmn order (find_backup item.backup_amf_name order))
    where
      go :
          (plmn : List ℕ × List ℕ) (order : List GnbAmf) (found : Option GnbAmf)
          → Post
              (λ (r : GnbContext × List Output × Bool). Kept 0 gnb r.0)
              (elim found [
                | none ↦ ok (gnb, [], false)
                | some backup ↦
                    remove_matching plmn item.guami backup order gnb >>= λ r. ok (r.0, r.1, true)
              ])
      go plmn order none = Kept-refl gnb
      go plmn order (some backup) =
          bind (λ r. Kept 0 gnb r.0) (λ r. Kept 0 gnb r.0)
            (remove_matching plmn item.guami backup order gnb) _
            (remove_matching-Keeps plmn item.guami backup order gnb) (λ r kept. kept)

  status_items-Keeps :
      (items : List UnavailableGuami) (gnb : GnbContext)
      → Post (λ r. Kept 0 gnb r.0) (status_items lib items gnb)
  unfolding status_items
  status_items-Keeps [] gnb = Kept-refl gnb
  status_items-Keeps (item ∷ rest) gnb =
      bind (λ r. Kept 0 gnb r.0) (λ r. Kept 0 gnb r.0) (status_item lib item gnb) _
        (status_item-Keeps item gnb) (λ r kept. go r.0 r.1 r.2 kept (status_items-Keeps rest r.0))
    where
      go :
          (g : GnbContext) (out : List Output) (more : Bool)
          → Kept 0 gnb g
          → Post (λ r. Kept 0 g r.0) (status_items lib rest g)
          → Post
              (λ (r : GnbContext × List Output × Bool). Kept 0 gnb r.0)
              (if more
                then (status_items lib rest g >>= λ s.
                    let (g', out', more') = s in ok (g', out ++ out', more'))
                else ok (g, out, false))
      go g out true kept again =
          bind (λ r. Kept 0 g r.0) (λ r. Kept 0 gnb r.0) (status_items lib rest g) _ again
            (λ r later. Kept-more (omega arith) (Kept-trans kept later))
      go g out false kept again = kept

  pub handler_amf_status_indication-Keeps :
      (gnb : GnbContext) (ies : List Ie) → Keeps 0 gnb (handler_amf_status_indication lib gnb ies)
  unfolding handler_amf_status_indication
  handler_amf_status_indication-Keeps gnb [] = Kept-refl gnb
  handler_amf_status_indication-Keeps gnb (Ie.unavailable_guami_list items ∷ rest) =
      bind (λ r. Kept 0 gnb r.0) (λ r. Kept 0 gnb r.0) (status_items lib items gnb) _
        (status_items-Keeps items gnb)
        (λ r kept. go r.0 r.1 r.2 kept (handler_amf_status_indication-Keeps r.0 rest))
    where
      go :
          (g : GnbContext) (out : List Output) (more : Bool)
          → Kept 0 gnb g
          → Keeps 0 g (handler_amf_status_indication lib g rest)
          → Keeps 0 gnb (
              if more
              then (ok (g, out) >>> λ _. handler_amf_status_indication lib g rest)
              else ok (g, out))
      go g out true kept again =
          bind (λ r. Kept 0 g r.0) (λ r. Kept 0 gnb r.0) (handler_amf_status_indication lib g rest)
            _ again (λ r later. Kept-more (omega arith) (Kept-trans kept later))
      go g out false kept again = kept
  handler_amf_status_indication-Keeps gnb (_ ∷ rest) = handler_amf_status_indication-Keeps gnb rest
