-- ===== src/Gnb/Ngap/Update/Kept.antt =====
-- What an AMF Configuration Update does to the pools of UEs: nothing.
use packet_rusher.Base.{
  ℕ, ◌+◌, ◌≡◌, refl, ◌∙◌, Option, none, some, List, [], ◌∷◌, ◌++◌, Outcome, ok, fatal, arith, Post,
  ◌>>=◌, bind, after, weaken, deref,
}
use packet_rusher.Gnb.Amf.{AddrPort, GnbAmf}
use packet_rusher.Gnb.Context.{GnbContext, new_gnb_amf, delete_gnb_amf}
use packet_rusher.Gnb.Context.Invariant.{here, next, adjust, SameIds-refl}
use packet_rusher.Gnb.Context.Kept.{Kept}
use packet_rusher.Gnb.Messages.{listen}
use packet_rusher.Gnb.Ngap.{NgapLib, Ie, TnlItem, read_ies}
use packet_rusher.Gnb.Ngap.Triggers.{
  send_ng_setup_request, send_amf_configuration_update_acknowledge,
}
use packet_rusher.Gnb.Ngap.Update.{
  Update, zero_update, put_amf, init_conn, address_of, find_amf, start_amf, updated_amf, for_item,
  new_amf, add_item, remove_item, update_item, each_item, read_update,
  handler_amf_configuration_update,
}

-- The pools, generators and UE objects are those of before.
pub record SameUes (gnb gnb' : GnbContext) : Type 0 where
  pub ran : gnb'.ue_pool ≡ gnb.ue_pool
  pub pr : gnb'.pr_ue_pool ≡ gnb.pr_ue_pool
  pub teid : gnb'.teid_pool ≡ gnb.teid_pool
  pub ids : gnb'.id_ue_generator ≡ gnb.id_ue_generator
  pub tids : gnb'.teid_generator ≡ gnb.teid_generator
  pub objects : gnb'.ues ≡ gnb.ues

pub same_refl : (gnb : GnbContext) → SameUes gnb gnb
same_refl gnb = record {
  ran = refl;
  pr = refl;
  teid = refl;
  ids = refl;
  tids = refl;
  objects = refl;
}

pub same_trans : {a b c : GnbContext} → SameUes a b → SameUes b c → SameUes a c
same_trans h k = record {
  ran = k.ran ∙ h.ran;
  pr = k.pr ∙ h.pr;
  teid = k.teid ∙ h.teid;
  ids = k.ids ∙ h.ids;
  tids = k.tids ∙ h.tids;
  objects = k.objects ∙ h.objects;
}

pub SameUes-Kept : {gnb gnb' : GnbContext} → SameUes gnb gnb' → Kept 0 gnb gnb'
SameUes-Kept {gnb} {gnb'} h = record {
  path =
      next here (adjust gnb' h.ran h.pr h.teid h.ids h.tids (rw h.objects (SameIds-refl gnb.ues)));
  teids = omega (arith, h.tids);
}

pub put_amf-SameUes : (gnb : GnbContext) (amf : GnbAmf) → SameUes gnb (put_amf gnb amf)
unfolding put_amf
put_amf-SameUes gnb amf = record {
  ran = refl;
  pr = refl;
  teid = refl;
  ids = refl;
  tids = refl;
  objects = refl;
}

deleted_amf : (gnb : GnbContext) (old : GnbAmf) → SameUes gnb (delete_gnb_amf gnb old.amf_id)
unfolding delete_gnb_amf
deleted_amf gnb old = record {
  ran = refl;
  pr = refl;
  teid = refl;
  ids = refl;
  tids = refl;
  objects = refl;
}

abbrev Same : Update → Update → Type 0
Same u u' = SameUes u.gnb u'.gnb

each_item-Same :
    (act : TnlItem → Update → Outcome Update)
    → ((item : TnlItem) (u : Update) → Post (Same u) (act item u))
    → (items : List TnlItem) (u : Update) → Post (Same u) (each_item act items u)
unfolding each_item
each_item-Same act h [] u = same_refl u.gnb
each_item-Same act h (item ∷ rest) u = bind (Same u) (Same u) (act item u) _ (h item u) (λ u' k.
    weaken (Same u') (Same u) (each_item act rest u') (each_item-Same act h rest u')
      (λ u'' later. same_trans k later))

module _ (lib : NgapLib) where
  start_amf-Same : (u : Update) (amf : GnbAmf) → Post (Same u) (start_amf lib u amf)
  unfolding start_amf put_amf
  start_amf-Same u amf = go (init_conn lib u.gnb u.conn_count amf)
    where
      go :
          (o : Option GnbAmf)
          → Post (Same u) (elim o [
            | none ↦ fatal
            | some connected ↦
                let gnb' = record (put_amf u.gnb connected) {
                  control_info = record (u.gnb.control_info) { n2 = connected.tnla.sctp_conn };
                } in
                send_ng_setup_request lib gnb' connected >>= λ out. ok (record u {
                  gnb = gnb';
                  conn_count = u.conn_count + 1;
                  sent = u.sent ++ listen connected.amf_id ∷ out;
                })
          ])
      go none = tt
      go (some connected) =
          let gnb' = record (put_amf u.gnb connected) {
            control_info = record (u.gnb.control_info) { n2 = connected.tnla.sctp_conn };
          } in
          after (Same u) (send_ng_setup_request lib gnb' connected) _ (λ out. record {
            ran = refl;
            pr = refl;
            teid = refl;
            ids = refl;
            tids = refl;
            objects = refl;
          })

  for_item-Same :
      (item : TnlItem) (u : Update) (known : GnbAmf → Outcome Update)
      (unknown : AddrPort → Outcome Update)
      → ((old : GnbAmf) → Post (Same u) (known old))
      → ((address : AddrPort) → Post (Same u) (unknown address))
      → Post (Same u) (for_item lib item u known unknown)
  unfolding for_item
  for_item-Same item u known unknown h k = after (Same u) (address_of lib item) _ found
    where
      looked_up :
          (address : AddrPort) (o : Option GnbAmf)
          → Post (Same u) (elim o [ some old ↦ known old | none ↦ unknown address ])
      looked_up address (some old) = h old
      looked_up address none = k address

      found :
          (a : Option AddrPort)
          → Post (Same u) (elim a [
            | none ↦ ok u
            | some address ↦ elim (find_amf lib u.gnb address) [
              | some old ↦ known old
              | none ↦ unknown address
            ]
          ])
      found none = same_refl u.gnb
      found (some address) = looked_up address (find_amf lib u.gnb address)

  new_amf-Same :
      (item : TnlItem) (u : Update) (address : AddrPort)
      → Post (Same u) (new_amf lib item u address)
  unfolding new_amf new_gnb_amf put_amf
  new_amf-Same item u address =
      let made = new_gnb_amf u.gnb address in
      after (Same u) (updated_amf u.locals item made.1) _ (λ new.
        let u' : Update = record u { gnb = put_amf made.0 new } in
        weaken (Same u') (Same u) (start_amf lib u' new) (start_amf-Same u' new) (λ u'' h. record {
          ran = h.ran;
          pr = h.pr;
          teid = h.teid;
          ids = h.ids;
          tids = h.tids;
          objects = h.objects;
        }))

  read_update-Same :
      (amf : GnbAmf) (ie : Ie) (u : Update) → Post (Same u) (read_update lib amf ie u)
  unfolding read_update
  read_update-Same amf (Ie.amf_name v) u = after (Same u) (deref v) _ (λ n. same_refl u.gnb)
  read_update-Same amf (Ie.served_guami_list v) u =
      after (Same u) (deref v) _ (λ gs. same_refl u.gnb)
  read_update-Same amf (Ie.amf_capacity v) u = after (Same u) (deref v) _ (λ c. same_refl u.gnb)
  read_update-Same amf (Ie.tnl_association_to_add_list items) u =
      each_item-Same (add_item lib)
        (λ item u'.
          for_item-Same item u' (λ old. ok u') (new_amf lib item u') (λ old. same_refl u'.gnb)
            (new_amf-Same item u'))
        items u
  read_update-Same amf (Ie.tnl_association_to_remove_list items) u =
      each_item-Same (remove_item lib amf)
        (λ item u'.
          for_item-Same item u' _ _ (λ old. deleted_amf u'.gnb old) (λ address. same_refl u'.gnb))
        items u
  read_update-Same amf (Ie.tnl_association_to_update_list items) u =
      each_item-Same (update_item lib)
        (λ item u'.
          for_item-Same item u' _ _
            (λ old.
              after (Same u') (updated_amf u'.locals item old) _
                (λ new. put_amf-SameUes u'.gnb new))
            (λ address. same_refl u'.gnb))
        items u
  read_update-Same amf _ u = same_refl u.gnb

  read_all-Same :
      (amf : GnbAmf) (ies : List Ie) (u : Update)
      → Post (Same u) (read_ies (read_update lib amf) ies u)
  unfolding read_ies
  read_all-Same amf [] u = same_refl u.gnb
  read_all-Same amf (ie ∷ rest) u =
      bind (Same u) (Same u) (read_update lib amf ie u) _ (read_update-Same amf ie u) (λ u' h.
        weaken (Same u') (Same u) (read_ies (read_update lib amf) rest u')
          (read_all-Same amf rest u') (λ u'' k. same_trans h k))

  pub handler_amf_configuration_update-SameUes :
      (amf : GnbAmf) (gnb : GnbContext) (count : ℕ) (ies : List Ie)
      → Post
          (λ (u : Update). SameUes gnb u.gnb)
          (handler_amf_configuration_update lib amf gnb count ies)
  unfolding handler_amf_configuration_update
  handler_amf_configuration_update-SameUes amf gnb count ies =
      let start : Update = record {
        gnb = gnb;
        conn_count = count;
        locals = zero_update;
        sent = [];
      } in
      bind (Same start) (λ (u : Update). SameUes gnb u.gnb)
        (read_ies (read_update lib amf) ies start) _ (read_all-Same amf ies start)
        (λ u h.
          after (λ (v : Update). SameUes gnb v.gnb)
            (send_amf_configuration_update_acknowledge lib amf) _ (λ out. h))
