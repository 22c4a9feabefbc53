-- ===== src/Gnb/Context/Pools.antt =====
-- Creating and deleting UEs, and handing out TEIDs, seen through the three pools.
use packet_rusher.Base.{
  ℕ, ◌≡◌, ◌≢◌, refl, sym, ◌∙◌, Bool, true, false, ◌⊎◌, inl, inr, Option, none, some, List, [], ◌∷◌,
  ok, arith, length, set, get_elem?, get_elem?-append_last, get_elem?-append_left, within,
  get_elem?-set_self, get_elem?-set_ne, Pool, delete, compare_and_delete, Option-cases,
  if◌then◌else◌, ◌==◌,
}
use packet_rusher.Gnb.Amf.{GnbAmf}
use packet_rusher.Gnb.Ue.{GnbUe, initialized, GnbPduSession}
use packet_rusher.Gnb.Context.{
  GnbContext, fresh_ue, attach_amf, store_ue, new_gnb_ue, get_gnb_ue, get_gnb_ue_by_pr_ue_id,
  get_gnb_ue_by_teid, delete_gnb_ue, delete_teids, close_tx, contains, select_amf_by_active,
}

-- The UE object at an address.
abbrev pub ue_at : GnbContext → ℕ → Option GnbUe
ue_at gnb p = get_elem? gnb.ues p

-- The pools after a UE was stored under its ids.
store_ue_pools :
    (gnb : GnbContext) (ue : GnbUe) (k : ℕ)
    → (get_gnb_ue (store_ue gnb ue) k
        ≡ (if k == gnb.id_ue_generator then some (length gnb.ues) else get_gnb_ue gnb k))
      × (get_gnb_ue_by_pr_ue_id (store_ue gnb ue) k ≡ (
          if ue.pr_ue_id == 0
          then get_gnb_ue_by_pr_ue_id gnb k
          else (if k == ue.pr_ue_id then some (length gnb.ues) else get_gnb_ue_by_pr_ue_id gnb k)))
      × (get_gnb_ue_by_teid (store_ue gnb ue) k ≡ get_gnb_ue_by_teid gnb k)
      × (ue_at (store_ue gnb ue) (length gnb.ues) ≡ some ue)
unfolding store_ue
store_ue_pools gnb ue k = (refl, ground arith, refl, get_elem?-append_last gnb.ues ue)

-- A UE object `ue` that was put at a new address `p` under its ids: what every lookup gives after.
pub record Stored (gnb : GnbContext) (pr_ue_id : ℕ) (ue : GnbUe) (gnb' : GnbContext) : Type 0 where
  pub object : ue_at gnb' (length gnb.ues) ≡ some ue
  pub ran_id : ue.ran_ue_ngap_id ≡ gnb.id_ue_generator
  pub pr_id : ue.pr_ue_id ≡ pr_ue_id
  pub state : ue.state ≡ initialized
  pub by_ran_id :
      (k : ℕ)
      → get_gnb_ue gnb' k
        ≡ (if k == gnb.id_ue_generator then some (length gnb.ues) else get_gnb_ue gnb k)
  pub by_pr_id :
      (k : ℕ)
      → get_gnb_ue_by_pr_ue_id gnb' k ≡ (
          if pr_ue_id == 0
          then get_gnb_ue_by_pr_ue_id gnb k
          else (if k == pr_ue_id then some (length gnb.ues) else get_gnb_ue_by_pr_ue_id gnb k))
  pub by_teid : (k : ℕ) → get_gnb_ue_by_teid gnb' k ≡ get_gnb_ue_by_teid gnb k
  pub others : (q : ℕ) (old : GnbUe) → ue_at gnb q ≡ some old → ue_at gnb' q ≡ some old

pub store_ue-Stored :
    (gnb : GnbContext) (ue : GnbUe)
    → ue.ran_ue_ngap_id ≡ gnb.id_ue_generator
    → ue.state ≡ initialized
    → Stored gnb ue.pr_ue_id ue (store_ue gnb ue)
unfolding store_ue
store_ue-Stored gnb ue r s = record {
  object = get_elem?-append_last gnb.ues ue;
  ran_id = r;
  pr_id = refl;
  state = s;
  by_ran_id = λ k. refl;
  by_pr_id = λ k. (store_ue_pools gnb ue k).1;
  by_teid = λ k. refl;
  others = λ q old h. get_elem?-append_left gnb.ues (ue ∷ []) q old h;
}

-- `NewGnBUe` stores the new UE under a fresh RAN id and, if it is not 0, its PacketRusher id, and
-- changes no other entry, whether it succeeds or not. It succeeds exactly when an AMF is selected,
-- whose id and connection the UE then has, and returns the UE's address; without an AMF it returns
-- an error and leaves the UE in the pools.
pub new_gnb_ue-Stored :
    (order : List GnbAmf) (gnb : GnbContext) (tx rx : Option ℕ) (pr_ue_id : ℕ) (tmsi : Option ℕ)
    → let (gnb', result) = new_gnb_ue order gnb tx rx pr_ue_id tmsi in
      (ue : GnbUe) × Stored gnb pr_ue_id ue gnb'
      × (((select_amf_by_active order ≡ none) × (result ≡ none))
          ⊎ ((amf : GnbAmf) × (select_amf_by_active order ≡ some amf)
              × (result ≡ some (length gnb.ues))
              × (ue.amf_id ≡ amf.amf_id)
              × (ue.sctp_connection ≡ amf.tnla.sctp_conn)))
unfolding new_gnb_ue
new_gnb_ue-Stored order gnb tx rx pr_ue_id tmsi =
    let ue = fresh_ue gnb tx rx pr_ue_id tmsi in
    elim (Option-cases (select_amf_by_active order)) [
      | inl e ↦ rw (e, new_gnb_ue) (ue, store_ue-Stored gnb ue refl refl, inl (refl, refl))
      | inr (amf, e) ↦
          rw (e, new_gnb_ue)
            (
              attach_amf ue amf,
              store_ue-Stored gnb (attach_amf ue amf) refl refl,
              inr (amf, refl, refl, refl, refl),
            )
    ]

-- Whether one of the sessions has this downlink TEID.
abbrev pub has_teid : List (Option GnbPduSession) → ℕ → Bool
has_teid [] k = false
has_teid (none ∷ rest) k = has_teid rest k
has_teid (some s ∷ rest) k = if k == s.downlink_teid then true else has_teid rest k

pub delete_teids_lem :
    (l : List (Option GnbPduSession)) (pool : Pool ℕ) (k : ℕ)
    → delete_teids l pool k ≡ (if has_teid l k then none else pool k)
unfolding delete_teids
delete_teids_lem [] pool k = refl
delete_teids_lem (none ∷ rest) pool k = delete_teids_lem rest pool k
delete_teids_lem (some s ∷ rest) pool k =
    delete_teids_lem rest (delete s.downlink_teid pool) k ∙ ground arith

-- The UE's channel to the gNB was not closed before.
abbrev pub IsTxOpen : GnbContext → GnbUe → Type 0
IsTxOpen gnb ue = (c : ℕ) → ue.gnb_tx ≡ some c → contains gnb.closed c ≡ false

-- What every lookup gives after the UE object `ue` at `p` was deleted.
pub record Deleted (gnb : GnbContext) (p : ℕ) (ue : GnbUe) (gnb' : GnbContext) : Type 0 where
  pub by_ran_id :
      (k : ℕ) → get_gnb_ue gnb' k ≡ (if k == ue.ran_ue_ngap_id then none else get_gnb_ue gnb k)
  pub by_pr_id_kept :
      (k q : ℕ)
      → get_gnb_ue_by_pr_ue_id gnb k ≡ some q
      → (k ≢ ue.pr_ue_id) ⊎ (q ≢ p)
      → get_gnb_ue_by_pr_ue_id gnb' k ≡ some q
  pub by_pr_id_gone : get_gnb_ue_by_pr_ue_id gnb' ue.pr_ue_id ≢ some p
  pub by_teid :
      (k : ℕ)
      → get_gnb_ue_by_teid gnb' k
        ≡ (if has_teid ue.context.pdu_session k then none else get_gnb_ue_by_teid gnb k)
  pub channel : ue_at gnb' p ≡ some (record ue { gnb_tx = none })
  pub others : (q : ℕ) → q ≢ p → ue_at gnb' q ≡ ue_at gnb q

close_tx_open :
    (tx : Option ℕ) (closed : List ℕ)
    → ((c : ℕ) → tx ≡ some c → contains closed c ≡ false)
    → (closed' : List ℕ) × (close_tx tx closed ≡ ok closed')
unfolding close_tx
close_tx_open none closed open_tx = (closed, refl)
close_tx_open (some c) closed open_tx = (c ∷ closed, rw (open_tx c refl))

pub delete_gnb_ue-Deleted :
    (gnb : GnbContext) (p : ℕ) (ue : GnbUe)
    → ue_at gnb p ≡ some ue
    → IsTxOpen gnb ue
    → (gnb' : GnbContext) × (delete_gnb_ue gnb p ≡ ok gnb') × Deleted gnb p ue gnb'
unfolding delete_gnb_ue
delete_gnb_ue-Deleted gnb p ue here open_tx =
    let (closed, shut) = close_tx_open ue.gnb_tx gnb.closed open_tx in
    (
      record gnb {
        ue_pool = delete ue.ran_ue_ngap_id gnb.ue_pool;
        pr_ue_pool = compare_and_delete ue.pr_ue_id p gnb.pr_ue_pool;
        teid_pool = delete_teids ue.context.pdu_session gnb.teid_pool;
        ues = set gnb.ues p (record ue { gnb_tx = none });
        closed = closed;
      },
      rw (here, shut) refl,
      record {
        by_ran_id = λ k. refl;
        by_pr_id_kept = λ k q found apart. ground arith;
        by_pr_id_gone = λ e. ground arith;
        by_teid = λ k. delete_teids_lem ue.context.pdu_session gnb.teid_pool k;
        channel =
            get_elem?-set_self gnb.ues p (record ue { gnb_tx = none }) (within gnb.ues p ue here);
        others = λ q ne. get_elem?-set_ne gnb.ues (record ue { gnb_tx = none }) (λ e. ne (sym e));
      },
    )
