-- ===== src/Gnb/Context/Reachable.antt =====
-- Every step keeps the pools consistent, so they are in every state that the gNB reaches.
use packet_rusher.Base.{
  ℕ, ◌+◌, ◌%◌, ◌<◌, ◌≡◌, refl, subst, ap, sym, ◌∙◌, true, false, ◌⊎◌, inl, inr, none, some, List,
  Outcome, ok, ◌>>=◌, arith, length, set, Bool-cases, Option-cases, ◌==◌, delete, Pool,
  compare_and_delete,
}
use packet_rusher.Gnb.Amf.{AddrPort}
use packet_rusher.Gnb.Ue.{GnbUe}
use packet_rusher.Gnb.Context.{
  GnbContext, new_ran_gnb_context, new_gnb_ue, get_gnb_ue, close_tx, delete_teids,
  get_gnb_ue_by_teid, delete_gnb_ue, get_ue_teid, uint32_mod,
}
use packet_rusher.Gnb.Context.Pools.{ue_at, new_gnb_ue-Stored, delete_teids_lem}
use packet_rusher.Gnb.Context.Invariant.{
  IsConsistent, Step, connect, tunnel, change, release, adjust, SameIds, SameIds-at, SameIds-length,
  Reach, here, next, shrink, connect_counts, Stored-IsConsistent, new_ran_gnb_context-IsConsistent,
  some_inj, eq_of_test,
}

pub delete_inv :
    (gnb : GnbContext) (p : ℕ) (ue : GnbUe) (gnb' : GnbContext)
    → ue_at gnb p ≡ some ue
    → delete_gnb_ue gnb p ≡ ok gnb'
    → (closed : List ℕ) × (gnb' ≡ record gnb {
      ue_pool = delete ue.ran_ue_ngap_id gnb.ue_pool;
      pr_ue_pool = compare_and_delete ue.pr_ue_id p gnb.pr_ue_pool;
      teid_pool = delete_teids ue.context.pdu_session gnb.teid_pool;
      ues = set gnb.ues p (record ue { gnb_tx = none });
      closed = closed;
    })
unfolding delete_gnb_ue
delete_inv gnb p ue gnb' at h = go (close_tx ue.gnb_tx gnb.closed) (rw at at h)
  where
    go :
        (o : Outcome (List ℕ))
        → (o >>= λ closed. ok (record gnb {
          ue_pool = delete ue.ran_ue_ngap_id gnb.ue_pool;
          pr_ue_pool = compare_and_delete ue.pr_ue_id p gnb.pr_ue_pool;
          teid_pool = delete_teids ue.context.pdu_session gnb.teid_pool;
          ues = set gnb.ues p (record ue { gnb_tx = none });
          closed = closed;
        }))
          ≡ ok gnb'
        → (closed : List ℕ) × (gnb' ≡ record gnb {
          ue_pool = delete ue.ran_ue_ngap_id gnb.ue_pool;
          pr_ue_pool = compare_and_delete ue.pr_ue_id p gnb.pr_ue_pool;
          teid_pool = delete_teids ue.context.pdu_session gnb.teid_pool;
          ues = set gnb.ues p (record ue { gnb_tx = none });
          closed = closed;
        })
    go (ok closed) e = (closed, cc)
    go _ e = cc

tunnel-IsConsistent :
    (gnb : GnbContext) (p : ℕ)
    → p < length gnb.ues
    → gnb.teid_generator + 1 < uint32_mod
    → IsConsistent gnb
    → IsConsistent (get_ue_teid gnb p).0
unfolding get_ue_teid
tunnel-IsConsistent gnb p inside small c = record {
  ran_ids = c.ran_ids;
  pr_ids = c.pr_ids;
  teids = λ k q h. given k q h (Bool-cases (k == gnb.teid_generator));
}
  where
    given :
        (k q : ℕ)
        → get_gnb_ue_by_teid (get_ue_teid gnb p).0 k ≡ some q
        → ((k == gnb.teid_generator) ≡ true) ⊎ ((k == gnb.teid_generator) ≡ false)
        → (q < length gnb.ues) × (k < (gnb.teid_generator + 1) % uint32_mod)
    given k q h (inl e) =
        let same : p ≡ q = some_inj (rw e at h) in
        (omega arith, omega (arith, eq_of_test k gnb.teid_generator e))
    given k q h (inr e) =
        let (within_ues, below) = c.teids k q (rw e at h) in (within_ues, omega (arith, below))

adjust-IsConsistent :
    (gnb gnb' : GnbContext)
    → gnb'.ue_pool ≡ gnb.ue_pool
    → gnb'.pr_ue_pool ≡ gnb.pr_ue_pool
    → gnb'.teid_pool ≡ gnb.teid_pool
    → gnb'.id_ue_generator ≡ gnb.id_ue_generator
    → gnb'.teid_generator ≡ gnb.teid_generator
    → SameIds gnb.ues gnb'.ues
    → IsConsistent gnb
    → IsConsistent gnb'
adjust-IsConsistent gnb gnb' ran pr teid ids tids same c = record {
  ran_ids = λ k p h.
      let (old, at, named, below) = c.ran_ids k p (ap (λ (m : Pool ℕ). m k) (sym ran) ∙ h) in
      let (new, there, r, _) = SameIds-at gnb.ues gnb'.ues p old same at in
      (new, there, r ∙ named, omega (arith, ids, below));
  pr_ids = λ k p h.
      let (old, at, named, nonzero) = c.pr_ids k p (ap (λ (m : Pool ℕ). m k) (sym pr) ∙ h) in
      let (new, there, _, s) = SameIds-at gnb.ues gnb'.ues p old same at in
      (new, there, s ∙ named, nonzero);
  teids = λ k p h.
      let (inside, below) = c.teids k p (ap (λ (m : Pool ℕ). m k) (sym teid) ∙ h) in
      (omega (arith, inside, SameIds-length gnb.ues gnb'.ues same), omega (arith, below, tids));
}

pub Step-IsConsistent :
    {gnb gnb' : GnbContext} → Step gnb gnb' → IsConsistent gnb → IsConsistent gnb'
Step-IsConsistent {gnb} (connect order tx rx pr_ue_id tmsi small) c =
    let (ue, stored, _) = new_gnb_ue-Stored order gnb tx rx pr_ue_id tmsi in
    let (ids, tids, count) = connect_counts order gnb tx rx pr_ue_id tmsi in
    Stored-IsConsistent gnb (new_gnb_ue order gnb tx rx pr_ue_id tmsi).0 pr_ue_id ue c stored
      (omega (arith, ids, small)) tids count
Step-IsConsistent {gnb} (tunnel p inside small) c = tunnel-IsConsistent gnb p inside small c
Step-IsConsistent {gnb} (change p old ue at r s) c =
    shrink gnb _ p old ue c at r s refl refl refl (λ k q h. h) (λ k q h. h) (λ k q h. h)
Step-IsConsistent {gnb} (release p ue gnb' at done) c =
    let (closed, e) = delete_inv gnb p ue gnb' at done in
    subst IsConsistent (sym e) (
      shrink gnb _ p ue (record ue { gnb_tx = none }) c at refl refl refl refl refl
        (λ k q h. ground arith) (λ k q h. ground arith)
        (λ k q h. ground (arith, delete_teids_lem ue.context.pdu_session gnb.teid_pool k)))
Step-IsConsistent {gnb} (adjust gnb' ran pr teid ids tids same) c =
    adjust-IsConsistent gnb gnb' ran pr teid ids tids same c

pub Reach-IsConsistent :
    {gnb gnb' : GnbContext} → Reach gnb gnb' → IsConsistent gnb → IsConsistent gnb'
Reach-IsConsistent here c = c
Reach-IsConsistent (next r st) c = Step-IsConsistent st (Reach-IsConsistent r c)

-- What the clients of the pools rely on: the RAN id and the TEID that come next are free, and no UE
-- object stands in the pool under two RAN ids.
pub record IsUsable (gnb : GnbContext) : Type 0 where
  pub next_id_free : get_gnb_ue gnb gnb.id_ue_generator ≡ none
  pub next_teid_free : get_gnb_ue_by_teid gnb gnb.teid_generator ≡ none
  pub one_id_each : (j k p : ℕ) → get_gnb_ue gnb j ≡ some p → get_gnb_ue gnb k ≡ some p → j ≡ k

IsConsistent-IsUsable : (gnb : GnbContext) → IsConsistent gnb → IsUsable gnb
IsConsistent-IsUsable gnb c = record {
  next_id_free = elim (Option-cases (get_gnb_ue gnb gnb.id_ue_generator)) [
    | inl e ↦ e
    | inr (p, e) ↦
        absurd (let (_, _, _, below) = c.ran_ids gnb.id_ue_generator p e in omega (arith, below))
  ];
  next_teid_free = elim (Option-cases (get_gnb_ue_by_teid gnb gnb.teid_generator)) [
    | inl e ↦ e
    | inr (p, e) ↦ absurd (let (_, below) = c.teids gnb.teid_generator p e in omega (arith, below))
  ];
  one_id_each = λ j k p hj hk.
      let (u, at_u, named_u, _) = c.ran_ids j p hj in
      let (v, at_v, named_v, _) = c.ran_ids k p hk in
      let same : u ≡ v = cc (at_u, at_v) in
      sym named_u ∙ ap (λ (w : GnbUe). w.ran_ue_ngap_id) same ∙ named_v;
}

-- From a new gNB context, whatever UEs connect, are tunnelled, changed and deleted, and whatever else
-- of the context or of UE objects changes but their ids, in any order and as long as the generators do not wrap, every entry of the pools leads to the UE that has the entry's
-- id, the next RAN id and TEID are free, and no UE object has two RAN ids.
pub Reach-IsConsistent-IsUsable :
    (gnb_id mcc mnc tac sst sd : List ℕ) (n2 n3 : AddrPort) (channel : ℕ) (gnb : GnbContext)
    → Reach (new_ran_gnb_context gnb_id mcc mnc tac sst sd n2 n3 channel) gnb
    → IsConsistent gnb × IsUsable gnb
Reach-IsConsistent-IsUsable gnb_id mcc mnc tac sst sd n2 n3 channel gnb r =
    let start = new_ran_gnb_context-IsConsistent gnb_id mcc mnc tac sst sd n2 n3 channel in
    let c = Reach-IsConsistent r start in (c, IsConsistent-IsUsable gnb c)
