-- ===== src/Gnb/Context/Kept.antt =====
-- What an operation does to the context: steps that keep the pools consistent, with at most so many new
-- TEIDs.
use packet_rusher.Base.{
  ℕ, ◌+◌, ◌<◌, ◌≤◌, ◌≡◌, refl, ap, ◌⊎◌, inl, inr, Option, none, some, List, Outcome, ok, panic,
  fatal, blocked, arith, length, set, Post, Option-cases, deref,
}
use packet_rusher.Gnb.Ue.{GnbUe}
use packet_rusher.Gnb.Amf.{GnbAmf}
use packet_rusher.Gnb.Context.{
  GnbContext, get_ue_teid, delete_gnb_ue, new_gnb_ue, uint32_mod, int64_mod,
}
use packet_rusher.Gnb.Context.Pools.{ue_at}
use packet_rusher.Gnb.Context.Invariant.{
  Reach, here, next, connect, tunnel, change, release, connect_counts,
}
use packet_rusher.Gnb.Context.Reachable.{delete_inv}

pub Reach-trans : {a b c : GnbContext} → Reach a b → Reach b c → Reach a c
Reach-trans r here = r
Reach-trans r (next s step) = next (Reach-trans r s) step

pub record Kept (n : ℕ) (gnb gnb' : GnbContext) : Type 0 where
  pub path : Reach gnb gnb'
  pub teids : gnb'.teid_generator ≤ gnb.teid_generator + n

pub Kept-refl : (gnb : GnbContext) → Kept 0 gnb gnb
Kept-refl gnb = record { path = here; teids = omega arith }

pub Kept-trans : {m n : ℕ} {a b c : GnbContext} → Kept m a b → Kept n b c → Kept (m + n) a c
Kept-trans k l = record {
  path = Reach-trans k.path l.path;
  teids = omega (arith, k.teids, l.teids);
}

pub Kept-more : {m n : ℕ} {a b : GnbContext} → m ≤ n → Kept m a b → Kept n a b
Kept-more h k = record { path = k.path; teids = omega (arith, h, k.teids) }

pub Kept-change :
    (gnb : GnbContext) (p : ℕ) (old ue : GnbUe)
    → ue_at gnb p ≡ some old
    → ue.ran_ue_ngap_id ≡ old.ran_ue_ngap_id
    → ue.pr_ue_id ≡ old.pr_ue_id
    → Kept 0 gnb (record gnb { ues = set gnb.ues p ue })
Kept-change gnb p old ue at r s = record {
  path = next here (change p old ue at r s);
  teids = omega arith;
}

pub Kept-tunnel :
    (gnb : GnbContext) (p : ℕ)
    → p < length gnb.ues
    → gnb.teid_generator + 1 < uint32_mod
    → Kept 1 gnb (get_ue_teid gnb p).0
unfolding get_ue_teid
Kept-tunnel gnb p inside small = record {
  path = next here (tunnel p inside small);
  teids = omega (arith, small);
}

pub Kept-connect :
    (order : List GnbAmf) (gnb : GnbContext) (tx rx : Option ℕ) (pr_ue_id : ℕ) (tmsi : Option ℕ)
    → gnb.id_ue_generator + 1 < int64_mod
    → Kept 0 gnb (new_gnb_ue order gnb tx rx pr_ue_id tmsi).0
Kept-connect order gnb tx rx pr_ue_id tmsi small =
    let (_, tids, _) = connect_counts order gnb tx rx pr_ue_id tmsi in
    record {
      path = next here (connect order tx rx pr_ue_id tmsi small);
      teids = omega (arith, tids);
    }

-- An object that a dereference gave stands at its address.
pub deref-at : (o : Option GnbUe) → Post (λ ue. o ≡ some ue) (deref o)
deref-at none = tt
deref-at (some ue) = refl

deleted-Kept :
    (gnb gnb' : GnbContext) (p : ℕ)
    → delete_gnb_ue gnb p ≡ ok gnb'
    → (ue_at gnb p ≡ none) ⊎ ((ue : GnbUe) × (ue_at gnb p ≡ some ue))
    → Kept 0 gnb gnb'
unfolding delete_gnb_ue
deleted-Kept gnb gnb' p done (inl e) = let absent : panic ≡ ok gnb' = rw e at done in cc
deleted-Kept gnb gnb' p done (inr (ue, at)) =
    let (closed, same) = delete_inv gnb p ue gnb' at done in
    record {
      path = next here (release p ue gnb' at done);
      teids = omega (arith, ap (λ (g : GnbContext). g.teid_generator) same);
    }

pub delete_gnb_ue-Kept :
    (gnb : GnbContext) (p : ℕ) → Post (λ gnb'. Kept 0 gnb gnb') (delete_gnb_ue gnb p)
delete_gnb_ue-Kept gnb p = go (delete_gnb_ue gnb p) refl
  where
    go : (o : Outcome GnbContext) → delete_gnb_ue gnb p ≡ o → Post (λ gnb'. Kept 0 gnb gnb') o
    go (ok gnb') e = deleted-Kept gnb gnb' p e (Option-cases (ue_at gnb p))
    go panic e = tt
    go fatal e = tt
    go blocked e = tt

-- An operation that returns the new context with its outputs.
abbrev pub Keeps : {A : Type 0} → ℕ → GnbContext → Outcome (GnbContext × A) → Type 0
Keeps n gnb run = Post (λ r. Kept n gnb r.0) run
