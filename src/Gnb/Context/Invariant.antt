-- ===== src/Gnb/Context/Invariant.antt =====
-- What holds of the pools in every state that the gNB reaches.
use packet_rusher.Base.{
  ℕ, zero, suc, ◌+◌, ◌%◌, ◌<◌, ◌≡◌, ◌≢◌, refl, ap, sym, ◌∙◌, true, false, ◌⊎◌, inl, inr, Option,
  some, List, [], ◌∷◌, ok, arith, length, set, get_elem?, within, get_elem?-set_self,
  get_elem?-set_ne, length-set, length-append, Bool-cases, Option-cases, ◌==◌,
}
use native.Mathlib.Decide.{ℕ_discrete}
use packet_rusher.Gnb.Amf.{GnbAmf, AddrPort}
use packet_rusher.Gnb.Ue.{GnbUe}
use packet_rusher.Gnb.Context.{
  GnbContext, new_ran_gnb_context, store_ue, new_gnb_ue, select_amf_by_active, get_gnb_ue,
  get_gnb_ue_by_pr_ue_id, get_gnb_ue_by_teid, delete_gnb_ue, get_ue_teid, int64_mod, uint32_mod,
}
use packet_rusher.Gnb.Context.Pools.{ue_at, Stored}

-- An entry of the pool by RAN id.
abbrev pub RanEntry : GnbContext → ℕ → ℕ → Type 0
RanEntry gnb k p =
    (ue : GnbUe) × (ue_at gnb p ≡ some ue) × (ue.ran_ue_ngap_id ≡ k) × (k < gnb.id_ue_generator)

abbrev pub PrEntry : GnbContext → ℕ → ℕ → Type 0
PrEntry gnb k p = (ue : GnbUe) × (ue_at gnb p ≡ some ue) × (ue.pr_ue_id ≡ k) × (k ≢ 0)

-- Every entry leads to a UE object that carries the entry's id, and the ids and TEIDs in use are
-- below their generators.
pub record IsConsistent (gnb : GnbContext) : Type 0 where
  pub ran_ids : (k p : ℕ) → get_gnb_ue gnb k ≡ some p → RanEntry gnb k p
  pub pr_ids : (k p : ℕ) → get_gnb_ue_by_pr_ue_id gnb k ≡ some p → PrEntry gnb k p
  pub teids :
      (k p : ℕ)
      → get_gnb_ue_by_teid gnb k ≡ some p
      → (p < length gnb.ues) × (k < gnb.teid_generator)

-- The same objects, each perhaps changed, but not in its two ids.
abbrev pub SameIds : List GnbUe → List GnbUe → Type 0
SameIds [] [] = Unit {0}
SameIds [] (new ∷ news) = ⊥
SameIds (old ∷ olds) [] = ⊥
SameIds (old ∷ olds) (new ∷ news) =
    (new.ran_ue_ngap_id ≡ old.ran_ue_ngap_id) × (new.pr_ue_id ≡ old.pr_ue_id) × SameIds olds news

-- The steps that touch the pools: a UE connects, gets a TEID, has its object changed by a handler
-- that leaves its two ids alone, or is deleted; and what changes objects in such a way, or the rest
-- of the context, and leaves the pools and the generators alone. The generators do not wrap in them.
pub data Step (gnb : GnbContext) : GnbContext → Type 0 where
  connect :
      (order : List GnbAmf) (tx rx : Option ℕ) (pr_ue_id : ℕ) (tmsi : Option ℕ)
      → gnb.id_ue_generator + 1 < int64_mod
      → Step gnb (new_gnb_ue order gnb tx rx pr_ue_id tmsi).0
  tunnel :
      (p : ℕ)
      → p < length gnb.ues
      → gnb.teid_generator + 1 < uint32_mod
      → Step gnb (get_ue_teid gnb p).0
  change :
      (p : ℕ) (old ue : GnbUe)
      → ue_at gnb p ≡ some old
      → ue.ran_ue_ngap_id ≡ old.ran_ue_ngap_id
      → ue.pr_ue_id ≡ old.pr_ue_id
      → Step gnb (record gnb { ues = set gnb.ues p ue })
  release :
      (p : ℕ) (ue : GnbUe) (gnb' : GnbContext)
      → ue_at gnb p ≡ some ue
      → delete_gnb_ue gnb p ≡ ok gnb'
      → Step gnb gnb'
  adjust :
      (gnb' : GnbContext)
      → gnb'.ue_pool ≡ gnb.ue_pool
      → gnb'.pr_ue_pool ≡ gnb.pr_ue_pool
      → gnb'.teid_pool ≡ gnb.teid_pool
      → gnb'.id_ue_generator ≡ gnb.id_ue_generator
      → gnb'.teid_generator ≡ gnb.teid_generator
      → SameIds gnb.ues gnb'.ues
      → Step gnb gnb'

pub data Reach (gnb : GnbContext) : GnbContext → Type 0 where
  here : Reach gnb gnb
  next : {a b : GnbContext} → Reach gnb a → Step a b → Reach gnb b

pub new_ran_gnb_context-IsConsistent :
    (gnb_id mcc mnc tac sst sd : List ℕ) (n2 n3 : AddrPort) (channel : ℕ)
    → IsConsistent (new_ran_gnb_context gnb_id mcc mnc tac sst sd n2 n3 channel)
unfolding new_ran_gnb_context
new_ran_gnb_context-IsConsistent gnb_id mcc mnc tac sst sd n2 n3 channel = record {
  ran_ids = λ k p h. cc;
  pr_ids = λ k p h. cc;
  teids = λ k p h. cc;
}

pub SameIds-at :
    (l m : List GnbUe) (p : ℕ) (old : GnbUe)
    → SameIds l m
    → get_elem? l p ≡ some old
    → (new : GnbUe) × (get_elem? m p ≡ some new)
      × (new.ran_ue_ngap_id ≡ old.ran_ue_ngap_id)
      × (new.pr_ue_id ≡ old.pr_ue_id)
SameIds-at [] m p old same h = cc
SameIds-at (a ∷ l) [] p old same h = absurd same
SameIds-at (a ∷ l) (b ∷ m) zero old (r, s, rest) h =
    let e : a ≡ old = cc in
    (b, refl, r ∙ ap (λ (u : GnbUe). u.ran_ue_ngap_id) e, s ∙ ap (λ (u : GnbUe). u.pr_ue_id) e)
SameIds-at (a ∷ l) (b ∷ m) (suc p) old (r, s, rest) h = SameIds-at l m p old rest h

pub SameIds-length : (l m : List GnbUe) → SameIds l m → length m ≡ length l
SameIds-length [] [] same = refl
SameIds-length [] (b ∷ m) same = absurd same
SameIds-length (a ∷ l) [] same = absurd same
SameIds-length (a ∷ l) (b ∷ m) (_, _, rest) = ap suc (SameIds-length l m rest)

pub SameIds-refl : (l : List GnbUe) → SameIds l l
SameIds-refl [] = tt
SameIds-refl (a ∷ l) = (refl, refl, SameIds-refl l)

-- The UE object at each address after one was replaced by another with its ids.
replaced :
    (l : List GnbUe) (p q : ℕ) (old ue at_q : GnbUe)
    → get_elem? l p ≡ some old
    → ue.ran_ue_ngap_id ≡ old.ran_ue_ngap_id
    → ue.pr_ue_id ≡ old.pr_ue_id
    → get_elem? l q ≡ some at_q
    → (new : GnbUe) × (get_elem? (set l p ue) q ≡ some new)
      × (new.ran_ue_ngap_id ≡ at_q.ran_ue_ngap_id)
      × (new.pr_ue_id ≡ at_q.pr_ue_id)
replaced l p q old ue at_q h r s at = elim (ℕ_discrete p q) [
  | yes e ↦
      let same : old ≡ at_q = cc in
      (
        ue,
        rw (← e) (get_elem?-set_self l p ue (within l p old h)),
        r ∙ ap (λ (u : GnbUe). u.ran_ue_ngap_id) same,
        s ∙ ap (λ (u : GnbUe). u.pr_ue_id) same,
      )
  | no ne ↦ (at_q, get_elem?-set_ne l ue ne ∙ at, refl, refl)
]

-- The pools after a step that only replaced an object, or only removed entries.
pub shrink :
    (gnb gnb' : GnbContext) (p : ℕ) (old ue : GnbUe)
    → IsConsistent gnb
    → ue_at gnb p ≡ some old
    → ue.ran_ue_ngap_id ≡ old.ran_ue_ngap_id
    → ue.pr_ue_id ≡ old.pr_ue_id
    → gnb'.ues ≡ set gnb.ues p ue
    → gnb'.id_ue_generator ≡ gnb.id_ue_generator
    → gnb'.teid_generator ≡ gnb.teid_generator
    → ((k q : ℕ) → get_gnb_ue gnb' k ≡ some q → get_gnb_ue gnb k ≡ some q)
    → ((k q : ℕ) → get_gnb_ue_by_pr_ue_id gnb' k ≡ some q → get_gnb_ue_by_pr_ue_id gnb k ≡ some q)
    → ((k q : ℕ) → get_gnb_ue_by_teid gnb' k ≡ some q → get_gnb_ue_by_teid gnb k ≡ some q)
    → IsConsistent gnb'
shrink gnb gnb' p old ue c at r s objects ids tids ran pr teid = record {
  ran_ids = λ k q h.
      let (u, found, named, below) = c.ran_ids k q (ran k q h) in
      let (new, there, same, _) = replaced gnb.ues p q old ue u at r s found in
      (new, rw objects there, same ∙ named, omega (arith, ids, below));
  pr_ids = λ k q h.
      let (u, found, named, nonzero) = c.pr_ids k q (pr k q h) in
      let (new, there, _, same) = replaced gnb.ues p q old ue u at r s found in
      (new, rw objects there, same ∙ named, nonzero);
  teids = λ k q h.
      let (inside, below) = c.teids k q (teid k q h) in
      (
        omega (arith, inside, ap (λ (l : List GnbUe). length l) objects, length-set gnb.ues p ue),
        omega (arith, below, tids),
      );
}

pub connect_counts :
    (order : List GnbAmf) (gnb : GnbContext) (tx rx : Option ℕ) (pr_ue_id : ℕ) (tmsi : Option ℕ)
    → let gnb' = (new_gnb_ue order gnb tx rx pr_ue_id tmsi).0 in
      (gnb'.id_ue_generator ≡ (gnb.id_ue_generator + 1) % int64_mod)
      × (gnb'.teid_generator ≡ gnb.teid_generator)
      × (length gnb'.ues ≡ length gnb.ues + 1)
unfolding new_gnb_ue store_ue
connect_counts order gnb tx rx pr_ue_id tmsi = elim (Option-cases (select_amf_by_active order)) [
  | inl e ↦ rw (e, new_gnb_ue) (refl, refl, length-append gnb.ues _)
  | inr (amf, e) ↦ rw (e, new_gnb_ue) (refl, refl, length-append gnb.ues _)
]

pub some_inj : {a b : ℕ} → some a ≡ some b → a ≡ b
some_inj h = cc

pub eq_of_test : (a b : ℕ) → (a == b) ≡ true → a ≡ b
eq_of_test a b h = ground arith

pub Stored-IsConsistent :
    (gnb gnb' : GnbContext) (pr_ue_id : ℕ) (ue : GnbUe)
    → IsConsistent gnb
    → Stored gnb pr_ue_id ue gnb'
    → gnb'.id_ue_generator ≡ gnb.id_ue_generator + 1
    → gnb'.teid_generator ≡ gnb.teid_generator
    → length gnb'.ues ≡ length gnb.ues + 1
    → IsConsistent gnb'
Stored-IsConsistent gnb gnb' pr_ue_id ue c s ids tids count = record {
  ran_ids = λ k p h. ran k p h (Bool-cases (k == gnb.id_ue_generator));
  pr_ids = λ k p h. pr k p h (Bool-cases (pr_ue_id == 0)) (Bool-cases (k == pr_ue_id));
  teids = λ k p h.
      let (inside, below) = c.teids k p (sym (s.by_teid k) ∙ h) in
      (omega (arith, inside, count), omega (arith, below, tids));
}
  where
    ran :
        (k p : ℕ)
        → get_gnb_ue gnb' k ≡ some p
        → ((k == gnb.id_ue_generator) ≡ true) ⊎ ((k == gnb.id_ue_generator) ≡ false)
        → RanEntry gnb' k p
    ran k p h (inl e) =
        let at_end : length gnb.ues ≡ p = some_inj (sym (rw e at (s.by_ran_id k)) ∙ h) in
        (ue, rw (← at_end) s.object, s.ran_id ∙ ground arith, omega (arith, ids, eq_of_test _ _ e))
    ran k p h (inr e) =
        let (old, found, named, below) = c.ran_ids k p (sym (rw e at (s.by_ran_id k)) ∙ h) in
        (old, s.others p old found, named, omega (arith, ids, below))

    pr :
        (k p : ℕ)
        → get_gnb_ue_by_pr_ue_id gnb' k ≡ some p
        → ((pr_ue_id == 0) ≡ true) ⊎ ((pr_ue_id == 0) ≡ false)
        → ((k == pr_ue_id) ≡ true) ⊎ ((k == pr_ue_id) ≡ false)
        → PrEntry gnb' k p
    pr k p h (inl zero_id) t =
        let (old, found, named, nonzero) = c.pr_ids k p (sym (rw zero_id at (s.by_pr_id k)) ∙ h) in
        (old, s.others p old found, named, nonzero)
    pr k p h (inr nonzero_id) (inl e) =
        let at_end : length gnb.ues ≡ p =
          some_inj (sym (rw (nonzero_id, e) at (s.by_pr_id k)) ∙ h) in
        (
          ue,
          rw (← at_end) s.object,
          s.pr_id ∙ sym (eq_of_test k pr_ue_id e),
          λ z. cc (nonzero_id, ap (λ (n : ℕ). n == 0) (sym (eq_of_test k pr_ue_id e) ∙ z)),
        )
    pr k p h (inr nonzero_id) (inr e) =
        let (old, found, named, nonzero) =
          c.pr_ids k p (sym (rw (nonzero_id, e) at (s.by_pr_id k)) ∙ h) in
        (old, s.others p old found, named, nonzero)
