-- ===== src/Gnb/Ngap/Status/Moved.antt =====
-- The UEs of an AMF that is removed.
use packet_rusher.Base.{
  ℕ, zero, suc, ◌+◌, ◌≡◌, ◌≢◌, refl, sym, ap, ◌∙◌, ◌⊎◌, inl, inr, Bool, true, false, some, List, [],
  ◌∷◌, ok, arith, get_elem?, Bool-cases, ◌==◌, if◌then◌else◌, Pool,
}
use packet_rusher.Gnb.Amf.{GnbAmf}
use packet_rusher.Gnb.Ue.{GnbUe}
use packet_rusher.Gnb.Context.{
  GnbContext, get_gnb_ue, get_gnb_ue_by_pr_ue_id, delete_gnb_amf, remove_key,
}
use packet_rusher.Gnb.Context.Pools.{ue_at}
use packet_rusher.Gnb.Context.Invariant.{IsConsistent}
use packet_rusher.Gnb.Messages.{release}
use packet_rusher.Gnb.Ngap.Status.{rebound, visited, rebind_at, rebind_from, remove_amf}

-- A UE object that one of the pools leads to.
abbrev pub IsRegistered : GnbContext → ℕ → Type 0
IsRegistered gnb p =
    (k : ℕ) × ((get_gnb_ue gnb k ≡ some p) ⊎ (get_gnb_ue_by_pr_ue_id gnb k ≡ some p))

-- No AMF of the pool has this key.
abbrev pub IsAbsent : ℕ → List (ℕ × GnbAmf) → Type 0
IsAbsent k [] = Unit {0}
IsAbsent k ((j, amf) ∷ rest) = (j ≢ k) × IsAbsent k rest

pub record Moved (old backup : GnbAmf) (gnb gnb' : GnbContext) : Type 0 where
  pub moved :
      (p : ℕ) (ue : GnbUe)
      → IsRegistered gnb p
      → ue_at gnb p ≡ some ue
      → ue.amf_id ≡ old.amf_id
      → ue_at gnb' p
        ≡ some (record ue { amf_id = backup.amf_id; sctp_connection = backup.tnla.sctp_conn })
  pub kept :
      (p : ℕ) (ue : GnbUe) → ue_at gnb p ≡ some ue → ue.amf_id ≢ old.amf_id → ue_at gnb' p ≡ some ue
  pub removed : IsAbsent old.amf_id gnb'.amf_pool
  pub by_ran_id : (k : ℕ) → get_gnb_ue gnb' k ≡ get_gnb_ue gnb k

remove_key-IsAbsent : (k : ℕ) (l : List (ℕ × GnbAmf)) → IsAbsent k (remove_key k l)
unfolding remove_key
remove_key-IsAbsent k [] = tt
remove_key-IsAbsent k ((j, amf) ∷ rest) = elim (Bool-cases (j == k)) [
  | inl e ↦ rw e (remove_key-IsAbsent k rest)
  | inr e ↦ rw e ((λ same. ground arith), remove_key-IsAbsent k rest)
]

rebind_from-at :
    (gnb : GnbContext) (old backup : GnbAmf) (q p : ℕ) (l : List GnbUe) (ue : GnbUe)
    → get_elem? l p ≡ some ue
    → get_elem? (rebind_from gnb old backup q l) p ≡ some (rebind_at gnb old backup (q + p) ue)
unfolding rebind_from
rebind_from-at gnb old backup q p [] ue h = cc
rebind_from-at gnb old backup q zero (u ∷ rest) ue h =
    let same : u ≡ ue = cc in let here : q ≡ q + 0 = omega arith in rw (same, ← here) refl
rebind_from-at gnb old backup q (suc p) (u ∷ rest) ue h =
    let shifted : suc q + p ≡ q + suc p = omega arith in
    rebind_from-at gnb old backup (suc q) p rest ue h
    ∙ ap (λ (n : ℕ). some (rebind_at gnb old backup n ue)) shifted

at_start :
    (gnb : GnbContext) (old backup : GnbAmf) (p : ℕ) (ue : GnbUe)
    → rebind_at gnb old backup (0 + p) ue ≡ rebind_at gnb old backup p ue
at_start gnb old backup p ue =
    let e : 0 + p ≡ p = omega arith in ap (λ (n : ℕ). rebind_at gnb old backup n ue) e

visited_own : (pool : Pool ℕ) (k p : ℕ) → pool k ≡ some p → visited pool k p ≡ true
visited_own pool k p h = rw h (ground arith)

if_same {ℓ} : {A : Type ℓ} (b : Bool) (x y : A) → x ≡ y → (if b then x else y) ≡ y
if_same true x y e = e
if_same false x y e = refl

-- Where the AMF is another one, no walk does anything.
rebound_other :
    (old backup : GnbAmf) (ue : GnbUe) → ue.amf_id ≢ old.amf_id → rebound old backup ue ≡ ue
rebound_other old backup ue ne =
    let apart : (ue.amf_id == old.amf_id) ≡ false = ground arith in rw apart refl

rebind_other :
    (gnb : GnbContext) (old backup : GnbAmf) (p : ℕ) (ue : GnbUe)
    → ue.amf_id ≢ old.amf_id
    → rebind_at gnb old backup p ue ≡ ue
unfolding rebind_at
rebind_other gnb old backup p ue ne =
    let v1 = visited gnb.ue_pool ue.ran_ue_ngap_id p in
    let v2 = visited gnb.pr_ue_pool ue.pr_ue_id p in
    let first : GnbUe = if v1 then rebound old backup ue else ue in
    let e : first ≡ ue = if_same v1 (rebound old backup ue) ue (rebound_other old backup ue ne) in
    let other : first.amf_id ≢ old.amf_id = λ h. ne (sym (ap (λ (u : GnbUe). u.amf_id) e) ∙ h) in
    if_same v2 (rebound old backup first) first (rebound_other old backup first other) ∙ e

abbrev moved_to : GnbAmf → GnbUe → GnbUe
moved_to backup ue = record ue { amf_id = backup.amf_id; sctp_connection = backup.tnla.sctp_conn }

rebound_this :
    (old backup : GnbAmf) (ue : GnbUe)
    → ue.amf_id ≡ old.amf_id
    → rebound old backup ue ≡ moved_to backup ue
rebound_this old backup ue e =
    let same : (ue.amf_id == old.amf_id) ≡ true = ground arith in rw same refl

-- A second walk does nothing more.
rebound_again :
    (old backup : GnbAmf) (ue : GnbUe)
    → rebound old backup (moved_to backup ue) ≡ moved_to backup ue
rebound_again old backup ue = elim (Bool-cases (backup.amf_id == old.amf_id)) [
  | inl e ↦ rw e refl
  | inr e ↦ rw e refl
]

-- Where the AMF is this one, one walk that visits the object is enough.
rebind_this :
    (v1 v2 : Bool) (old backup : GnbAmf) (ue : GnbUe)
    → ue.amf_id ≡ old.amf_id
    → (v1 ≡ true) ⊎ (v2 ≡ true)
    → let first : GnbUe = if v1 then rebound old backup ue else ue in
      (if v2 then rebound old backup first else first) ≡ moved_to backup ue
rebind_this true true old backup ue e v =
    ap (rebound old backup) (rebound_this old backup ue e) ∙ rebound_again old backup ue
rebind_this true false old backup ue e v = rebound_this old backup ue e
rebind_this false true old backup ue e v = rebound_this old backup ue e
rebind_this false false old backup ue e (inl v) = cc
rebind_this false false old backup ue e (inr v) = cc

-- In consistent pools, a registered UE is visited under its own id.
visited_registered :
    (gnb : GnbContext) (p k : ℕ) (ue : GnbUe)
    → IsConsistent gnb
    → ue_at gnb p ≡ some ue
    → (get_gnb_ue gnb k ≡ some p) ⊎ (get_gnb_ue_by_pr_ue_id gnb k ≡ some p)
    → (visited gnb.ue_pool ue.ran_ue_ngap_id p ≡ true)
      ⊎ (visited gnb.pr_ue_pool ue.pr_ue_id p ≡ true)
visited_registered gnb p k ue c at (inl h) =
    let (u, there, named, _) = c.ran_ids k p h in
    let same : u ≡ ue = cc (there, at) in
    let own : ue.ran_ue_ngap_id ≡ k = sym (ap (λ (v : GnbUe). v.ran_ue_ngap_id) same) ∙ named in
    inl (visited_own gnb.ue_pool ue.ran_ue_ngap_id p (ap gnb.ue_pool own ∙ h))
visited_registered gnb p k ue c at (inr h) =
    let (u, there, named, _) = c.pr_ids k p h in
    let same : u ≡ ue = cc (there, at) in
    let own : ue.pr_ue_id ≡ k = sym (ap (λ (v : GnbUe). v.pr_ue_id) same) ∙ named in
    inr (visited_own gnb.pr_ue_pool ue.pr_ue_id p (ap gnb.pr_ue_pool own ∙ h))

-- When an AMF is removed for a backup and the pools are consistent, every UE that one of the pools leads
-- to and that is with the removed AMF is then with the backup, over its connection; the UEs of other
-- AMFs are as they were, as is the pool by RAN id; no AMF of the pool has the removed id, and the
-- removed AMF's connection is closed.
pub remove_amf-Moved :
    (old backup : GnbAmf) (gnb : GnbContext)
    → IsConsistent gnb
    → (gnb' : GnbContext) × (remove_amf old backup gnb ≡ ok (gnb', release old.tnla.sctp_conn ∷ []))
      × Moved old backup gnb gnb'
unfolding remove_amf delete_gnb_amf
remove_amf-Moved old backup gnb c = (
  delete_gnb_amf (record gnb { ues = rebind_from gnb old backup 0 gnb.ues }) old.amf_id,
  refl,
  record {
    moved = λ p ue (k, h) at e.
        rebind_from-at gnb old backup 0 p gnb.ues ue at
        ∙ ap (λ (u : GnbUe). some u)
            (at_start gnb old backup p ue
              ∙ rebind_this (visited gnb.ue_pool ue.ran_ue_ngap_id p)
                  (visited gnb.pr_ue_pool ue.pr_ue_id p) old backup ue e
                  (visited_registered gnb p k ue c at h));
    kept = λ p ue at ne.
        rebind_from-at gnb old backup 0 p gnb.ues ue at
        ∙ ap (λ (u : GnbUe). some u)
            (at_start gnb old backup p ue ∙ rebind_other gnb old backup p ue ne);
    removed = remove_key-IsAbsent old.amf_id gnb.amf_pool;
    by_ran_id = λ k. refl;
  },
)
