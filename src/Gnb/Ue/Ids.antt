-- ===== src/Gnb/Ue/Ids.antt =====
-- The operations on a UE object leave its two ids alone.
use packet_rusher.Base.{
  ℕ, ◌≡◌, refl, Bool, true, false, Option, none, some, List, ok, ◌>>=◌, Post, after, at,
  if◌then◌else◌,
}
use packet_rusher.Base.Int.{ℤ}
use packet_rusher.Gnb.Ue.{
  GnbUe, GnbPduSession, Request, Result, done, error, SessionError, create_ue_context, mobility_of,
  put_session, create_pdu_session, delete_pdu_session, slot, is_refused_id, with_session,
  is_wanted_nssai,
}

pub record HasIdsOf (old new : GnbUe) : Type 0 where
  pub ran : new.ran_ue_ngap_id ≡ old.ran_ue_ngap_id
  pub pr : new.pr_ue_id ≡ old.pr_ue_id

pub ids_refl : (ue : GnbUe) → HasIdsOf ue ue
ids_refl ue = record { ran = refl; pr = refl }

pub create_ue_context-ids :
    (ue : GnbUe) (plmn imeisv : List ℕ) (sst sd : List (List ℕ)) (caps : Option ℕ)
    → Post (HasIdsOf ue) (create_ue_context ue plmn imeisv sst sd caps)
unfolding create_ue_context
create_ue_context-ids ue plmn imeisv sst sd caps =
    after (HasIdsOf ue) (mobility_of plmn) _ (λ m. record { ran = refl; pr = refl })

-- What holds of the UE in a result.
abbrev pub HasIdsIn : {A : Type 0} → GnbUe → Result (GnbUe × A) → Type 0
HasIdsIn ue (done r) = HasIdsOf ue r.0
HasIdsIn ue (error e) = Unit

put_session-ids :
    (ue : GnbUe) (i : ℕ) (old : Option GnbPduSession) (r : Request)
    → HasIdsIn ue (put_session ue i old r)
unfolding put_session
put_session-ids ue i (some old) r = tt
put_session-ids ue i none r = go (is_wanted_nssai ue r.sst r.sd)
  where
    go :
        (b : Bool)
        → HasIdsIn ue (
            if b
            then done (with_session ue i (some r), r)
            else error SessionError.slice_not_selected)
    go true = record { ran = refl; pr = refl }
    go false = tt

pub create_pdu_session-ids :
    (ue : GnbUe) (r : Request) → Post (HasIdsIn ue) (create_pdu_session ue r)
unfolding create_pdu_session
create_pdu_session-ids ue r = go (is_refused_id r.pdu_session_id)
  where
    go :
        (b : Bool)
        → Post (HasIdsIn ue) (
            if b then ok (error SessionError.bad_id) else (do
              i ← slot r.pdu_session_id
              old ← at ue.context.pdu_session i
              ok (put_session ue i old r)))
    go true = tt
    go false = after (HasIdsIn ue) (slot r.pdu_session_id) _ (λ i.
        after (HasIdsIn ue) (at ue.context.pdu_session i) _ (λ old. put_session-ids ue i old r))

abbrev pub HasIdsLeft : GnbUe → Result GnbUe → Type 0
HasIdsLeft ue (done ue') = HasIdsOf ue ue'
HasIdsLeft ue (error e) = Unit

pub delete_pdu_session-ids : (ue : GnbUe) (id : ℤ) → Post (HasIdsLeft ue) (delete_pdu_session ue id)
unfolding delete_pdu_session
delete_pdu_session-ids ue id = go (is_refused_id id)
  where
    go :
        (b : Bool)
        → Post (HasIdsLeft ue) (
            if b
            then ok (error SessionError.bad_id)
            else (slot id >>= λ i. ok (done (with_session ue i none))))
    go true = tt
    go false = after (HasIdsLeft ue) (slot id) _ (λ i. record { ran = refl; pr = refl })
