-- ===== src/Gnb/Ue/Sessions.antt =====
-- The table of PDU sessions that the gNB keeps for a UE.
use packet_rusher.Base.{
  ℕ, zero, suc, ◌<◌, ◌≡◌, ◌≢◌, refl, ap, sym, ◌∙◌, ◌↔◌, inl, inr, true, false, ◌&&◌, Option, none,
  some, List, [], ◌∷◌, Outcome, ok, panic, arith, length, get_elem?, get_elem?_within,
  get_elem?-set_self, get_elem?-set_ne, length-set, Bool-cases, ltb, text_eq, text_eq_iff,
}
use packet_rusher.Base.Int.{ℤ, pos, negsuc, ◌≤ℤ◌}
use packet_rusher.Gnb.Ue.{
  GnbUe, GnbPduSession, already_exists, slice_not_selected, Result, done, error, max_sessions,
  is_wanted_nssai, wanted_loop, is_refused_id, slot, with_session, put_session, create_pdu_session,
  get_pdu_session, delete_pdu_session, get_selected_nssai,
}

abbrev pub IsArray : GnbUe → Type 0
IsArray ue = length ue.context.pdu_session ≡ max_sessions

abbrev pub InRange : ℤ → Type 0
InRange id = (pos 1 ≤ℤ id) × (id ≤ℤ pos 16)

-- The guard "id < 1 && id > 16" holds of no id.
refused_never : (id : ℤ) → is_refused_id id ≡ false
unfolding is_refused_id
refused_never id = ground arith

slot_within : (id : ℤ) → InRange id → (i : ℕ) × (slot id ≡ ok i) × (i < 16) × (id ≡ pos (suc i))
unfolding slot
slot_within (negsuc n) h = absurd (omega arith)
slot_within (pos zero) h = absurd (omega arith)
slot_within (pos (suc i)) h = (i, ground arith, omega arith, refl)

pub slot-suc : (i : ℕ) → i < 16 → slot (pos (suc i)) ≡ ok i
unfolding slot
slot-suc i h = ground arith

slot_outside : (id : ℤ) → ¬ InRange id → slot id ≡ panic
unfolding slot
slot_outside (negsuc n) h = refl
slot_outside (pos zero) h = refl
slot_outside (pos (suc i)) h = ground arith

-- The range check of the three session methods never refuses: an id outside 1 to 16 always panics.
pub sessions_outside_panic :
    (ue : GnbUe) (r : GnbPduSession)
    → ¬ InRange r.pdu_session_id
    → (create_pdu_session ue r ≡ panic)
      × (get_pdu_session ue r.pdu_session_id ≡ panic)
      × (delete_pdu_session ue r.pdu_session_id ≡ panic)
unfolding create_pdu_session get_pdu_session delete_pdu_session
sessions_outside_panic ue r h =
    let refused = refused_never r.pdu_session_id in
    let outside = slot_outside r.pdu_session_id h in
    (rw (refused, outside), rw (refused, outside), rw (refused, outside))

-- What `pduSession[id - 1]` holds.
get_pdu_session_lem :
    (ue : GnbUe) (i : ℕ) (s : Option GnbPduSession)
    → get_elem? ue.context.pdu_session i ≡ some s
    → i < 16
    → get_pdu_session ue (pos (suc i)) ≡ ok (done s)
unfolding get_pdu_session
get_pdu_session_lem ue i s here h = rw (refused_never (pos (suc i)), slot-suc i h, here)

get_at :
    (ue : GnbUe) (id : ℤ) (i : ℕ) (s : Option GnbPduSession)
    → id ≡ pos (suc i)
    → get_elem? ue.context.pdu_session i ≡ some s
    → i < 16
    → get_pdu_session ue id ≡ ok (done s)
get_at ue id i s e here h = ap (get_pdu_session ue) e ∙ get_pdu_session_lem ue i s here h

-- Inside 1 to 16, on an array of sixteen, the methods return what these readings say.
pub create_within :
    (ue : GnbUe) (r : GnbPduSession) (i : ℕ) (s : Option GnbPduSession)
    → r.pdu_session_id ≡ pos (suc i)
    → i < 16
    → get_elem? ue.context.pdu_session i ≡ some s
    → create_pdu_session ue r ≡ ok (put_session ue i s r)
unfolding create_pdu_session
create_within ue r i s e h here =
    rw (refused_never r.pdu_session_id, (ap slot e ∙ slot-suc i h), here)

-- A slice that is allowed, and a place that is free.
pub put_wanted :
    (ue : GnbUe) (i : ℕ) (r : GnbPduSession)
    → is_wanted_nssai ue r.sst r.sd ≡ true
    → put_session ue i none r ≡ done (with_session ue i (some r), r)
unfolding put_session
put_wanted ue i r wanted = rw wanted refl

-- The session at a place that was just written.
pub selected_after :
    (ue : GnbUe) (i : ℕ) (r : GnbPduSession)
    → r.pdu_session_id ≡ pos (suc i)
    → i < 16
    → i < length ue.context.pdu_session
    → get_selected_nssai (with_session ue i (some r)) r.pdu_session_id ≡ ok (r.sst, r.sd)
unfolding get_selected_nssai
selected_after ue i r e h inside =
    rw (ap slot e ∙ slot-suc i h, get_elem?-set_self ue.context.pdu_session i (some r) inside) refl

delete_within :
    (ue : GnbUe) (i : ℕ)
    → i < 16
    → delete_pdu_session ue (pos (suc i)) ≡ ok (done (with_session ue i none))
unfolding delete_pdu_session
delete_within ue i h = rw (refused_never (pos (suc i)), slot-suc i h)

-- After a write at one place, the other ids read as before.
get_other :
    (ue : GnbUe) (i : ℕ) (s : Option GnbPduSession) (id : ℤ)
    → i < 16
    → id ≢ pos (suc i)
    → get_pdu_session (with_session ue i s) id ≡ get_pdu_session ue id
unfolding get_pdu_session slot
get_other ue i s (negsuc n) h ne = rw (refused_never (negsuc n))
get_other ue i s (pos zero) h ne = rw (refused_never (pos 0))
get_other ue i s (pos (suc j)) h ne =
    let apart : i ≢ j = λ e. ne (ap (λ (n : ℕ). pos (suc n)) (sym e)) in
    elim (Bool-cases (ltb j 16)) [
      | inl within ↦
          rw (refused_never (pos (suc j)), within, get_elem?-set_ne ue.context.pdu_session s apart)
      | inr beyond ↦ rw (refused_never (pos (suc j)), beyond)
    ]

-- How creating a session ends for an id within 1 to 16: the id is in use, or the slice is not
-- allowed, and nothing changes; or the session is returned, is what the id then gives, and all
-- other ids give what they gave.
pub data Created (ue : GnbUe) (r : GnbPduSession)
    : Outcome (Result (GnbUe × GnbPduSession)) → Type 0 where
  in_use :
      (old : GnbPduSession)
      → get_pdu_session ue r.pdu_session_id ≡ ok (done (some old))
      → Created ue r (ok (error already_exists))
  unwanted :
      get_pdu_session ue r.pdu_session_id ≡ ok (done none)
      → is_wanted_nssai ue r.sst r.sd ≡ false
      → Created ue r (ok (error slice_not_selected))
  created :
      (ue' : GnbUe)
      → get_pdu_session ue r.pdu_session_id ≡ ok (done none)
      → is_wanted_nssai ue r.sst r.sd ≡ true
      → IsArray ue'
      → get_pdu_session ue' r.pdu_session_id ≡ ok (done (some r))
      → ((id : ℤ) → id ≢ r.pdu_session_id → get_pdu_session ue' id ≡ get_pdu_session ue id)
      → Created ue r (ok (done (ue', r)))

put-Created :
    (ue : GnbUe) (r : GnbPduSession) (i : ℕ) (s : Option GnbPduSession)
    → IsArray ue
    → r.pdu_session_id ≡ pos (suc i)
    → i < 16
    → get_elem? ue.context.pdu_session i ≡ some s
    → Created ue r (ok (put_session ue i s r))
unfolding put_session
put-Created ue r i (some old) a e h here = in_use old (get_at ue _ i (some old) e here h)
put-Created ue r i none a e h here = elim (Bool-cases (is_wanted_nssai ue r.sst r.sd)) [
  | inl wanted ↦ rw wanted (
      created (with_session ue i (some r)) (get_at ue _ i none e here h) wanted
        (length-set ue.context.pdu_session i (some r) ∙ a)
        (get_at (with_session ue i (some r)) _ i (some r) e
          (get_elem?-set_self ue.context.pdu_session i (some r) (omega arith)) h)
        (λ id ne. get_other ue i (some r) id h (λ q. ne (q ∙ sym e))))
  | inr unwanted_slice ↦ rw unwanted_slice (unwanted (get_at ue _ i none e here h) unwanted_slice)
]

-- On an array of sixteen, creating a session for an id within 1 to 16 returns: with an error that
-- changes nothing if the id is in use or the slice is not allowed, and else with the session, which
-- the id then gives while all other ids give what they gave.
pub create_pdu_session-Created :
    (ue : GnbUe) (r : GnbPduSession)
    → IsArray ue
    → InRange r.pdu_session_id
    → Created ue r (create_pdu_session ue r)
create_pdu_session-Created ue r a h =
    let (i, _, lt, e) = slot_within r.pdu_session_id h in
    let (s, here) = get_elem?_within ue.context.pdu_session i (omega arith) in
    rw (create_within ue r i s e lt here) (put-Created ue r i s a e lt here)

-- On an array of sixteen, deleting a session within 1 to 16 succeeds, empties its id, and leaves all other ids alone.
pub delete_pdu_session-get :
    (ue : GnbUe) (id : ℤ)
    → IsArray ue
    → InRange id
    → (ue' : GnbUe) × (delete_pdu_session ue id ≡ ok (done ue'))
      × IsArray ue'
      × (get_pdu_session ue' id ≡ ok (done none))
      × ((j : ℤ) → j ≢ id → get_pdu_session ue' j ≡ get_pdu_session ue j)
delete_pdu_session-get ue id a h =
    let (i, _, lt, e) = slot_within id h in
    (
      with_session ue i none,
      ap (delete_pdu_session ue) e ∙ delete_within ue i lt,
      length-set ue.context.pdu_session i none ∙ a,
      get_at (with_session ue i none) id i none e
          (get_elem?-set_self ue.context.pdu_session i none (omega arith)) lt,
      λ j ne. get_other ue i none j lt (λ q. ne (q ∙ sym e)),
    )

-- A slice is at one place of both lists.
abbrev pub AllowedAt : List (List ℕ) → List (List ℕ) → List ℕ → List ℕ → ℕ → Type 0
AllowedAt ssts sds sst sd i = (get_elem? ssts i ≡ some sst) × (get_elem? sds i ≡ some sd)

wanted_loop_sound :
    (ssts sds : List (List ℕ)) (sst sd : List ℕ)
    → wanted_loop ssts sds sst sd ≡ true
    → (i : ℕ) × AllowedAt ssts sds sst sd i
unfolding wanted_loop
wanted_loop_sound [] sds sst sd h = cc
wanted_loop_sound (a ∷ ssts) [] sst sd h = cc
wanted_loop_sound (a ∷ ssts) (b ∷ sds) sst sd h =
    elim (Bool-cases (text_eq a sst && text_eq b sd)) [
      | inl here ↦ (0, (ground (arith, text_eq_iff a sst), ground (arith, text_eq_iff b sd)))
      | inr elsewhere ↦
          let (i, at_i) = wanted_loop_sound ssts sds sst sd (ground arith) in (suc i, at_i)
    ]

wanted_loop_complete :
    (ssts sds : List (List ℕ)) (sst sd : List ℕ) (i : ℕ)
    → AllowedAt ssts sds sst sd i
    → wanted_loop ssts sds sst sd ≡ true
unfolding wanted_loop
wanted_loop_complete [] sds sst sd i h = cc
wanted_loop_complete (a ∷ ssts) [] sst sd i h = cc
wanted_loop_complete (a ∷ ssts) (b ∷ sds) sst sd zero h =
    ground (arith, text_eq_iff a sst, text_eq_iff b sd)
wanted_loop_complete (a ∷ ssts) (b ∷ sds) sst sd (suc i) h =
    ground (arith, wanted_loop_complete ssts sds sst sd i)

-- A slice is wanted exactly when the two lists are equally long and hold it at one place.
pub is_wanted_nssai_iff :
    (ue : GnbUe) (sst sd : List ℕ)
    → (is_wanted_nssai ue sst sd ≡ true) ↔ (
        (length ue.context.allowed_sst ≡ length ue.context.allowed_sd)
        × ((i : ℕ) × AllowedAt ue.context.allowed_sst ue.context.allowed_sd sst sd i))
unfolding is_wanted_nssai
is_wanted_nssai_iff ue sst sd =
    let ssts = ue.context.allowed_sst in
    let sds = ue.context.allowed_sd in
    (
      λ h. (ground arith, wanted_loop_sound ssts sds sst sd (ground arith)),
      λ h. ground (arith, h.0, wanted_loop_complete ssts sds sst sd h.1.0 h.1.1),
    )
