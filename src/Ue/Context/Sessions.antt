-- ===== src/Ue/Context/Sessions.antt =====
-- The UE's table of PDU sessions.
use packet_rusher.Base.{
  ℕ, zero, suc, ◌+◌, ◌%◌, ◌≤◌, ◌<◌, ◌≡◌, ◌≢◌, refl, ap, ◌∙◌, ◌⊎◌, inl, inr, Bool, true, false,
  Option, none, some, List, [], ◌∷◌, ◌++◌, Outcome, ok, panic, ◌>>=◌, arith, length, set, at, deref,
  get_elem?, get_elem?-set_self, get_elem?-set_ne, length-set, Bool-cases, if◌then◌else◌, ltb, ◌==◌,
  get_elem?-append_last, within,
}
use packet_rusher.Ue.Context.{
  UeContext, UePduSession, sm_inactive, first_free, create_pdu_session, get_pdu_session,
  delete_pdu_session, delete_found, entry, new_session, signal_stop, put_object, UeOutput,
  stop_session,
}

-- The first free place: every place before it is taken.
first_free_lem :
    (l : List (Option ℕ)) (i : ℕ)
    → ((first_free l i ≡ none)
        × ((j : ℕ) → j < length l → (p : ℕ) × (get_elem? l j ≡ some (some p))))
      ⊎ ((j : ℕ) × (first_free l i ≡ some (i + j)) × (j < length l) × (get_elem? l j ≡ some none))
unfolding first_free
first_free_lem [] i = inl (refl, λ j h. absurd (omega arith))
first_free_lem (none ∷ rest) i = inr (0, ground arith, omega arith, refl)
first_free_lem (some p ∷ rest) i = elim (first_free_lem rest (suc i)) [
  | inl (full, taken) ↦ inl (full, λ j. later j taken)
  | inr (j, found, lt, free) ↦
      inr (suc j, found ∙ ap (λ (n : ℕ). some n) (omega arith), omega arith, free)
]
  where
    later :
        (j : ℕ)
        → ((k : ℕ) → k < length rest → (q : ℕ) × (get_elem? rest k ≡ some (some q)))
        → j < suc (length rest)
        → (q : ℕ) × (get_elem? (some p ∷ rest) j ≡ some (some q))
    later zero taken h = (p, refl)
    later (suc k) taken h = taken k (omega arith)

abbrev pub IsTable : UeContext → Type 0
IsTable ue = length ue.pdu_session ≡ 16

index_apart : (i id : ℕ) → i < 16 → id ≢ suc i → ltb 15 id ≡ false → i ≢ (id + 255) % 256
index_apart i id lt ne small = λ e. ground arith

within_15 : (i : ℕ) → i < 15 → ltb 15 (suc i) ≡ false
within_15 i lt = ground arith

get_other :
    (ue ue' : UeContext) (i id : ℕ) (e : Option ℕ)
    → ue'.pdu_session ≡ set ue.pdu_session i e
    → i < 16
    → id ≢ suc i
    → get_pdu_session ue' id ≡ get_pdu_session ue id
unfolding get_pdu_session
get_other ue ue' i id e same lt ne = elim (Bool-cases (ltb 15 id)) [
  | inl beyond ↦ rw beyond
  | inr within ↦
      let apart : i ≢ (id + 255) % 256 = index_apart i id lt ne within in
      rw (within, same, get_elem?-set_ne ue.pdu_session e apart)
]

get_own :
    (ue : UeContext) (i : ℕ) (e : Option ℕ)
    → i < 15
    → get_elem? ue.pdu_session i ≡ some e
    → get_pdu_session ue (suc i) ≡ ok e
unfolding get_pdu_session
get_own ue i e lt here =
    let index : (suc i + 255) % 256 ≡ i = omega arith in rw (within_15 i lt, index, here)

get_beyond : (ue : UeContext) (i : ℕ) → 15 ≤ i → get_pdu_session ue (suc i) ≡ ok none
unfolding get_pdu_session
get_beyond ue i h = ground arith

get_created :
    (ue : UeContext) (i p : ℕ)
    → get_elem? ue.pdu_session i ≡ some (some p)
    → i < 16
    → get_pdu_session ue (suc i) ≡ (if i == 15 then ok none else ok (some p))
get_created ue i p here lt = elim (Bool-cases (i == 15)) [
  | inl last ↦ rw last (get_beyond ue i (ground arith))
  | inr before ↦ rw before (get_own ue i (some p) (ground arith) here)
]

-- A session was created in a free entry `i`.
abbrev pub Created : UeContext → Type 0
Created ue =
    (ue' : UeContext) × (p : ℕ) × (i : ℕ) × (s : UePduSession) × (create_pdu_session ue
      ≡ some (ue', p))
    × (i < 16)
    × (get_elem? ue.pdu_session i ≡ some none)
    × IsTable ue'
    × (get_elem? ue'.objects p ≡ some s)
    × (s.id ≡ i + 1)
    × (s.state_sm ≡ sm_inactive)
    × (get_pdu_session ue' (suc i) ≡ (if i == 15 then ok none else ok (some p)))
    × ((id : ℕ) → id ≢ suc i → get_pdu_session ue' id ≡ get_pdu_session ue id)

created :
    (ue : UeContext) (j : ℕ)
    → IsTable ue
    → first_free ue.pdu_session 0 ≡ some j
    → j < 16
    → get_elem? ue.pdu_session j ≡ some none
    → Created ue
unfolding create_pdu_session
created ue j table found lt free =
    let p = length ue.objects in
    let s = new_session ((j + 1) % 256) in
    let ue' = record ue {
      pdu_session = set ue.pdu_session j (some p);
      objects = ue.objects ++ s ∷ [];
    } in
    (
      ue',
      p,
      j,
      s,
      rw (found, create_pdu_session) refl,
      lt,
      free,
      length-set ue.pdu_session j (some p) ∙ table,
      get_elem?-append_last ue.objects s,
      omega arith,
      refl,
      get_created ue' j p (get_elem?-set_self ue.pdu_session j (some p) (omega (arith, table))) lt,
      λ id ne. get_other ue ue' j id (some p) refl lt ne,
    )

-- Creating a session fails only if all sixteen entries are in use. Otherwise it takes a free entry,
-- numbers the new inactive session from 1 by that entry, and leaves all other ids alone; the session
-- is what its id then gives, unless it is the sixteenth, whose id `GetPduSession` does not find.
pub ue_create_session-get :
    (ue : UeContext)
    → IsTable ue
    → ((create_pdu_session ue ≡ none)
        × ((j : ℕ) → j < 16 → (p : ℕ) × (get_elem? ue.pdu_session j ≡ some (some p))))
      ⊎ Created ue
unfolding create_pdu_session
ue_create_session-get ue table = elim (first_free_lem ue.pdu_session 0) [
  | inl (full, taken) ↦
      inl (rw (full, create_pdu_session) refl, λ j h. taken j (omega (arith, table)))
  | inr (j, found, lt, free) ↦ inr (
      created ue j table (found ∙ ap (λ (n : ℕ). some n) (omega arith)) (omega (arith, lt, table))
        free)
]

-- What a stop signal gives out.
abbrev pub stops : Option ℕ → List UeOutput
stops none = []
stops (some c) = stop_session c ∷ []

signal_keeps :
    (signal : Option ℕ) (ue : UeContext)
    → ((signal_stop signal ue).pdu_session ≡ ue.pdu_session)
      × ((signal_stop signal ue).objects ≡ ue.objects)
      × ((signal_stop signal ue).outputs ≡ stops signal ++ ue.outputs)
signal_keeps none ue = (refl, refl, refl)
signal_keeps (some c) ue = (refl, refl, refl)

entry_at :
    (ue : UeContext) (i p : ℕ)
    → i < 15
    → get_elem? ue.pdu_session i ≡ some (some p)
    → entry ue (suc i) ≡ ok (some p)
entry_at ue i p lt here =
    let index : (suc i + 255) % 256 ≡ i = omega arith in
    ap (λ (n : ℕ). at ue.pdu_session n) index ∙ ap (λ (o : Option (Option ℕ)). deref o) here

delete_found_lem :
    (ue : UeContext) (id p : ℕ) (s : UePduSession)
    → get_elem? ue.objects p ≡ some s
    → s.wait_closed ≡ false
    → delete_found ue id (some p)
      ≡ ok (
          some (
            signal_stop s.stop_signal (record (put_object ue p (record s { wait_closed = true })) {
              pdu_session = set ue.pdu_session ((id + 255) % 256) none;
            })))
unfolding delete_found
delete_found_lem ue id p s object unshut = rw object (
    ap
      (λ (b : Bool). (if b then panic else ok (record s { wait_closed = true })) >>= λ shut. ok (
        some (
          signal_stop s.stop_signal (record (put_object ue p shut) {
            pdu_session = set ue.pdu_session ((id + 255) % 256) none;
          }))))
      unshut)

-- Deleting a session that is found, and whose waiters were not told before, succeeds: its id is then
-- not found, all other ids are as they were, its waiters are told, and its interface is stopped if
-- it has a stop signal.
pub ue_delete_session-get :
    (ue : UeContext) (i p : ℕ) (s : UePduSession)
    → IsTable ue
    → i < 15
    → get_elem? ue.pdu_session i ≡ some (some p)
    → get_elem? ue.objects p ≡ some s
    → s.wait_closed ≡ false
    → (ue' : UeContext) × (delete_pdu_session ue (suc i) ≡ ok (some ue'))
      × IsTable ue'
      × (get_pdu_session ue' (suc i) ≡ ok none)
      × ((id : ℕ) → id ≢ suc i → get_pdu_session ue' id ≡ get_pdu_session ue id)
      × (get_elem? ue'.objects p ≡ some (record s { wait_closed = true }))
      × (ue'.outputs ≡ (stops s.stop_signal ++ ue.outputs))
unfolding delete_pdu_session
ue_delete_session-get ue i p s table lt here object unshut =
    let shut = record s { wait_closed = true } in
    let ue' = signal_stop s.stop_signal (record (put_object ue p shut) {
      pdu_session = set ue.pdu_session ((suc i + 255) % 256) none;
    }) in
    let index : (suc i + 255) % 256 ≡ i = omega arith in
    let kept = signal_keeps s.stop_signal (record (put_object ue p shut) {
      pdu_session = set ue.pdu_session ((suc i + 255) % 256) none;
    }) in
    let same : ue'.pdu_session ≡ set ue.pdu_session i none =
      kept.0 ∙ ap (λ (n : ℕ). set ue.pdu_session n none) index in
    (
      ue',
      rw (within_15 i lt) (
          ap (λ (e : Outcome (Option ℕ)). e >>= delete_found ue (suc i)) (entry_at ue i p lt here)
          ∙ delete_found_lem ue (suc i) p s object unshut),
      ap (λ (l : List (Option ℕ)). length l) same ∙ length-set ue.pdu_session i none ∙ table,
      get_own ue' i none lt (
          ap (λ (l : List (Option ℕ)). get_elem? l i) same
          ∙ get_elem?-set_self ue.pdu_session i none (omega (arith, table))),
      (λ id ne. get_other ue ue' i id none same (omega arith) ne),
      ap (λ (l : List UePduSession). get_elem? l p) kept.1
          ∙ get_elem?-set_self ue.objects p shut (within ue.objects p s object),
      kept.2,
    )
