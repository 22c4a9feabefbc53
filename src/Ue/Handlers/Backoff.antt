-- ===== src/Ue/Handlers/Backoff.antt =====
-- The retries of a rejected session: `T3580` of internal/control_test_engine/ue/nas/handler/handler.go.
use packet_rusher.Base.{
  ℕ, suc, ◌+◌, ◌^◌, ◌≤◌, ◌<◌, ◌≡◌, refl, sym, ap, ◌∙◌, Bool, true, false, Option, none, some, List,
  [], ◌∷◌, Outcome, ok, panic, fatal, blocked, ◌>>=◌, deref, at, ◌%◌, subst, take, arith, length,
  get_elem?, get_elem?-set_self, within, ltb, ltb→lt, if◌then◌else◌,
}
use packet_rusher.Ue.Context.{
  UeContext, UePduSession, Security, UeOutput, retry_timer, emit, put_object, get_pdu_session,
  sm_active_pending,
}
use packet_rusher.Ue.Nas.{NasLib, pdu_session_request}
use packet_rusher.Ue.Security.{
  integrity_protected_and_ciphered, secure, secured, send_nas, send_to_gnb,
  encode_nas_pdu_with_security,
}
use packet_rusher.Ue.Trigger.{init_pdu_session_request_inner}
use packet_rusher.Ue.Handlers.{on_establishment_reject, retry_found, on_retry_timer}

-- Nothing but the security state and the outputs differs, as far as sessions go.
abbrev Same : UeContext → UeContext → Type 0
Same ue ue' = (ue'.objects ≡ ue.objects) × (ue'.pdu_session ≡ ue.pdu_session)

secured-Same :
    (ue ue' : UeContext) (b : List ℕ) (o : Option (List ℕ × Security))
    → secured ue o ≡ ok (ue', b)
    → Same ue ue'
secured-Same ue ue' b none e = cc
secured-Same ue ue' b (some (bytes, s)) e =
    let same : record ue { security = s } ≡ ue' = cc in
    (sym (ap (λ (u : UeContext). u.objects) same), sym (ap (λ (u : UeContext). u.pdu_session) same))

send_to_gnb-Same : (c : Option ℕ) (m : List ℕ) (ue : UeContext) → Same ue (send_to_gnb c m ue)
unfolding send_to_gnb
send_to_gnb-Same none m ue = (refl, refl)
send_to_gnb-Same (some c) m ue = (refl, refl)

-- The session at `p` has been retried `r` times, and its id leads to it.
abbrev HasRetried : ℕ → ℕ → ℕ → UeContext → Type 0
HasRetried id p r ue =
    (s : UePduSession) × (get_elem? ue.objects p ≡ some s)
    × (s.t3580_retries ≡ r)
    × (get_pdu_session ue id ≡ ok (some p))

get_same :
    (ue ue' : UeContext) (id : ℕ)
    → ue'.pdu_session ≡ ue.pdu_session
    → get_pdu_session ue' id ≡ get_pdu_session ue id
unfolding get_pdu_session
get_same ue ue' id h =
    ap (λ (t : List (Option ℕ)). if ltb 15 id then ok none else at t ((id + 255) % 256)) h

module _ (p : ℕ) where
  abbrev count_retry : UeContext → Option UePduSession → Outcome UeContext
  count_retry sent o =
      deref o >>= λ s. ok (put_object sent p (record s { t3580_retries = s.t3580_retries + 1 }))

  -- After a retry of the session `s`.
  abbrev IsRetried : UePduSession → UeContext → UeContext → Type 0
  IsRetried s ue done =
      (get_elem? done.objects p
        ≡ some (record s { state_sm = sm_active_pending; t3580_retries = s.t3580_retries + 1 }))
      × (done.pdu_session ≡ ue.pdu_session)

  counted :
      (sent done : UeContext) (s : UePduSession)
      → get_elem? sent.objects p ≡ some s
      → count_retry sent (get_elem? sent.objects p) ≡ ok done
      → (get_elem? done.objects p ≡ some (record s { t3580_retries = s.t3580_retries + 1 }))
        × (done.pdu_session ≡ sent.pdu_session)
  counted sent done s h e =
      let next : UePduSession = record s { t3580_retries = s.t3580_retries + 1 } in
      let result : ok (put_object sent p next) ≡ ok done = sym (ap (count_retry sent) h) ∙ e in
      let same : put_object sent p next ≡ done = cc in
      (
        ap (λ (u : UeContext). get_elem? u.objects p) (sym same)
            ∙ get_elem?-set_self sent.objects p next (within sent.objects p s h),
        ap (λ (u : UeContext). u.pdu_session) (sym same),
      )

  sent_and_counted :
      (ue done : UeContext) (s : UePduSession) (o : Outcome (UeContext × List ℕ))
      → ((u : UeContext) (b : List ℕ) → o ≡ ok (u, b) → Same ue u)
      → get_elem? ue.objects p ≡ some s
      → ((o >>= λ r.
            ok (send_nas (put_object r.0 p (record s { state_sm = sm_active_pending })) r.1))
          >>= λ sent. count_retry sent (get_elem? sent.objects p))
        ≡ ok done
      → IsRetried s ue done
  unfolding send_nas
  sent_and_counted ue done s (ok (u, b)) keeps h e =
      let pending : UePduSession = record s { state_sm = sm_active_pending } in
      let put : UeContext = put_object u p pending in
      let sent : UeContext = send_to_gnb put.gnb_rx b put in
      let kept : Same ue u = keeps u b refl in
      let passed : Same put sent = send_to_gnb-Same put.gnb_rx b put in
      let there : get_elem? u.objects p ≡ some s =
        ap (λ (l : List UePduSession). get_elem? l p) kept.0 ∙ h in
      let found : get_elem? sent.objects p ≡ some pending =
        ap (λ (l : List UePduSession). get_elem? l p) passed.0
        ∙ get_elem?-set_self u.objects p pending (within u.objects p s there) in
      let (object, table) = counted sent done pending found e in (object, table ∙ passed.1 ∙ kept.1)
  sent_and_counted ue done s panic keeps h e = cc
  sent_and_counted ue done s fatal keeps h e = cc
  sent_and_counted ue done s blocked keeps h e = cc

  on_retry_timer-IsRetried :
      (lib : NasLib) (ue done : UeContext) (s : UePduSession)
      → get_elem? ue.objects p ≡ some s
      → on_retry_timer lib ue p ≡ ok done
      → IsRetried s ue done
  unfolding on_retry_timer init_pdu_session_request_inner secure
  on_retry_timer-IsRetried lib ue done s h e =
      let encoded =
        encode_nas_pdu_with_security lib ue.security (lib.encode ue (pdu_session_request s.id))
          integrity_protected_and_ciphered true false in
      sent_and_counted ue done s (secured ue encoded) (λ u b. secured-Same ue u b encoded) h
        (sym (
            ap
              (λ (o : Option UePduSession).
                (deref o >>= λ s.
                secure lib ue integrity_protected_and_ciphered (pdu_session_request s.id) false
                >>= λ r.
                    ok
                      (send_nas (put_object r.0 p (record s { state_sm = sm_active_pending })) r.1))
                >>= λ sent. count_retry sent (get_elem? sent.objects p))
              h)
          ∙ e)

-- Rounds of a reject about the session `id`, whose object is at `p`, that starts the timer, and the
-- retry at its end; the list holds the seconds that each waited.
pub data Rounds (lib : NasLib) (id p : ℕ) : UeContext → List ℕ → UeContext → Type 0 where
  stay : {ue : UeContext} → Rounds lib id p ue [] ue
  again :
      {ue retried ue' : UeContext} {seconds : ℕ} {later : List ℕ}
      → on_establishment_reject lib ue id ≡ ok (emit (retry_timer p seconds) ue)
      → on_retry_timer lib (emit (retry_timer p seconds) ue) p ≡ ok retried
      → Rounds lib id p retried later ue'
      → Rounds lib id p ue (seconds ∷ later) ue'

abbrev IsBackoff : ℕ → List ℕ → Type 0
IsBackoff r [] = Unit {0}
IsBackoff r (x ∷ later) = (r < 5) × (x ≡ 5 ^ r) × IsBackoff (suc r) later

abbrev outputs_of : Outcome UeContext → List UeOutput
outputs_of (ok ue) = ue.outputs
outputs_of _ = []

timer_set :
    (ue : UeContext) (p w x : ℕ) (b : Bool)
    → ok (if b then emit (retry_timer p w) ue else ue) ≡ ok (emit (retry_timer p x) ue)
    → (b ≡ true) × (x ≡ w)
timer_set ue p w x true e =
    let out : retry_timer p w ∷ ue.outputs ≡ retry_timer p x ∷ ue.outputs = ap outputs_of e in
    (refl, cc)
timer_set ue p w x false e =
    let out : ue.outputs ≡ retry_timer p x ∷ ue.outputs = ap outputs_of e in
    let longer : length ue.outputs ≡ suc (length ue.outputs) = ap length out in absurd (omega arith)

armed :
    (lib : NasLib) (id p r x : ℕ) (ue : UeContext)
    → HasRetried id p r ue
    → on_establishment_reject lib ue id ≡ ok (emit (retry_timer p x) ue)
    → (r < 5) × (x ≡ 5 ^ r)
unfolding on_establishment_reject retry_found
armed lib id p r x ue (s, object, retries, known) e =
    let value : ok
          (if ltb s.t3580_retries 5 then emit (retry_timer p (5 ^ s.t3580_retries)) ue else ue)
        ≡ ok (emit (retry_timer p x) ue) =
      sym (
        ap (λ (o : Outcome (Option ℕ)). o >>= retry_found lib ue) known
        ∙ ap
            (λ (o : Option UePduSession). deref o >>= λ s.
              ok (
                if ltb s.t3580_retries 5
                then emit (retry_timer p (5 ^ s.t3580_retries)) ue
                else ue))
            object)
      ∙ e in
    let (early, wait) = timer_set ue p (5 ^ s.t3580_retries) x (ltb s.t3580_retries 5) value in
    (
      subst (λ (n : ℕ). n < 5) retries (ltb→lt s.t3580_retries 5 early),
      wait ∙ ap (λ (n : ℕ). 5 ^ n) retries,
    )

retried-HasRetried :
    (lib : NasLib) (id p r x : ℕ) (ue done : UeContext)
    → HasRetried id p r ue
    → on_retry_timer lib (emit (retry_timer p x) ue) p ≡ ok done
    → HasRetried id p (suc r) done
retried-HasRetried lib id p r x ue done (s, object, retries, known) e =
    let (found, table) =
      on_retry_timer-IsRetried p lib (emit (retry_timer p x) ue) done s object e in
    (
      record s { state_sm = sm_active_pending; t3580_retries = s.t3580_retries + 1 },
      found,
      omega (arith, retries),
      get_same ue done id table ∙ known,
    )

Rounds-IsBackoff :
    {lib : NasLib} {id p : ℕ} {ue ue' : UeContext} {waits : List ℕ} (r : ℕ)
    → Rounds lib id p ue waits ue'
    → HasRetried id p r ue
    → IsBackoff r waits
Rounds-IsBackoff r stay h = tt
Rounds-IsBackoff {lib} {id} {p} {ue} r (again {retried = retried} {seconds = x} rejects retry rest)
      h =
    let (early, wait) = armed lib id p r x ue h rejects in
    (
      early,
      wait,
      Rounds-IsBackoff (suc r) rest (retried-HasRetried lib id p r x ue retried h retry),
    )

backoff_prefix :
    (waits : List ℕ)
    → IsBackoff 0 waits
    → (length waits ≤ 5) × (waits ≡ take (length waits) (1 ∷ 5 ∷ 25 ∷ 125 ∷ 625 ∷ []))
backoff_prefix [] h = (omega arith, refl)
backoff_prefix (a ∷ []) h = (omega arith, cc)
backoff_prefix (a ∷ b ∷ []) h = (omega arith, cc)
backoff_prefix (a ∷ b ∷ c ∷ []) h = (omega arith, cc)
backoff_prefix (a ∷ b ∷ c ∷ d ∷ []) h = (omega arith, cc)
backoff_prefix (a ∷ b ∷ c ∷ d ∷ e ∷ []) h = (omega arith, cc)
backoff_prefix (a ∷ b ∷ c ∷ d ∷ e ∷ f ∷ l) h = absurd (omega arith)

-- A session that the network rejects again and again is retried at most five times, after 1, 5, 25,
-- 125 and 625 seconds: from a session that was not retried before, with an id that leads to it, as
-- long as each reject comes after the retry before it.
pub Rounds-waits :
    (lib : NasLib) (id p : ℕ) (ue ue' : UeContext) (s : UePduSession) (waits : List ℕ)
    → get_elem? ue.objects p ≡ some s
    → s.t3580_retries ≡ 0
    → get_pdu_session ue id ≡ ok (some p)
    → Rounds lib id p ue waits ue'
    → (length waits ≤ 5) × (waits ≡ take (length waits) (1 ∷ 5 ∷ 25 ∷ 125 ∷ 625 ∷ []))
Rounds-waits lib id p ue ue' s waits object fresh known rounds =
    backoff_prefix waits (Rounds-IsBackoff 0 rounds (s, object, fresh, known))
