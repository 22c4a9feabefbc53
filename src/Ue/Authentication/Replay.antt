-- ===== src/Ue/Authentication/Replay.antt =====
-- A challenge that was answered once: internal/control_test_engine/ue/context/context.go.
use packet_rusher.Base.{
  ℕ, List, [], ◌∷◌, ◌≡◌, refl, ap, ◌∙◌, subst, Outcome, ok, panic, fatal, blocked, ◌>>=◌, Post,
  bind, weaken,
}
use packet_rusher.Ue.Context.{UeContext, Security}
use packet_rusher.Ue.Nas.{NasLib}
use packet_rusher.Ue.Authentication.{
  AkaResult, mac_failure, sqn_failure, successful, derivate_kamf, derive_fresh, check_sqn, aka,
  set_kamf, derive_res_star_and_set_key,
}

-- A challenge: its RAND and its AUTN.
abbrev pub Challenge : Type 0
Challenge = List ℕ × List ℕ

-- The UE after these challenges, whatever their results.
unfoldable pub answer_all : NasLib → UeContext → List Challenge → Outcome UeContext
answer_all lib ue [] = ok ue
answer_all lib ue ((rand, autn) ∷ rest) =
    derive_res_star_and_set_key lib ue rand autn >>= λ r. answer_all lib r.0 rest

abbrev keep : NasLib → UeContext → Outcome AkaResult → Outcome (UeContext × AkaResult)
keep lib ue o = o >>= λ q. ok (set_kamf lib ue q, q)

kept :
    (lib : NasLib) (ue ue' : UeContext) (r : AkaResult) (o : Outcome AkaResult)
    → keep lib ue o ≡ ok (ue', r)
    → o ≡ ok r
kept lib ue ue' r (ok q) e = cc
kept lib ue ue' r panic e = cc
kept lib ue ue' r fatal e = cc
kept lib ue ue' r blocked e = cc

-- The second UE's result for each challenge is that of the first.
abbrev Agrees : NasLib → UeContext → UeContext → Type 0
Agrees lib ue ue' =
    (rand autn : List ℕ) → aka lib ue'.security rand autn ≡ aka lib ue.security rand autn

aka-set_kamf :
    (lib : NasLib) (s : Security) (k rand autn : List ℕ)
    → aka lib (record s { kamf = k }) rand autn ≡ aka lib s rand autn
unfolding aka check_sqn derive_fresh derivate_kamf
aka-set_kamf lib s k rand autn = refl

set_kamf-Agrees :
    (lib : NasLib) (ue : UeContext) (r : AkaResult) → Agrees lib ue (set_kamf lib ue r)
set_kamf-Agrees lib ue mac_failure rand autn = refl
set_kamf-Agrees lib ue (sqn_failure auts) rand autn = refl
set_kamf-Agrees lib ue (successful res k) rand autn = aka-set_kamf lib ue.security k rand autn

keep-Agrees :
    (lib : NasLib) (ue : UeContext) (o : Outcome AkaResult)
    → Post (λ (p : UeContext × AkaResult). Agrees lib ue p.0) (keep lib ue o)
keep-Agrees lib ue (ok q) = set_kamf-Agrees lib ue q
keep-Agrees lib ue panic = tt
keep-Agrees lib ue fatal = tt
keep-Agrees lib ue blocked = tt

answer_all-Agrees :
    (lib : NasLib) (ue : UeContext) (challenges : List Challenge)
    → Post (Agrees lib ue) (answer_all lib ue challenges)
unfolding answer_all derive_res_star_and_set_key
answer_all-Agrees lib ue [] = λ rand autn. refl
answer_all-Agrees lib ue ((rand, autn) ∷ rest) =
    bind (λ (p : UeContext × AkaResult). Agrees lib ue p.0) (Agrees lib ue)
      (keep lib ue (aka lib ue.security rand autn)) _
      (keep-Agrees lib ue (aka lib ue.security rand autn))
      (λ p h.
        weaken (Agrees lib p.0) (Agrees lib ue) (answer_all lib p.0 rest)
          (answer_all-Agrees lib p.0 rest) (λ ue' k. λ x y. k x y ∙ h x y))

-- A challenge that the UE has answered gets the same result when it comes again after any further
-- challenges, a success included: whatever sequence numbers the network has used in between, the old
-- one does not go stale.
pub derive-replay :
    (lib : NasLib) (ue first ue' : UeContext) (rand autn : List ℕ) (r : AkaResult)
    (challenges : List Challenge)
    → derive_res_star_and_set_key lib ue rand autn ≡ ok (first, r)
    → answer_all lib first challenges ≡ ok ue'
    → (ue'' : UeContext) × (derive_res_star_and_set_key lib ue' rand autn ≡ ok (ue'', r))
unfolding derive_res_star_and_set_key
derive-replay lib ue first ue' rand autn r challenges e run =
    let once : aka lib ue.security rand autn ≡ ok r =
      kept lib ue first r (aka lib ue.security rand autn) e in
    let then_ : Agrees lib ue first =
      subst (Post (λ (p : UeContext × AkaResult). Agrees lib ue p.0)) e
        (keep-Agrees lib ue (aka lib ue.security rand autn)) in
    let later : Agrees lib first ue' =
      subst (Post (Agrees lib first)) run (answer_all-Agrees lib first challenges) in
    (set_kamf lib ue' r, ap (keep lib ue') (later rand autn ∙ then_ rand autn ∙ once))
