-- ===== src/Ue/Dispatch/Verdict.antt =====
-- The checks on a protected message, as relations that say what each of them is for:
-- internal/control_test_engine/ue/nas/dispatcher.go.
use packet_rusher.Base.{
  ℕ, ◌+◌, ◌<◌, ◌≤◌, Bool, true, false, Option, none, some, List, ◌≡◌, ◌≢◌, refl, sym, ap, subst,
  ◌∙◌, ◌%◌, ◌^◌, Outcome, ok, panic, fatal, blocked, ◌>>=◌, ◌==◌, take, drop, deref, text_eq,
  eq_of_text_eq, text_eq_refl, if◌then◌else◌, get_elem?, Post, ltb, arith,
}
use packet_rusher.Ue.Context.{Security}
use packet_rusher.Ue.Nas.{NasLib, DlMessage, downlink}
use packet_rusher.Ue.Dispatch.{
  Verified, rejected, accepted, verify, after_decipher, after_context, check_mac, downlink_mac,
  decipher, take_context, new_context, update_dl_count,
}

module _ (lib : NasLib) where
  -- The MAC in the message is the one over its sequence number and payload.
  abbrev pub IsAuthentic : List ℕ → Security → Type 0
  IsAuthentic message s = downlink_mac lib s message ≡ some (take 4 (drop 2 message))

  -- The downlink count that a sequence number stands for: of this cycle, or of the next one.
  pub data Counted (s : Security) (number : ℕ) : Security → Type 0 where
    same_cycle :
        lib.sqn s.dl_count ≤ number
        → Counted s number (record s { dl_count = lib.make_count (lib.overflow s.dl_count) number })
    next_cycle :
        number < lib.sqn s.dl_count
        → Counted s number
            (record s { dl_count = lib.make_count ((lib.overflow s.dl_count + 1) % 2 ^ 16) number })

  -- What is under the cipher, if there is one.
  pub data Deciphered (s : Security) (body : List ℕ) : Bool → List ℕ → Type 0 where
    clear : Deciphered s body false body
    ciphered :
        {payload : List ℕ}
        → lib.encrypt s.ciphering_alg s.knas_enc (lib.count_value s.dl_count) downlink body
          ≡ some payload
        → Deciphered s body true payload

  -- The state that the MAC is checked in: the one of before, or with the keys of the Security Mode
  -- Command that a new context comes with.
  pub data Keyed (s : Security) : Bool → Option DlMessage → Security → Type 0 where
    kept : {decoded : Option DlMessage} → Keyed s false decoded s
    renewed :
        {m : DlMessage} {t : Security}
        → take_context lib s m ≡ ok (some t)
        → Keyed s true (some m) t

  -- Why a message is discarded, and the state that this leaves.
  pub data Refused (s : Security) (message : List ℕ) (type : ℕ) : Security → Type 0 where
    of_type_four : (type == 4) ≡ true → Refused s message type s
    not_deciphered :
        {number : ℕ} {t : Security}
        → get_elem? message 6 ≡ some number
        → Counted s number t
        → (type == 2) ≡ true
        → lib.encrypt t.ciphering_alg t.knas_enc
            (lib.count_value t.dl_count)
            downlink
            (drop 7 message)
          ≡ none
        → Refused s message type t
    no_context :
        {number : ℕ} {t : Security} {payload : List ℕ} {m : DlMessage}
        → get_elem? message 6 ≡ some number
        → Counted s number t
        → Deciphered t (drop 7 message) (type == 2) payload
        → (type == 3) ≡ true
        → lib.plain_decode payload ≡ some m
        → take_context lib t m ≡ ok none
        → Refused s message type t
    not_authentic :
        {number : ℕ} {t t' : Security} {payload : List ℕ}
        → get_elem? message 6 ≡ some number
        → Counted s number t
        → Deciphered t (drop 7 message) (type == 2) payload
        → Keyed t (type == 3) (lib.plain_decode payload) t'
        → (downlink_mac lib t' message ≢ some (take 4 (drop 2 message)))
        → Refused s message type t'

  -- What passes the checks: the MAC is right, and the decoded message is under it.
  pub record Passed (s : Security) (message : List ℕ) (type : ℕ) (t' : Security)
      (decoded : Option DlMessage) : Type 0 where
    pub number : ℕ
    pub counted : Security
    pub payload : List ℕ
    pub sixth : get_elem? message 6 ≡ some number
    pub counts : Counted s number counted
    pub deciphers : Deciphered counted (drop 7 message) (type == 2) payload
    pub decodes : lib.plain_decode payload ≡ decoded
    pub keys : Keyed counted (type == 3) decoded t'
    pub authentic : IsAuthentic message t'

  abbrev pub Verdict : Security → List ℕ → ℕ → Verified → Type 0
  Verdict s message type (rejected t) = Refused s message type t
  Verdict s message type (accepted t decoded) = Passed s message type t decoded

  update_dl_count-Counted :
      (s : Security) (number : ℕ) → Counted s number (update_dl_count lib s number)
  unfolding update_dl_count
  update_dl_count-Counted s number = go (ltb number (lib.sqn s.dl_count)) refl
    where
      go :
          (b : Bool)
          → ltb number (lib.sqn s.dl_count) ≡ b
          → Counted s number (record s {
            dl_count =
                lib.make_count
                  (if b then (lib.overflow s.dl_count + 1) % 2 ^ 16 else lib.overflow s.dl_count)
                  number;
          })
      go true e = next_cycle (ground arith)
      go false e = same_cycle (ground arith)

  new_context-Keyed :
      (new : Bool) (s t : Security) (decoded : Option DlMessage)
      → new_context lib new s decoded ≡ ok (some t)
      → Keyed s new decoded t
  new_context-Keyed false s t decoded e =
      let same : s ≡ t = cc e in subst (λ (u : Security). Keyed s false decoded u) same kept
  new_context-Keyed true s t none e = cc
  new_context-Keyed true s t (some m) e = renewed e

  new_context-none :
      (new : Bool) (s : Security) (decoded : Option DlMessage)
      → new_context lib new s decoded ≡ ok none
      → (m : DlMessage) × (new ≡ true) × (decoded ≡ some m) × (take_context lib s m ≡ ok none)
  new_context-none false s decoded e = cc
  new_context-none true s none e = cc
  new_context-none true s (some m) e = (m, refl, refl, e)

  module _ (s : Security) (message : List ℕ) (type number : ℕ)
      (sixth : get_elem? message 6 ≡ some number) where
    recounted : Security
    recounted = update_dl_count lib s number

    check_mac-Verdict :
        (payload : List ℕ) (t' : Security) (m : Option (List ℕ))
        → Deciphered recounted (drop 7 message) (type == 2) payload
        → Keyed recounted (type == 3) (lib.plain_decode payload) t'
        → downlink_mac lib t' message ≡ m
        → Verdict s message type (check_mac lib message (lib.plain_decode payload) t' m)
    unfolding check_mac recounted
    check_mac-Verdict payload t' none d k e =
        not_authentic sixth (update_dl_count-Counted s number) d k (λ h. cc (e, h))
    check_mac-Verdict payload t' (some mac32) d k e = compared (text_eq mac32 received) refl
      where
        received : List ℕ
        received = take 4 (drop 2 message)

        compared :
            (b : Bool)
            → text_eq mac32 received ≡ b
            → Verdict s message type
                (if b then accepted t' (lib.plain_decode payload) else rejected t')
        compared true h = record {
          number = number;
          counted = recounted;
          payload = payload;
          sixth = sixth;
          counts = update_dl_count-Counted s number;
          deciphers = d;
          decodes = refl;
          keys = k;
          authentic = e ∙ ap some (eq_of_text_eq mac32 received h);
        }
        compared false h = not_authentic sixth (update_dl_count-Counted s number) d k (λ equal.
            let same : mac32 ≡ received = cc (e, equal) in
            let eq : text_eq mac32 received ≡ true =
              subst (λ (r : List ℕ). text_eq mac32 r ≡ true) same (text_eq_refl mac32) in
            cc (eq, h))

    context-Verdict :
        (payload : List ℕ) (o : Outcome (Option Security))
        → Deciphered recounted (drop 7 message) (type == 2) payload
        → new_context lib (type == 3) recounted (lib.plain_decode payload) ≡ o
        → Post
            (Verdict s message type)
            (o >>= λ c. ok (after_context lib message (lib.plain_decode payload) recounted c))
    unfolding after_context recounted
    context-Verdict payload (ok none) d e =
        let (m, new, decoded, taken) =
          new_context-none (type == 3) recounted (lib.plain_decode payload) e in
        no_context sixth (update_dl_count-Counted s number) d new decoded taken
    context-Verdict payload (ok (some t')) d e =
        check_mac-Verdict payload t' (downlink_mac lib t' message) d
          (new_context-Keyed (type == 3) recounted t' (lib.plain_decode payload) e) refl
    context-Verdict payload panic d e = tt
    context-Verdict payload fatal d e = tt
    context-Verdict payload blocked d e = tt

    deciphered-Verdict :
        (c : Bool) (found : Option (List ℕ))
        → (type == 2) ≡ c
        → decipher lib c recounted (drop 7 message) ≡ found
        → Post (Verdict s message type) (after_decipher lib message (type == 3) recounted found)
    unfolding after_decipher recounted
    deciphered-Verdict false none two e = cc
    deciphered-Verdict false (some payload) two e =
        let same : drop 7 message ≡ payload = cc e in
        context-Verdict payload _
          (subst (λ (b : Bool). Deciphered recounted (drop 7 message) b payload) (sym two)
            (subst (λ (p : List ℕ). Deciphered recounted (drop 7 message) false p) same clear))
          refl
    deciphered-Verdict true none two e =
        not_deciphered sixth (update_dl_count-Counted s number) two e
    deciphered-Verdict true (some payload) two e =
        context-Verdict payload _
          (subst (λ (b : Bool). Deciphered recounted (drop 7 message) b payload) (sym two)
            (ciphered e))
          refl

  pub verify-Verdict :
      (s : Security) (message : List ℕ) (type : ℕ)
      → Post (Verdict s message type) (verify lib s message type)
  unfolding verify recounted
  verify-Verdict s message type = go (get_elem? message 6) refl (type == 4) refl
    where
      go :
          (sixth : Option ℕ)
          → get_elem? message 6 ≡ sixth
          → (b : Bool) → (type == 4) ≡ b
          → Post (Verdict s message type) (
              deref sixth >>= λ number.
              if b
              then ok (rejected s)
              else let t = update_dl_count lib s number in
                after_decipher lib message
                  (type == 3)
                  t
                  (decipher lib (type == 2) t (drop 7 message)))
      go none e b four = tt
      go (some number) e true four = of_type_four four
      go (some number) e false four =
          deciphered-Verdict s message type number e (type == 2) _ refl refl
