-- ===== src/Ue/Manager/Requests.antt =====
-- The UE's answer to paging: internal/control_test_engine/ue/ue.go.
use mathlib.Core.List.{Memᴰ}
use packet_rusher.Base.{
  ℕ, ◌≤◌, Bool, true, false, Option, none, some, List, [], ◌∷◌, ◌≡◌, refl, ap, subst, ◌∙◌, Outcome,
  ok, panic, ◌>>=◌, text_eq, eq_of_text_eq, text_eq_refl, if◌then◌else◌, leb, length, take, arith,
  Bool-cases, ◌⊎◌, inl, inr,
}
use packet_rusher.Ue.Context.{UeContext, Guti, get_tmsi_5g, emit, fetch_paged_ues}
use packet_rusher.Ue.Nas.{NasLib}
use packet_rusher.Ue.Trigger.{Connection}
use packet_rusher.Ue.Manager.{
  service_request, ue_mgr_handler, FiveGsTmsi, four_octets, is_paged, asked_paging, verify_paging,
  verify_paging_on,
}

-- One of the identities has these octets at the front of its 5G-TMSI.
abbrev pub IsPaged : List ℕ → List (Option FiveGsTmsi) → Type 0
IsPaged tmsi paged = (p : FiveGsTmsi) × Memᴰ (some p) paged × (take 4 p.five_g_tmsi ≡ tmsi)

four_octets_whole : (value : List ℕ) → 4 ≤ length value → four_octets value ≡ ok (take 4 value)
four_octets_whole value h =
    let long : leb 4 (length value) ≡ true = ground arith in
    ap (λ (b : Bool). if b then ok (take 4 value) else panic) long

after_none :
    {p : FiveGsTmsi} {rest : List (Option FiveGsTmsi)}
    → Memᴰ (some p) (none ∷ rest)
    → Memᴰ (some p) rest
after_none (Memᴰ.head e) = cc
after_none (Memᴰ.tail m) = m

first_or_later :
    {p q : FiveGsTmsi} {rest : List (Option FiveGsTmsi)}
    → Memᴰ (some p) (some q ∷ rest)
    → (p ≡ q) ⊎ Memᴰ (some p) rest
first_or_later (Memᴰ.head e) = inl (cc e)
first_or_later (Memᴰ.tail m) = inr m

is_paged_lem :
    (paged : List (Option FiveGsTmsi)) (tmsi : List ℕ)
    → ((p : FiveGsTmsi) → Memᴰ (some p) paged → 4 ≤ length p.five_g_tmsi)
    → (IsPaged tmsi paged × (is_paged paged tmsi ≡ ok true))
      ⊎ ((¬ IsPaged tmsi paged) × (is_paged paged tmsi ≡ ok false))
unfolding is_paged
is_paged_lem [] tmsi whole = inr ((λ (p, m, e). elim m [ ]), refl)
is_paged_lem (none ∷ rest) tmsi whole =
    elim (is_paged_lem rest tmsi (λ p m. whole p (Memᴰ.tail m))) [
      | inl ((p, m, e), run) ↦ inl ((p, Memᴰ.tail m, e), run)
      | inr (absent, run) ↦ inr ((λ (p, m, e). absent (p, after_none m, e)), run)
    ]
is_paged_lem (some q ∷ rest) tmsi whole =
    let read = four_octets_whole q.five_g_tmsi (whole q (Memᴰ.head refl)) in
    let compared : (b : Bool)
        → text_eq (take 4 q.five_g_tmsi) tmsi ≡ b
        → is_paged (some q ∷ rest) tmsi ≡ (if b then ok true else is_paged rest tmsi) =
      λ b same.
        ap
          (λ (o : Outcome (List ℕ)).
            o >>= λ octets. if text_eq octets tmsi then ok true else is_paged rest tmsi)
          read
        ∙ ap (λ (c : Bool). if c then ok true else is_paged rest tmsi) same in
    elim (Bool-cases (text_eq (take 4 q.five_g_tmsi) tmsi)) [
      | inl e ↦
          inl ((q, Memᴰ.head refl, eq_of_text_eq (take 4 q.five_g_tmsi) tmsi e), compared true e)
      | inr e ↦ elim (is_paged_lem rest tmsi (λ p m. whole p (Memᴰ.tail m))) [
        | inl ((p, m, same), run) ↦ inl ((p, Memᴰ.tail m, same), compared false e ∙ run)
        | inr (absent, run) ↦ inr (
          (λ (p, m, same). elim (first_or_later m) [
            | inl first ↦
                let equal : take 4 q.five_g_tmsi ≡ tmsi =
                  subst (λ (r : FiveGsTmsi). take 4 r.five_g_tmsi ≡ tmsi) first same in
                let yes : text_eq (take 4 q.five_g_tmsi) tmsi ≡ true =
                  subst (λ (t : List ℕ). text_eq (take 4 q.five_g_tmsi) t ≡ true) equal
                    (text_eq_refl (take 4 q.five_g_tmsi)) in
                cc (yes, e)
            | inr later ↦ absent (p, later, same)
          ]),
          compared false e ∙ run,
        )
      ]
    ]

module _ (lib : NasLib) where
  abbrev asked : UeContext → Connection → Outcome Bool → Outcome UeContext
  asked ue c o = o >>= λ found.
      if found then (ue_mgr_handler lib service_request ue c >>= λ r. ok r.0) else ok ue

  verify_paging_on-asked :
      (ue : UeContext) (inbound : ℕ) (guti : Guti) (paged : List (Option FiveGsTmsi))
      (c : Connection)
      → ue.security.guti ≡ some guti
      → verify_paging_on lib (some inbound) ue paged c
        ≡ asked (emit (fetch_paged_ues inbound) ue) c (is_paged paged (get_tmsi_5g ue))
  unfolding verify_paging_on asked_paging get_tmsi_5g
  verify_paging_on-asked ue inbound guti paged c e =
      ap (λ g. asked_paging lib (emit (fetch_paged_ues inbound) ue) g paged c) e

-- A UE with a GUTI asks its gNB which UEs are paged. Where each 5G-TMSI of the answer has at least four
-- octets, it makes a service request if one of them begins with the UE's own four octets, whatever AMF
-- set and pointer come with it, and has only asked if none does.
pub verify_paging-IsPaged :
    (lib : NasLib) (ue : UeContext) (inbound : ℕ) (guti : Guti) (paged : List (Option FiveGsTmsi))
    (c : Connection)
    → ue.gnb_inbound_channel ≡ some inbound
    → ue.security.guti ≡ some guti
    → ((p : FiveGsTmsi) → Memᴰ (some p) paged → 4 ≤ length p.five_g_tmsi)
    → (IsPaged (get_tmsi_5g ue) paged
        × (verify_paging lib ue paged c ≡ (
            ue_mgr_handler lib service_request (emit (fetch_paged_ues inbound) ue) c >>= λ r.
            ok r.0)))
      ⊎ ((¬ IsPaged (get_tmsi_5g ue) paged)
          × (verify_paging lib ue paged c ≡ ok (emit (fetch_paged_ues inbound) ue)))
unfolding verify_paging
verify_paging-IsPaged lib ue inbound guti paged c h g whole =
    let asks = emit (fetch_paged_ues inbound) ue in
    let run : verify_paging lib ue paged c ≡ asked lib asks c (is_paged paged (get_tmsi_5g ue)) =
      ap (λ i. verify_paging_on lib i ue paged c) h
      ∙ verify_paging_on-asked lib ue inbound guti paged c g in
    elim (is_paged_lem paged (get_tmsi_5g ue) whole) [
      | inl (is, found) ↦ inl (is, run ∙ ap (asked lib asks c) found)
      | inr (absent, found) ↦ inr (absent, run ∙ ap (asked lib asks c) found)
    ]
