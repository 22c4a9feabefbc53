-- ===== src/Gnb/Context/Paging.antt =====
-- The list of paged UEs, and the goroutine that is meant to take an entry out after a second.
use mathlib.Core.List.{Memᴰ}
use packet_rusher.Base.{
  ℕ, ◌+◌, ◌≡◌, refl, sym, ap, subst, ◌∙◌, Bool, true, false, ◌&&◌, Option, none, some, List, [],
  ◌∷◌, ◌++◌, append_assoc, append-nil, take-append-drop, delete_range, Bool-cases, inl, inr,
  Outcome, ok, blocked, ◌>>=◌, ◌==◌, arith, if◌then◌else◌,
}
use packet_rusher.Gnb.Context.{
  GnbContext, PagedUe, add_paged_ue, expire_paged_ue, index_of, paged_eq, pointer_eq,
}

-- What happens to the list: a UE is paged, or the timer of an earlier paging runs out.
pub data PagingEvent : Type 0 where
  page : PagedUe → PagingEvent
  expire : PagedUe → PagingEvent

pub paging_step : GnbContext → PagingEvent → Outcome GnbContext
paging_step gnb (page paged) = add_paged_ue gnb paged
paging_step gnb (expire paged) = ok (expire_paged_ue gnb paged)

pub paging_run : GnbContext → List PagingEvent → Outcome GnbContext
unfolding paging_step
paging_run gnb [] = ok gnb
paging_run gnb (event ∷ rest) = paging_step gnb event >>= λ gnb'. paging_run gnb' rest

abbrev pub paged_by : List PagingEvent → List PagedUe
paged_by [] = []
paged_by (page paged ∷ rest) = paged ∷ paged_by rest
paged_by (expire paged ∷ rest) = paged_by rest

-- A timer runs out for a UE that is in the list or was paged before.
abbrev pub AfterPaging : List PagedUe → List PagingEvent → Type 0
AfterPaging known [] = Unit {0}
AfterPaging known (page paged ∷ rest) = AfterPaging (known ++ paged ∷ []) rest
AfterPaging known (expire paged ∷ rest) = Memᴰ paged known × AfterPaging known rest

paged_eq_refl : (paged : PagedUe) → paged_eq paged paged ≡ true
paged_eq_refl paged = both paged.five_g_s_tmsi
  where
    both : (p : Option ℕ) → (pointer_eq p p && paged.timestamp == paged.timestamp) ≡ true
    both none = ground arith
    both (some q) = ground arith

index_of-Memᴰ :
    (l : List PagedUe) (paged : PagedUe) → Memᴰ paged l → (i : ℕ) × (index_of l paged ≡ some i)
unfolding index_of
index_of-Memᴰ [] paged m = elim m [ ]
index_of-Memᴰ (x ∷ l) paged (Memᴰ.head e) =
    (0, rw (subst (λ y. paged_eq y paged ≡ true) e (paged_eq_refl paged)) refl)
index_of-Memᴰ (x ∷ l) paged (Memᴰ.tail m) =
    let (i, found) = index_of-Memᴰ l paged m in
    elim (Bool-cases (paged_eq x paged)) [
      | inl e ↦ (0, rw e refl)
      | inr e ↦ (i + 1, rw (e, found) refl)
    ]

-- `slices.Delete(s, i, i)` deletes nothing.
delete_range_empty {ℓ} : {A : Type ℓ} (l : List A) (i : ℕ) → delete_range l i i ≡ l
delete_range_empty l i = take-append-drop i l

-- The timer of a UE of the list gives the lock back, and leaves the list as it was.
expire_keeps :
    (gnb : GnbContext) (paged : PagedUe)
    → gnb.paged_ue_locked ≡ false
    → Memᴰ paged gnb.paged_ues
    → ((expire_paged_ue gnb paged).paged_ues ≡ gnb.paged_ues)
      × ((expire_paged_ue gnb paged).paged_ue_locked ≡ false)
unfolding expire_paged_ue
expire_keeps gnb paged free m =
    let (i, found) = index_of-Memᴰ gnb.paged_ues paged m in
    (
      rw (free, found, expire_paged_ue) (delete_range_empty gnb.paged_ues i),
      rw (free, found, expire_paged_ue) free,
    )

page_free :
    (gnb : GnbContext) (paged : PagedUe)
    → gnb.paged_ue_locked ≡ false
    → add_paged_ue gnb paged ≡ ok (record gnb { paged_ues = gnb.paged_ues ++ paged ∷ [] })
unfolding add_paged_ue
page_free gnb paged free =
    ap
      (λ (b : Bool).
        if b then blocked else ok (record gnb { paged_ues = gnb.paged_ues ++ paged ∷ [] }))
      free

-- Whatever is paged, and whatever timers run out for UEs that are in the list or were paged before: if
-- the lock is free, every step goes through, the lock is free again, and the list is the one before
-- with every UE that was paged behind it: no timer takes an entry out.
pub paging_run_keeps :
    (gnb : GnbContext) (events : List PagingEvent)
    → gnb.paged_ue_locked ≡ false
    → AfterPaging gnb.paged_ues events
    → (gnb' : GnbContext) × (paging_run gnb events ≡ ok gnb')
      × (gnb'.paged_ues ≡ gnb.paged_ues ++ paged_by events)
      × (gnb'.paged_ue_locked ≡ false)
unfolding paging_run
paging_run_keeps gnb [] free h = (gnb, refl, rw append-nil refl, free)
paging_run_keeps gnb (page paged ∷ rest) free h =
    let next : GnbContext = record gnb { paged_ues = gnb.paged_ues ++ paged ∷ [] } in
    let (gnb', ran, list, unlocked) = paging_run_keeps next rest free h in
    (
      gnb',
      ap (λ (o : Outcome GnbContext). o >>= λ g. paging_run g rest) (page_free gnb paged free)
          ∙ ran,
      list ∙ append_assoc gnb.paged_ues (paged ∷ []) (paged_by rest),
      unlocked,
    )
paging_run_keeps gnb (expire paged ∷ rest) free h =
    let (same, unlocked) = expire_keeps gnb paged free h.0 in
    let later : AfterPaging (expire_paged_ue gnb paged).paged_ues rest =
      subst (λ (l : List PagedUe). AfterPaging l rest) (sym same) h.1 in
    let (gnb', ran, list, free') =
      paging_run_keeps (expire_paged_ue gnb paged) rest unlocked later in
    (gnb', ran, list ∙ ap (λ (l : List PagedUe). l ++ paged_by rest) same, free')
