-- ===== src/Gnb/Amf/Lists.antt =====
-- The linked lists of PLMNs and slices behave as sequences.
use packet_rusher.Base.{
  ℕ, zero, suc, ◌+◌, ◌≤◌, ◌<◌, ◌≡◌, refl, some, List, [], ◌∷◌, ◌++◌, ok, panic, arith, length,
  length-append, get_elem?, get_elem?_past, get_elem?_within, at,
}
use native.Mathlib.Decide.{dec_lt}
use packet_rusher.Base.{◌⊎◌, inl, inr}
use packet_rusher.Gnb.Amf.{
  GnbAmf, PlmnSupported, SliceSupported, walk, link_loop, add_element, get_plmn_support,
  get_slice_support, new_plmn, added_plmn, added_slice,
}

module _ {ℓ} {A : Type ℓ} where
  pub walk-at : (k : ℕ) (l : List A) → walk k l ≡ at l k
  unfolding walk
  walk-at k [] = refl
  walk-at zero (x ∷ xs) = refl
  walk-at (suc k) (x ∷ xs) = walk-at k xs

  -- From a place in the list, as many rounds as elements are left link one element at the end.
  link_loop_end :
      (k : ℕ) (l : List A) (mov : ℕ) (e : A)
      → mov + suc k ≡ length l
      → link_loop (suc k) l mov (ok e) ≡ ok (l ++ e ∷ [])
  unfolding link_loop
  link_loop_end zero l mov e h =
      let (a, here) = get_elem?_within l mov (omega arith) in
      rw (here, get_elem?_past l (suc mov) (omega arith), link_loop)
  link_loop_end (suc k) l mov e h =
      let (a, here) = get_elem?_within l mov (omega arith) in
      let (b, next) = get_elem?_within l (suc mov) (omega arith) in
      rw (here, next, link_loop) (link_loop_end k l (suc mov) e (omega arith))

  pub add_element-append : (l : List A) (e : A) → add_element (length l) l (ok e) ≡ ok (l ++ e ∷ [])
  unfolding add_element
  add_element-append [] e = refl
  add_element-append (x ∷ xs) e = ground (arith, link_loop_end (length xs) (x ∷ xs) 0 e)

-- Both counts are the lengths of their lists.
pub record IsCounted (amf : GnbAmf) : Type 0 where
  pub plmns_counted : amf.len_plmn ≡ length amf.plmns
  pub slices_counted : amf.len_slice ≡ length amf.slices

-- While the counts are right, `AddedPlmn` of a text that `convertMccMnc` reads puts what `convertMccMnc` reads at the end of the list, counts it, keeps the counts
-- right, and changes nothing else.
pub added_plmn-append :
    (amf : GnbAmf) (plmn : List ℕ) (e : PlmnSupported)
    → IsCounted amf
    → new_plmn plmn ≡ ok e
    → let amf' = record amf { plmns = amf.plmns ++ e ∷ []; len_plmn = amf.len_plmn + 1 } in
      (added_plmn amf plmn ≡ ok amf') × IsCounted amf'
unfolding added_plmn
added_plmn-append amf plmn e c made = (
  rw (made, c.plmns_counted, add_element-append amf.plmns e) refl,
  record {
    plmns_counted = omega (arith, c, length-append amf.plmns (e ∷ []));
    slices_counted = c.slices_counted;
  },
)

-- While the counts are right, `AddedSlice` puts the slice at the end of the list, counts it, keeps the
-- counts right, and changes nothing else.
pub added_slice-append :
    (amf : GnbAmf) (sst sd : List ℕ)
    → IsCounted amf
    → let e : SliceSupported = record { sst = sst; sd = sd } in
      let amf' = record amf { slices = amf.slices ++ e ∷ []; len_slice = amf.len_slice + 1 } in
      (added_slice amf sst sd ≡ ok amf') × IsCounted amf'
unfolding added_slice
added_slice-append amf sst sd c =
    let e : SliceSupported = record { sst = sst; sd = sd } in
    (
      rw (c.slices_counted, add_element-append amf.slices e) refl,
      record {
        plmns_counted = c.plmns_counted;
        slices_counted = omega (arith, c, length-append amf.slices (e ∷ []));
      },
    )

-- While the counts are right, the reads below the count give the element at that place, and those
-- at the count and above panic.
pub get_plmn_support-at :
    (amf : GnbAmf) (index : ℕ)
    → IsCounted amf
    → ((index < amf.len_plmn)
        × ((e : PlmnSupported) × (get_elem? amf.plmns index ≡ some e)
            × (get_plmn_support amf index ≡ ok (e.mcc, e.mnc))))
      ⊎ ((amf.len_plmn ≤ index) × (get_plmn_support amf index ≡ panic))
unfolding get_plmn_support
get_plmn_support-at amf index c = elim (dec_lt index amf.len_plmn) [
  | yes lt ↦
      let (e, found) = get_elem?_within amf.plmns index (omega (arith, c)) in
      inl (lt, (e, found, rw (walk-at index amf.plmns, found)))
  | no ge ↦
      inr (
        omega arith,
        rw (walk-at index amf.plmns, get_elem?_past amf.plmns index (omega (arith, c))),
      )
]

pub slice_at :
    (amf : GnbAmf) (index : ℕ) (e : SliceSupported)
    → get_elem? amf.slices index ≡ some e
    → get_slice_support amf index ≡ ok (e.sst, e.sd)
unfolding get_slice_support
slice_at amf index e found = rw (walk-at index amf.slices, found) refl
