-- ===== src/Gnb/Ngap/Setup/Appended.antt =====
-- The PLMNs and slices of an NG Setup Response, read as what they add to an AMF's lists.
use packet_rusher.Base.{
  ℕ, zero, suc, ◌+◌, ◌≤◌, ◌≡◌, refl, sym, ap, ◌∙◌, inl, inr, false, some, List, [], ◌∷◌, ◌++◌,
  append-nil, append_assoc, map, Outcome, ok, arith, length, length-append, get_elem?_within,
}
use packet_rusher.Plmn.Hex.{encode_hex}
use packet_rusher.Gnb.Amf.{GnbAmf, PlmnSupported, SliceSupported, new_plmn}
use packet_rusher.Gnb.Amf.Lists.{
  IsCounted, added_plmn-append, added_slice-append, get_plmn_support-at, slice_at,
}
use packet_rusher.Gnb.Ngap.{PlmnSupport, Snssai, hex_or}
use packet_rusher.Gnb.Ngap.Setup.{
  was_not_informed, Setup, add_slices, add_plmns, log_plmns, log_slices,
}

abbrev pub slice_of : Snssai → SliceSupported
slice_of s = record {
  sst = hex_or was_not_informed s.sst_value;
  sd = hex_or was_not_informed s.sd_value;
}

-- The AMF with these behind what it had.
abbrev pub extended : GnbAmf → List PlmnSupported → List SliceSupported → GnbAmf
extended amf ps ss = record amf {
  plmns = amf.plmns ++ ps;
  len_plmn = amf.len_plmn + length ps;
  slices = amf.slices ++ ss;
  len_slice = amf.len_slice + length ss;
}

abbrev with_lists : GnbAmf → List PlmnSupported → ℕ → List SliceSupported → ℕ → GnbAmf
with_lists amf ps m ss n = record amf { plmns = ps; len_plmn = m; slices = ss; len_slice = n }

pub lists_eq :
    {B : Type 0} (f : GnbAmf → B) (amf : GnbAmf) {ps ps' : List PlmnSupported} {m m' : ℕ}
    {ss ss' : List SliceSupported} {n n' : ℕ}
    → ps ≡ ps'
    → m ≡ m'
    → ss ≡ ss'
    → n ≡ n'
    → f (with_lists amf ps m ss n) ≡ f (with_lists amf ps' m' ss' n')
lists_eq f amf {ps} {ps'} {m} {m'} {ss} {ss'} {n} {n'} e g h k =
    let same : with_lists amf ps m ss n ≡ with_lists amf ps' m' ss' n' = cc (e, g, h, k) in
    ap f same

abbrev pub accepted : GnbAmf → Outcome Setup
accepted amf = ok (amf, false)

abbrev returned : GnbAmf → Outcome GnbAmf
returned amf = ok amf

-- What a list of supported PLMNs stands for: each item has a PLMN of three octets, and slices.
pub data Supports : List PlmnSupport → List PlmnSupported → List SliceSupported → Type 0 where
  no_plmns : Supports [] [] []
  plmn_with :
      {item : PlmnSupport} {rest : List PlmnSupport} {e : PlmnSupported} {ps : List PlmnSupported}
      {own : List Snssai} {ss : List SliceSupported}
      → new_plmn (encode_hex item.identity) ≡ ok e
      → item.slice_support ≡ some own
      → Supports rest ps ss
      → Supports (item ∷ rest) (e ∷ ps) (map slice_of own ++ ss)

pub extended-IsCounted :
    (amf : GnbAmf) (ps : List PlmnSupported) (ss : List SliceSupported)
    → IsCounted amf
    → IsCounted (extended amf ps ss)
extended-IsCounted amf ps ss c = record {
  plmns_counted = omega (arith, c, length-append amf.plmns ps);
  slices_counted = omega (arith, c, length-append amf.slices ss);
}

add_slices-append :
    (items : List Snssai) (amf : GnbAmf)
    → IsCounted amf
    → add_slices items amf ≡ ok (extended amf [] (map slice_of items))
unfolding add_slices
add_slices-append [] amf c =
    lists_eq returned amf (sym (append-nil amf.plmns)) (omega arith) (sym (append-nil amf.slices))
      (omega arith)
add_slices-append (s ∷ rest) amf c =
    let e = slice_of s in
    let (added, c') = added_slice-append amf e.sst e.sd c in
    rw added (
      add_slices-append rest
        (record amf { slices = amf.slices ++ e ∷ []; len_slice = amf.len_slice + 1 }) c'
      ∙ lists_eq returned amf refl refl (append_assoc amf.slices (e ∷ []) (map slice_of rest))
          (omega arith))

pub add_plmns-append :
    {items : List PlmnSupport} {ps : List PlmnSupported} {ss : List SliceSupported} (amf : GnbAmf)
    → Supports items ps ss
    → IsCounted amf
    → add_plmns items (amf, false) ≡ ok (extended amf ps ss, false)
unfolding add_plmns
add_plmns-append amf no_plmns c =
    lists_eq accepted amf (sym (append-nil amf.plmns)) (omega arith) (sym (append-nil amf.slices))
      (omega arith)
add_plmns-append amf (plmn_with {item} {rest} {e} {ps} {own} {ss} made supported later) c =
    let (added, c') = added_plmn-append amf (encode_hex item.identity) e c made in
    let amf' : GnbAmf = record amf { plmns = amf.plmns ++ e ∷ []; len_plmn = amf.len_plmn + 1 } in
    let sliced = add_slices-append own amf' c' in
    let amf'' = extended amf' [] (map slice_of own) in
    rw (added, supported, sliced)
      (add_plmns-append amf'' later (extended-IsCounted amf' [] (map slice_of own) c')
        ∙ lists_eq accepted amf
            (ap (λ (l : List PlmnSupported). l ++ ps) (append-nil (amf.plmns ++ e ∷ []))
              ∙ append_assoc amf.plmns (e ∷ []) ps)
            (omega arith) (append_assoc amf.slices (map slice_of own) ss)
            (omega (arith, length-append (map slice_of own) ss)))

-- The log reads what is there.
pub log_plmns_lem :
    (k : ℕ) (amf : GnbAmf) → IsCounted amf → k ≤ amf.len_plmn → log_plmns k amf ≡ ok tt
unfolding log_plmns
log_plmns_lem zero amf c h = refl
log_plmns_lem (suc k) amf c h = elim (get_plmn_support-at amf k c) [
  | inl (_, (e, _, read)) ↦ rw (log_plmns_lem k amf c (omega arith), read) refl
  | inr (past, _) ↦ absurd (omega arith)
]

pub log_slices_lem :
    (k : ℕ) (amf : GnbAmf) → IsCounted amf → k ≤ amf.len_slice → log_slices k amf ≡ ok tt
unfolding log_slices
log_slices_lem zero amf c h = refl
log_slices_lem (suc k) amf c h =
    let (e, found) = get_elem?_within amf.slices k (omega (arith, c)) in
    rw (log_slices_lem k amf c (omega arith), slice_at amf k e found) refl
