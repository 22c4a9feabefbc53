-- ===== src/Gnb/Ngap/Setup/Accepted.antt =====
-- What the gNB knows of an AMF after the NG Setup Response.
use packet_rusher.Base.{
  ℕ, ◌≡◌, refl, sym, ap, ◌∙◌, Bool, true, false, some, ◌>>=◌, List, [], ◌∷◌, ◌++◌, append-nil,
  append_assoc, Outcome, ok, arith, length-append,
}
use packet_rusher.Base.Int.{ℤ}
use packet_rusher.Gnb.Amf.{GnbAmf, PlmnSupported, SliceSupported, active}
use packet_rusher.Gnb.Amf.Lists.{IsCounted}
use packet_rusher.Gnb.Ngap.{Ie, Guami, PlmnSupport, read_ies}
use packet_rusher.Gnb.Ngap.Setup.{
  Setup, any_bad, read_ng_setup, log_slices, finish_ng_setup, handler_ng_setup_response,
}
use packet_rusher.Gnb.Ngap.Setup.Appended.{
  extended, lists_eq, accepted, Supports, extended-IsCounted, add_plmns-append, log_plmns_lem,
  log_slices_lem,
}

-- The IEs that an NG Setup Response is not read for, and a capacity that is missing.
abbrev pub is_other : Ie → Bool
is_other (Ie.amf_name v) = false
is_other (Ie.served_guami_list v) = false
is_other (Ie.amf_capacity (some c)) = false
is_other (Ie.plmn_support_list v) = false
is_other _ = true

other_skipped : (ie : Ie) (s : Setup) → is_other ie ≡ true → read_ng_setup ie s ≡ ok s
unfolding read_ng_setup
other_skipped (Ie.amf_name v) s h = cc
other_skipped (Ie.served_guami_list v) s h = cc
other_skipped (Ie.amf_capacity (some c)) s h = cc
other_skipped (Ie.plmn_support_list v) s h = cc
other_skipped _ s h = refl

-- What IEs in any number and order tell of an AMF, from the name and the capacity before them to those
-- after them: names, GUAMIs that are complete, capacities, PLMNs with their slices, and other IEs.
pub data Tells
    : List ℕ → ℤ → List Ie → List ℕ → ℤ → List PlmnSupported → List SliceSupported → Type 0 where
  nothing_more : {n : List ℕ} {c : ℤ} → Tells n c [] n c [] []
  with_name :
      {n m k : List ℕ} {c d : ℤ} {rest : List Ie} {ps : List PlmnSupported}
      {ss : List SliceSupported}
      → Tells m c rest k d ps ss
      → Tells n c (Ie.amf_name (some m) ∷ rest) k d ps ss
  with_guamis :
      {n k : List ℕ} {c d : ℤ} {rest : List Ie} {ps : List PlmnSupported} {ss : List SliceSupported}
      {gs : List Guami}
      → any_bad gs ≡ false
      → Tells n c rest k d ps ss
      → Tells n c (Ie.served_guami_list (some gs) ∷ rest) k d ps ss
  with_capacity :
      {n k : List ℕ} {c d e : ℤ} {rest : List Ie} {ps : List PlmnSupported}
      {ss : List SliceSupported}
      → Tells n e rest k d ps ss
      → Tells n c (Ie.amf_capacity (some e) ∷ rest) k d ps ss
  with_plmns :
      {n k : List ℕ} {c d : ℤ} {rest : List Ie} {items : List PlmnSupport}
      {ps ps' : List PlmnSupported} {ss ss' : List SliceSupported}
      → Supports items ps ss
      → Tells n c rest k d ps' ss'
      → Tells n c (Ie.plmn_support_list (some items) ∷ rest) k d (ps ++ ps') (ss ++ ss')
  with_other :
      {n k : List ℕ} {c d : ℤ} {rest : List Ie} {ps : List PlmnSupported} {ss : List SliceSupported}
      (ie : Ie)
      → is_other ie ≡ true
      → Tells n c rest k d ps ss
      → Tells n c (ie ∷ rest) k d ps ss

abbrev named : GnbAmf → List ℕ → ℤ → GnbAmf
named amf n c = record amf { name = n; relative_amf_capacity = c }

named-IsCounted : (amf : GnbAmf) (n : List ℕ) (c : ℤ) → IsCounted amf → IsCounted (named amf n c)
named-IsCounted amf n c h = record {
  plmns_counted = h.plmns_counted;
  slices_counted = h.slices_counted;
}

read_all :
    {n k : List ℕ} {c d : ℤ} {ies : List Ie} {ps : List PlmnSupported} {ss : List SliceSupported}
    (amf : GnbAmf)
    → Tells n c ies k d ps ss
    → IsCounted amf
    → read_ies read_ng_setup ies (named amf n c, false) ≡ ok (named (extended amf ps ss) k d, false)
unfolding read_ies read_ng_setup
read_all {n} {k} {c} {d} amf nothing_more h =
    lists_eq (λ a. accepted (named a n c)) amf (sym (append-nil amf.plmns)) (omega arith)
      (sym (append-nil amf.slices)) (omega arith)
read_all amf (with_name later) h = read_all amf later h
read_all {n} {k} {c} {d} amf (with_guamis {rest = rest} good later) h =
    ap (λ (b : Bool). read_ies read_ng_setup rest (named amf n c, b)) good ∙ read_all amf later h
read_all amf (with_capacity later) h = read_all amf later h
read_all {n} {k} {c} {d} amf
      (with_plmns {rest = rest} {ps = ps} {ps' = ps'} {ss = ss} {ss' = ss'} supports later) h =
    let now : GnbAmf = extended amf ps ss in
    ap (λ (o : Outcome Setup). o >>= λ s. read_ies read_ng_setup rest s)
      (add_plmns-append (named amf n c) supports (named-IsCounted amf n c h))
    ∙ read_all now later (extended-IsCounted amf ps ss h)
    ∙ lists_eq (λ a. accepted (named a k d)) amf (append_assoc amf.plmns ps ps')
        (omega (arith, length-append ps ps')) (append_assoc amf.slices ss ss')
        (omega (arith, length-append ss ss'))
read_all {n} {k} {c} {d} amf (with_other {rest = rest} ie other later) h =
    ap (λ (o : Outcome Setup). o >>= λ s. read_ies read_ng_setup rest s)
      (other_skipped ie (named amf n c, false) other)
    ∙ read_all amf later h

-- An NG Setup Response with names, GUAMIs that are complete, capacities, PLMNs of three octets that each
-- have a list of slices, and other IEs, in any order and number, is accepted by an AMF whose counts are
-- those of its lists: the AMF has the last name and the last capacity, or its own if there is none, the
-- PLMNs and the slices behind those it had, in the message's order and counted, and is active.
pub ng_setup_accepted :
    (amf : GnbAmf) (ies : List Ie) (n : List ℕ) (capacity : ℤ) (ps : List PlmnSupported)
    (ss : List SliceSupported)
    → IsCounted amf
    → Tells amf.name amf.relative_amf_capacity ies n capacity ps ss
    → let amf' = record (extended amf ps ss) {
      name = n;
      relative_amf_capacity = capacity;
      state = active;
    } in
      (handler_ng_setup_response amf ies ≡ ok amf') × IsCounted amf'
unfolding handler_ng_setup_response finish_ng_setup
ng_setup_accepted amf ies n capacity ps ss c tells =
    let read : GnbAmf = named (extended amf ps ss) n capacity in
    let amf' : GnbAmf = record read { state = active } in
    let counts = extended-IsCounted amf ps ss c in
    let c' : IsCounted amf' = record {
      plmns_counted = counts.plmns_counted;
      slices_counted = counts.slices_counted;
    } in
    (
      ap (λ (o : Outcome Setup). o >>= finish_ng_setup) (read_all amf tells c)
          ∙ ap
              (λ (o : Outcome (Unit {0})).
                o >>= λ _. log_slices amf'.len_slice amf' >>= λ _. ok amf')
              (log_plmns_lem amf'.len_plmn amf' c' (omega arith))
          ∙ ap (λ (o : Outcome (Unit {0})). o >>= λ _. ok amf')
              (log_slices_lem amf'.len_slice amf' c' (omega arith)),
      c',
    )
