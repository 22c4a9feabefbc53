-- ===== src/Gnb/Ngap/Ies/Counts.antt =====
-- How many PDU sessions a message asks to be set up.
use packet_rusher.Base.{
  ℕ, ◌+◌, ◌≤◌, Option, none, some, List, [], ◌∷◌, Outcome, ok, ◌>>=◌, arith, length, Post, bind,
  after, weaken, deref,
}
use packet_rusher.Gnb.Ngap.{Ie, read_ies, mandatory}
use packet_rusher.Gnb.Ngap.Ies.{
  Locals, read_context, read_setup, read_handover, read_ids, with_nssai,
}

-- The items of an optional list.
abbrev pub count_items : {A : Type 0} → Option (List A) → ℕ
count_items none = 0
count_items (some items) = length items

-- The sessions to set up in an IE, and in the IEs of a message.
unfoldable pub sessions_in : Ie → ℕ
sessions_in (Ie.setup_list_cxt_req v) = count_items v
sessions_in (Ie.setup_list_su_req v) = count_items v
sessions_in (Ie.setup_list_ho_req v) = count_items v
sessions_in _ = 0

unfoldable pub requested : List Ie → ℕ
unfolding sessions_in
requested [] = 0
requested (ie ∷ rest) = sessions_in ie + requested rest

abbrev pub Grows : ℕ → Locals → Locals → Type 0
Grows n l l' = count_items l'.setup_list ≤ count_items l.setup_list + n

-- A reader that takes its list of sessions from the IE.
abbrev pub Reads : (Ie → Locals → Outcome Locals) → Type 0
Reads read = (ie : Ie) (l : Locals) → Post (Grows (sessions_in ie) l) (read ie l)

pub requested-Grows :
    (read : Ie → Locals → Outcome Locals) (ies : List Ie) (l : Locals)
    → Reads read
    → Post (Grows (requested ies) l) (read_ies read ies l)
unfolding requested read_ies
requested-Grows read [] l reads = omega arith
requested-Grows read (ie ∷ rest) l reads =
    bind (Grows (sessions_in ie) l) (Grows (sessions_in ie + requested rest) l) (read ie l) _
      (reads ie l)
      (λ l' h.
        weaken (Grows (requested rest) l') (Grows (sessions_in ie + requested rest) l)
          (read_ies read rest l') (requested-Grows read rest l' reads)
          (λ l'' k. omega (arith, h, k)))

read_ids-Reads : Reads read_ids
unfolding read_ids sessions_in
read_ids-Reads (Ie.amf_ue_id none) l = tt
read_ids-Reads (Ie.amf_ue_id (some v)) l = omega arith
read_ids-Reads (Ie.ran_ue_id none) l = tt
read_ids-Reads (Ie.ran_ue_id (some v)) l = omega arith
read_ids-Reads _ l = omega arith

pub read_setup-Reads : Reads read_setup
unfolding read_setup sessions_in
read_setup-Reads (Ie.setup_list_su_req none) l = tt
read_setup-Reads (Ie.setup_list_su_req (some v)) l = omega arith
read_setup-Reads (Ie.amf_ue_id v) l = read_ids-Reads (Ie.amf_ue_id v) l
read_setup-Reads (Ie.ran_ue_id v) l = read_ids-Reads (Ie.ran_ue_id v) l
read_setup-Reads _ l = omega arith

-- A value that is read and put in another variable.
apart :
    {A : Type 0} (o : Outcome A) (l : Locals) (f : A → Locals)
    → ((a : A) → count_items (f a).setup_list ≤ count_items l.setup_list + 0)
    → Post (Grows 0 l) (o >>= λ a. ok (f a))
apart o l f h = after (Grows 0 l) o (λ a. ok (f a)) h

pub read_context-Reads : Reads read_context
unfolding read_context sessions_in
read_context-Reads (Ie.setup_list_cxt_req none) l = tt
read_context-Reads (Ie.setup_list_cxt_req (some v)) l = omega arith
read_context-Reads (Ie.amf_ue_id v) l = read_ids-Reads (Ie.amf_ue_id v) l
read_context-Reads (Ie.ran_ue_id v) l = read_ids-Reads (Ie.ran_ue_id v) l
read_context-Reads (Ie.nas_pdu v) l =
    apart (deref v) l (λ nas. record l { message_nas = some nas }) (λ _. omega arith)
read_context-Reads (Ie.security_key v) l = apart (mandatory v) l (λ _. l) (λ _. omega arith)
read_context-Reads (Ie.guami_ie v) l = apart (mandatory v) l (λ _. l) (λ _. omega arith)
read_context-Reads (Ie.allowed_nssai v) l = apart (mandatory v) l (with_nssai l) (λ _. omega arith)
read_context-Reads (Ie.security_capabilities v) l =
    apart (mandatory v) l (λ caps. record l { capabilities = some caps }) (λ _. omega arith)
read_context-Reads _ l = omega arith

pub read_handover-Reads : Reads read_handover
unfolding read_handover sessions_in
read_handover-Reads (Ie.setup_list_ho_req none) l = tt
read_handover-Reads (Ie.setup_list_ho_req (some v)) l = omega arith
read_handover-Reads (Ie.amf_ue_id v) l =
    apart (mandatory v) l (λ id. record l { amf_id = id }) (λ _. omega arith)
read_handover-Reads (Ie.allowed_nssai v) l = apart (mandatory v) l (with_nssai l) (λ _. omega arith)
read_handover-Reads (Ie.source_to_target_container v) l =
    apart (mandatory v) l (λ bytes. record l { container = some bytes }) (λ _. omega arith)
read_handover-Reads (Ie.security_capabilities v) l =
    apart (mandatory v) l (λ caps. record l { capabilities = some caps }) (λ _. omega arith)
read_handover-Reads _ l = omega arith
