-- ===== src/Gnb/Ngap/Builders/Read.antt =====
-- The ids and the PDU sessions that a receiver finds in the IEs of a message of the gNB.
use packet_rusher.Base.{ℕ, ◌≡◌, refl, ap, Option, none, some, List, [], ◌∷◌, ◌++◌, ok, map}
use packet_rusher.Base.Int.{ℤ}
use packet_rusher.Gnb.Ue.{GnbPduSession}
use packet_rusher.Gnb.Context.{GnbContext}
use packet_rusher.Gnb.Ngap.Builders.{
  Transfer, Value, SentIe, BuilderLib, existing, unless_empty, downlink_tunnel,
}
use packet_rusher.Gnb.Ngap.Builders.Sessions.{released_item}
use packet_rusher.Gnb.Ngap.Builders.Mobility.{admitted_items}

abbrev pub id_of : GnbPduSession → ℤ
id_of session = session.pdu_session_id

-- The ids in a UE's table of sessions, where a place may be free.
abbrev pub table_ids : List (Option GnbPduSession) → List ℤ
table_ids [] = []
table_ids (none ∷ rest) = table_ids rest
table_ids (some session ∷ rest) = session.pdu_session_id ∷ table_ids rest

pub existing-table_ids : (l : List (Option GnbPduSession)) → map id_of (existing l) ≡ table_ids l
unfolding existing
existing-table_ids [] = refl
existing-table_ids (none ∷ rest) = existing-table_ids rest
existing-table_ids (some session ∷ rest) =
    ap (λ ids. session.pdu_session_id ∷ ids) (existing-table_ids rest)

abbrev pub firsts : List (ℤ × List ℕ) → List ℤ
firsts l = map (λ (item : ℤ × List ℕ). item.0) l

-- The ids of the sessions that an IE lists.
abbrev pub sessions_in : Value → List ℤ
sessions_in (Value.sent_setup_list_cxt_res l) = firsts l
sessions_in (Value.sent_setup_list_su_res l) = firsts l
sessions_in (Value.sent_released_list l) = firsts l
sessions_in (Value.sent_admitted_list l) = firsts l
sessions_in (Value.sent_switched_list l) = firsts l
sessions_in (Value.sent_ho_rqd_list l) = firsts l
sessions_in (Value.sent_list_cxt_rel_req l) = l
sessions_in _ = []

abbrev pub listed : List SentIe → List ℤ
listed [] = []
listed (ie ∷ rest) = sessions_in ie.value ++ listed rest

abbrev pub or_amf_id : Value → Option ℕ → Option ℕ
or_amf_id (Value.sent_amf_ue_id id) later = some id
or_amf_id (Value.sent_source_amf_ue_id id) later = some id
or_amf_id _ later = later

abbrev pub amf_id_in : List SentIe → Option ℕ
amf_id_in [] = none
amf_id_in (ie ∷ rest) = or_amf_id ie.value (amf_id_in rest)

abbrev pub or_ran_id : Value → Option ℕ → Option ℕ
or_ran_id (Value.sent_ran_ue_id id) later = some id
or_ran_id _ later = later

abbrev pub ran_id_in : List SentIe → Option ℕ
ran_id_in [] = none
ran_id_in (ie ∷ rest) = or_ran_id ie.value (ran_id_in rest)

pub firsts-map :
    (item : GnbPduSession → ℤ × List ℕ)
    → ((s : GnbPduSession) → (item s).0 ≡ s.pdu_session_id)
    → (l : List GnbPduSession) → firsts (map item l) ≡ map id_of l
firsts-map item same [] = refl
firsts-map item same (s ∷ l) = rw (same s, firsts-map item same l) refl

pub firsts-map-released : (ids : List ℤ) → firsts (map released_item ids) ≡ ids
firsts-map-released [] = refl
firsts-map-released (id ∷ ids) = ap (λ l. id ∷ l) (firsts-map-released ids)

pub listed-unless_empty :
    {A : Type 0} (ids : List A → List ℤ) (ie : List A → SentIe)
    → ids [] ≡ []
    → ((l : List A) → sessions_in (ie l).value ≡ ids l)
    → (l : List A) (rest : List SentIe) → listed (unless_empty ie l ++ rest) ≡ ids l ++ listed rest
listed-unless_empty ids ie empty same [] rest = rw empty refl
listed-unless_empty ids ie empty same (x ∷ l) rest = rw (same (x ∷ l)) refl

-- The codec marshals each of these.
abbrev pub Marshals : BuilderLib → List Transfer → Type 0
Marshals lib [] = Unit {0}
Marshals lib (t ∷ rest) = ((bytes : List ℕ) × (lib.marshal t ≡ some bytes)) × Marshals lib rest

abbrev pub admitted_transfer : BuilderLib → GnbContext → GnbPduSession → Transfer
admitted_transfer lib gnb s = Transfer.handover_acknowledge_transfer (downlink_tunnel lib gnb s) 1

pub admitted_items-firsts :
    (lib : BuilderLib) (gnb : GnbContext) (l : List GnbPduSession)
    → Marshals lib (map (admitted_transfer lib gnb) l)
    → (items : List (ℤ × List ℕ)) × (admitted_items lib gnb l ≡ ok items)
      × (firsts items ≡ map id_of l)
unfolding admitted_items
admitted_items-firsts lib gnb [] marshals = ([], refl, refl)
admitted_items-firsts lib gnb (s ∷ l) marshals =
    let ((bytes, marshalled), later) = marshals in
    let (items, built, ids) = admitted_items-firsts lib gnb l later in
    (
      (s.pdu_session_id, bytes) ∷ items,
      rw (marshalled, built) refl,
      ap (λ r. s.pdu_session_id ∷ r) ids,
    )
