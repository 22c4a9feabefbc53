-- ===== src/Gnb/Ngap/Setup.antt =====
-- `HandlerNgSetupResponse` and `HandlerNgSetupFailure` of gnb/ngap/handler.go, over the AMF object
-- whose connection the message came by.
pub mod Accepted
pub mod Appended
mod Tests
use packet_rusher.Base.{
  ℕ, suc, ◌+◌, ◌%◌, Bool, true, false, Option, none, some, List, [], ◌∷◌, ◌++◌, Outcome, ok, panic,
  fatal, ◌>>=◌, deref, codes, ◌==◌, if◌then◌else◌, ◌||◌, ◌&&◌, ◌^◌, map,
}
use packet_rusher.Base.Int.{ℤ, pos}
use packet_rusher.Plmn.Hex.{encode_hex}
use packet_rusher.Gnb.Amf.{
  AddrPort, GnbAmf, AmfState, active, inactive, added_plmn, added_slice, get_plmn_support,
  get_slice_support,
}
use packet_rusher.Gnb.Context.{GnbContext, new_gnb_amf, delete_gnb_amf, find_gnb_amf_by_ip_port}
use packet_rusher.Gnb.Messages.{Output, listen, release}
use packet_rusher.Gnb.Ngap.{NgapLib, Ie, Run, Guami, PlmnSupport, Snssai, TnlItem, hex_or, read_ies}
use packet_rusher.Gnb.Ngap.Triggers.{
  send_amf_configuration_update_acknowledge, send_ng_setup_request, is_empty, bytes_of,
}

abbrev pub was_not_informed : List ℕ
was_not_informed = codes "was not informed"

abbrev pub is_nil : {A : Type 0} → Option A → Bool
is_nil none = true
is_nil (some a) = false

-- The AMF and the variable `err`.
abbrev pub Setup : Type 0
Setup = GnbAmf × Bool

abbrev pub bad_guami : Guami → Bool
bad_guami g =
    is_nil g.amf_region_id.bytes || (is_nil g.amf_pointer.bytes || is_nil g.amf_set_id.bytes)

abbrev pub any_bad : List Guami → Bool
any_bad [] = false
any_bad (g ∷ rest) = bad_guami g || any_bad rest

abbrev pub guamis : Option (List Guami) → List Guami
guamis none = []
guamis (some items) = items

pub add_slices : List Snssai → GnbAmf → Outcome GnbAmf
add_slices [] amf = ok amf
add_slices (s ∷ rest) amf =
    added_slice amf (hex_or was_not_informed s.sst_value) (hex_or was_not_informed s.sd_value)
    >>= λ amf'. add_slices rest amf'

abbrev pub slices_of : PlmnSupport → List Snssai
slices_of item = elim item.slice_support [ none ↦ [] | some l ↦ l ]

pub add_plmns : List PlmnSupport → Setup → Outcome Setup
unfolding add_slices
add_plmns [] s = ok s
add_plmns (item ∷ rest) s = added_plmn s.0 (encode_hex item.identity) >>= λ amf.
    add_slices (slices_of item) amf >>= λ amf'.
    add_plmns rest (amf', s.1 || is_nil item.slice_support)

-- A missing list of PLMNs is noted, and dereferenced.
pub read_ng_setup : Ie → Setup → Outcome Setup
unfolding add_plmns
read_ng_setup (Ie.amf_name none) s = ok (s.0, true)
read_ng_setup (Ie.amf_name (some n)) s = ok (record (s.0) { name = n }, s.1)
read_ng_setup (Ie.served_guami_list l) s = ok (s.0, s.1 || (is_nil l || any_bad (guamis l)))
read_ng_setup (Ie.amf_capacity none) s = ok s
read_ng_setup (Ie.amf_capacity (some c)) s = ok (record (s.0) { relative_amf_capacity = c }, s.1)
read_ng_setup (Ie.plmn_support_list l) s = deref l >>= λ items. add_plmns items s
read_ng_setup _ s = ok s

-- What the log reads of the lists: the first entries, as many as were counted.
pub log_plmns : ℕ → GnbAmf → Outcome (Unit {0})
log_plmns ℕ.zero amf = ok tt
log_plmns (suc i) amf = log_plmns i amf >>= λ _. get_plmn_support amf i >>= λ _. ok tt

pub log_slices : ℕ → GnbAmf → Outcome (Unit {0})
log_slices ℕ.zero amf = ok tt
log_slices (suc i) amf = log_slices i amf >>= λ _. get_slice_support amf i >>= λ _. ok tt

pub finish_ng_setup : Setup → Outcome GnbAmf
unfolding log_plmns log_slices
finish_ng_setup (amf, true) = fatal
finish_ng_setup (amf, false) =
    let amf' : GnbAmf = record amf { state = active } in
    log_plmns amf'.len_plmn amf' >>= λ _. log_slices amf'.len_slice amf' >>= λ _. ok amf'

pub handler_ng_setup_response : GnbAmf → List Ie → Outcome GnbAmf
unfolding read_ng_setup finish_ng_setup
handler_ng_setup_response amf ies = read_ies read_ng_setup ies (amf, false) >>= finish_ng_setup

pub handler_ng_setup_failure : GnbAmf → List Ie → GnbAmf
handler_ng_setup_failure amf ies = record amf { state = inactive }
