-- ===== src/Gnb/Ngap/Status.antt =====
-- `HandlerAmfStatusIndication` of gnb/ngap/handler.go.
-- The walks over the two pools of UEs visit the objects that stand in one of them: the model visits
-- each object that the pool by RAN id, then the pool by PacketRusher id, has under the object's id.
pub mod Kept
pub mod Moved
mod Tests
use packet_rusher.Base.{
  ℕ, ◌+◌, Bool, true, false, ◌&&◌, Option, none, some, List, [], ◌∷◌, ◌++◌, Outcome, ok, panic,
  ◌>>=◌, at, take, text_eq, ◌==◌, if◌then◌else◌, Pool,
}
use packet_rusher.Plmn.{convert_mcc_mnc}
use packet_rusher.Plmn.Hex.{encode_hex}
use packet_rusher.Gnb.Amf.{BitString, GnbAmf, get_plmn_support}
use packet_rusher.Gnb.Ue.{GnbUe}
use packet_rusher.Gnb.Context.{GnbContext, delete_gnb_amf, pointer_eq}
use packet_rusher.Gnb.Messages.{Output, release}
use packet_rusher.Gnb.Ngap.{NgapLib, Ie, Run, Guami, UnavailableGuami, ◌>>>◌}
use packet_rusher.Gnb.Ngap.Update.{amf_pool_values}
use packet_rusher.Gnb.Ngap.Triggers.{bytes_of}

-- `fmt.Sprintf("%02x%02x%02x", ...)` of the first three octets, and the digits of MCC and MNC.
pub plmn_digits : List ℕ → Outcome (List ℕ × List ℕ)
plmn_digits octets = do
  o0 ← at octets 0
  o1 ← at octets 1
  o2 ← at octets 2
  let hex = encode_hex (o0 ∷ o1 ∷ o2 ∷ []) in
      do
        h1 ← at hex 1
        h0 ← at hex 0
        h3 ← at hex 3
        h5 ← at hex 5
        h4 ← at hex 4
        h2 ← at hex 2
        if h2 == b'f'
            then ok (h1 ∷ h0 ∷ h3 ∷ [], h5 ∷ h4 ∷ [])
            else ok (h1 ∷ h0 ∷ h3 ∷ [], h2 ∷ h5 ∷ h4 ∷ [])

abbrev pub named : Option (List ℕ) → GnbAmf → Bool
named none amf = false
named (some n) amf = text_eq amf.name n

-- The first AMF with the name of the backup.
pub find_backup : Option (List ℕ) → List GnbAmf → Option GnbAmf
find_backup name [] = none
find_backup name (amf ∷ rest) =
    let later = find_backup name rest in if named name amf then some amf else later

-- What `reflect.DeepEqual` compares: nil octets are not equal to none.
abbrev pub same_octets : Option (List ℕ) → Option (List ℕ) → Bool
same_octets none none = true
same_octets none (some b) = false
same_octets (some a) none = false
same_octets (some a) (some b) = text_eq a b

abbrev pub same_bits : BitString → BitString → Bool
same_bits a b = same_octets a.bytes b.bytes && a.bit_length == b.bit_length

abbrev pub same_guami : Guami → GnbAmf → Bool
same_guami g amf =
    same_bits amf.region_id g.amf_region_id
    && (same_bits amf.set_id g.amf_set_id && same_bits amf.pointer g.amf_pointer)

abbrev pub same_plmn : List ℕ × List ℕ → List ℕ × List ℕ → Bool
same_plmn a b = text_eq a.0 b.0 && text_eq a.1 b.1

-- The loop over the PLMNs of an AMF from index `j` on, with the rounds left: whether one matches.
pub serves : ℕ → ℕ → List ℕ × List ℕ → Guami → GnbAmf → Outcome Bool
serves ℕ.zero j plmn g amf = ok false
serves (ℕ.suc k) j plmn g amf = get_plmn_support amf j >>= λ own.
    if same_plmn own plmn && same_guami g amf then ok true else serves k (j + 1) plmn g amf

-- The object at `p` after the walk over a pool in which it stands under `key`.
abbrev pub rebound : GnbAmf → GnbAmf → GnbUe → GnbUe
rebound old backup ue =
    if ue.amf_id == old.amf_id
    then record ue { amf_id = backup.amf_id; sctp_connection = backup.tnla.sctp_conn }
    else ue

abbrev pub visited : Pool ℕ → ℕ → ℕ → Bool
visited pool key p = pointer_eq (pool key) (some p)

pub rebind_at : GnbContext → GnbAmf → GnbAmf → ℕ → GnbUe → GnbUe
rebind_at gnb old backup p ue =
    let first = if visited gnb.ue_pool ue.ran_ue_ngap_id p then rebound old backup ue else ue in
    if visited gnb.pr_ue_pool ue.pr_ue_id p then rebound old backup first else first

pub rebind_from : GnbContext → GnbAmf → GnbAmf → ℕ → List GnbUe → List GnbUe
unfolding rebind_at
rebind_from gnb old backup p [] = []
rebind_from gnb old backup p (ue ∷ rest) =
    rebind_at gnb old backup p ue ∷ rebind_from gnb old backup (ℕ.suc p) rest

-- The UEs of the removed AMF go to the backup, and its connection is closed.
pub remove_amf : GnbAmf → GnbAmf → GnbContext → Run
unfolding rebind_from
remove_amf old backup gnb = ok (
  delete_gnb_amf (record gnb { ues = rebind_from gnb old backup 0 gnb.ues }) old.amf_id,
  release old.tnla.sctp_conn ∷ [],
)

-- The loop over the AMFs. What is deleted meanwhile was visited before.
pub remove_matching : List ℕ × List ℕ → Guami → GnbAmf → List GnbAmf → GnbContext → Run
unfolding serves remove_amf
remove_matching plmn g backup [] gnb = ok (gnb, [])
remove_matching plmn g backup (amf ∷ rest) gnb =
    (serves amf.len_plmn 0 plmn g amf >>= λ found.
    if found then remove_amf amf backup gnb else ok (gnb, []))
    >>> remove_matching plmn g backup rest

module _ (lib : NgapLib) where
  -- Without a backup the handler returns: the Boolean says whether it goes on.
  pub status_item : UnavailableGuami → GnbContext → Outcome (GnbContext × List Output × Bool)
  unfolding plmn_digits find_backup remove_matching
  status_item item gnb = plmn_digits item.guami.plmn_identity >>= λ plmn.
      let order = lib.visit (amf_pool_values gnb.amf_pool) in
      elim (find_backup item.backup_amf_name order) [
        | none ↦ ok (gnb, [], false)
        | some backup ↦
            remove_matching plmn item.guami backup order gnb >>= λ r. ok (r.0, r.1, true)
      ]

  pub status_items : List UnavailableGuami → GnbContext → Outcome (GnbContext × List Output × Bool)
  unfolding status_item
  status_items [] gnb = ok (gnb, [], true)
  status_items (item ∷ rest) gnb = status_item item gnb >>= λ r.
      let (gnb', out, more) = r in
      let later = status_items rest gnb' in
      if more
      then (later >>= λ s. let (gnb'', out', more') = s in ok (gnb'', out ++ out', more'))
      else ok (gnb', out, false)

  pub handler_amf_status_indication : GnbContext → List Ie → Run
  unfolding status_items
  handler_amf_status_indication gnb [] = ok (gnb, [])
  handler_amf_status_indication gnb (Ie.unavailable_guami_list items ∷ rest) =
      status_items items gnb >>= λ r.
      let (gnb', out, more) = r in
      let later = handler_amf_status_indication gnb' rest in
      if more then (ok (gnb', out) >>> λ _. later) else ok (gnb', out)
  handler_amf_status_indication gnb (_ ∷ rest) = handler_amf_status_indication gnb rest
