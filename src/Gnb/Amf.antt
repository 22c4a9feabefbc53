-- ===== src/Gnb/Amf.antt =====
-- The AMF as the gNB knows it: internal/control_test_engine/gnb/context/amf.go.
-- A singly linked list that only its owner points to is the list of its elements; `mov` is a place
-- in it. Go's `int` counters and the int64 ids (as bit patterns) are natural numbers; capacities and
-- weights are signed.
pub mod Lists
mod Tests
use packet_rusher.Base.{
  ℕ, suc, ◌+◌, Option, none, some, List, [], ◌∷◌, ◌++◌, Outcome, ok, panic, ◌>>=◌, ◌==◌,
  if◌then◌else◌, get_elem?,
}
use packet_rusher.Base.Int.{ℤ}
use packet_rusher.Plmn.{convert_mcc_mnc}

pub data AmfState : Type 0 where
  inactive active overload : AmfState

-- `netip.AddrPort`: the address as its bytes, and the port.
pub record AddrPort : Type 0 where
  pub addr : List ℕ
  pub port : ℕ

pub record TnlAssociation : Type 0 where
  pub sctp_conn : Option ℕ
  pub tnla_weight_factor : ℤ
  pub usage : ℕ
  pub streams : ℕ

pub record SliceSupported : Type 0 where
  pub sst : List ℕ
  pub sd : List ℕ

pub record PlmnSupported : Type 0 where
  pub mcc : List ℕ
  pub mnc : List ℕ

-- A bit string of the codec: its octets, nil at the start, and its length in bits.
pub record BitString : Type 0 where
  pub bytes : Option (List ℕ)
  pub bit_length : ℕ

abbrev pub empty_bits : BitString
empty_bits = record { bytes = none; bit_length = 0 }

pub record GnbAmf : Type 0 where
  pub amf_ip_port : AddrPort
  pub amf_id : ℕ
  pub tnla : TnlAssociation
  pub relative_amf_capacity : ℤ
  pub state : AmfState
  pub name : List ℕ
  pub region_id : BitString
  pub set_id : BitString
  pub pointer : BitString
  pub plmns : List PlmnSupported
  pub slices : List SliceSupported
  pub len_slice : ℕ
  pub len_plmn : ℕ
  pub backup_amf : List ℕ

-- The walk `mov = mov.next`, and the read at its end; past the last element it panics.
pub walk {ℓ} : {A : Type ℓ} → ℕ → List A → Outcome A
walk k [] = panic
walk ℕ.zero (x ∷ xs) = ok x
walk (suc k) (x ∷ xs) = walk k xs

pub get_slice_support : GnbAmf → ℕ → Outcome (List ℕ × List ℕ)
get_slice_support amf index = walk index amf.slices >>= λ e. ok (e.sst, e.sd)

pub get_plmn_support : GnbAmf → ℕ → Outcome (List ℕ × List ℕ)
get_plmn_support amf index = walk index amf.plmns >>= λ e. ok (e.mcc, e.mnc)

-- The loop of `AddedPlmn` and `AddedSlice`, with the rounds left: at the last element it links a new
-- one behind it, elsewhere it moves on.
pub link_loop {ℓ} : {A : Type ℓ} → ℕ → List A → ℕ → Outcome A → Outcome (List A)
link_loop ℕ.zero l mov made = ok l
link_loop (suc k) l mov made = elim (get_elem? l mov) [
  | none ↦ panic
  | some here ↦ elim (get_elem? l (suc mov)) [
    | none ↦ made >>= λ e. link_loop k (l ++ e ∷ []) mov made
    | some next ↦ link_loop k l (suc mov) made
  ]
]

-- An empty count replaces the list by the new element.
pub add_element {ℓ} : {A : Type ℓ} → ℕ → List A → Outcome A → Outcome (List A)
unfolding link_loop
add_element len l made = if len == 0 then (made >>= λ e. ok (e ∷ [])) else link_loop len l 0 made

unfoldable pub new_plmn : List ℕ → Outcome PlmnSupported
new_plmn plmn = convert_mcc_mnc plmn >>= λ p. ok (record { mcc = p.0; mnc = p.1 })

pub added_plmn : GnbAmf → List ℕ → Outcome GnbAmf
added_plmn amf plmn = add_element amf.len_plmn amf.plmns (new_plmn plmn) >>= λ l.
    ok (record amf { plmns = l; len_plmn = amf.len_plmn + 1 })

pub added_slice : GnbAmf → List ℕ → List ℕ → Outcome GnbAmf
added_slice amf sst sd =
    add_element amf.len_slice amf.slices (ok (record { sst = sst; sd = sd })) >>= λ l.
    ok (record amf { slices = l; len_slice = amf.len_slice + 1 })
