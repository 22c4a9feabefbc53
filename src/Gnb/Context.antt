-- ===== src/Gnb/Context.antt =====
-- The gNB's pools and generators: internal/control_test_engine/gnb/context/context.go.
-- The pools of UEs hold addresses, so that the aliasing between them is the source's: `ues` is the
-- store of the UE objects that were allocated, and an address is a place in it. An AMF object is kept
-- in the pool by value, under its id. `closed` are the channels that were closed.
-- int64 ids are bit patterns and wrap at 2^64; TEIDs wrap at 2^32. `sync.Map.Range` visits entries
-- in no given order: an operation that ranges over the AMFs takes the order as an argument.
pub mod Selection
pub mod Pools
pub mod Invariant
pub mod Paging
pub mod Reachable
pub mod Kept
pub mod Octets
mod Tests
use packet_rusher.Base.{
  ℕ, ◌+◌, ◌%◌, ◌^◌, Bool, true, false, ◌&&◌, Option, none, some, List, [], ◌∷◌, ◌++◌, Outcome, ok,
  panic, blocked, ◌>>=◌, ◌==◌, if◌then◌else◌, length, set, get_elem?, deref, text_eq, Pool,
  no_entries, store, delete, compare_and_delete, delete_range,
}
use packet_rusher.Base.Int.{ℤ, pos, negsuc, ltb_ℤ}
use packet_rusher.Gnb.Amf.{
  empty_bits, AddrPort, GnbAmf, AmfState, inactive, active, overload, TnlAssociation,
}
use packet_rusher.Gnb.Ue.{GnbUe, GnbPduSession, zero_ue, initialized}

pub record PagedUe : Type 0 where
  pub five_g_s_tmsi : Option ℕ
  pub timestamp : ℕ

pub record ControlInfo : Type 0 where
  pub mcc : List ℕ
  pub mnc : List ℕ
  pub tac : List ℕ
  pub gnb_id : List ℕ
  pub gnb_ip_port : AddrPort
  pub inbound_channel : Option ℕ
  pub n2 : Option ℕ

pub record GnbContext : Type 0 where
  pub data_ip_port : AddrPort
  pub control_info : ControlInfo
  pub ue_pool : Pool ℕ
  pub pr_ue_pool : Pool ℕ
  pub amf_pool : List (ℕ × GnbAmf)
  pub teid_pool : Pool ℕ
  pub sst : List ℕ
  pub sd : List ℕ
  pub id_ue_generator : ℕ
  pub id_amf_generator : ℕ
  pub teid_generator : ℕ
  pub ue_ip_generator : ℕ
  pub paged_ues : List PagedUe
  pub paged_ue_locked : Bool
  pub ues : List GnbUe
  pub closed : List ℕ

abbrev pub int64_mod : ℕ
int64_mod = 2 ^ 64

abbrev pub uint32_mod : ℕ
uint32_mod = 2 ^ 32

-- A fresh context, with the inbound channel that `make` gave.
unfoldable pub new_ran_gnb_context :
    (gnb_id mcc mnc tac sst sd : List ℕ) → AddrPort → AddrPort → ℕ → GnbContext
new_ran_gnb_context gnb_id mcc mnc tac sst sd n2 n3 channel = record {
  data_ip_port = n3;
  control_info = record {
    mcc = mcc;
    mnc = mnc;
    tac = tac;
    gnb_id = gnb_id;
    gnb_ip_port = n2;
    inbound_channel = some channel;
    n2 = none;
  };
  ue_pool = no_entries;
  pr_ue_pool = no_entries;
  amf_pool = [];
  teid_pool = no_entries;
  sst = sst;
  sd = sd;
  id_ue_generator = 1;
  id_amf_generator = 1;
  teid_generator = 1;
  ue_ip_generator = 3;
  paged_ues = [];
  paged_ue_locked = false;
  ues = [];
  closed = [];
}

-- The loop of both selections: `better` AMFs replace the selected one.
unfoldable pub select_loop : (GnbAmf → Bool) → Option GnbAmf → ℤ → List GnbAmf → Option GnbAmf
select_loop eligible selected weight [] = selected
select_loop eligible selected weight (amf ∷ rest) =
    let better = eligible amf && ltb_ℤ weight amf.tnla.tnla_weight_factor in
    select_loop eligible (if better then some amf else selected)
      (if better then amf.tnla.tnla_weight_factor else weight) rest

abbrev pub is_active : AmfState → Bool
is_active active = true
is_active inactive = false
is_active overload = false

unfoldable pub select_amf_by_active : List GnbAmf → Option GnbAmf
select_amf_by_active order = select_loop (λ amf. is_active amf.state) none (negsuc 0) order

pub select_amf_by_capacity : List GnbAmf → Option GnbAmf
select_amf_by_capacity order =
    select_loop (λ amf. ltb_ℤ (pos 0) amf.relative_amf_capacity) none (negsuc 0) order

abbrev pub ip_port_eq : AddrPort → AddrPort → Bool
ip_port_eq a b = text_eq a.addr b.addr && a.port == b.port

pub find_gnb_amf_by_ip_port : List GnbAmf → AddrPort → Option GnbAmf
find_gnb_amf_by_ip_port [] ip_port = none
find_gnb_amf_by_ip_port (amf ∷ rest) ip_port =
    let later = find_gnb_amf_by_ip_port rest ip_port in
    if ip_port_eq amf.amf_ip_port ip_port then some amf else later

abbrev pub no_association : TnlAssociation
no_association = record { sctp_conn = none; tnla_weight_factor = pos 0; usage = 0; streams = 0 }

unfoldable pub new_gnb_amf : GnbContext → AddrPort → GnbContext × GnbAmf
new_gnb_amf gnb ip_port =
    let amf : GnbAmf = record {
      amf_ip_port = ip_port;
      amf_id = gnb.id_amf_generator;
      tnla = no_association;
      relative_amf_capacity = pos 0;
      state = inactive;
      name = [];
      region_id = empty_bits;
      set_id = empty_bits;
      pointer = empty_bits;
      plmns = [];
      slices = [];
      len_slice = 0;
      len_plmn = 0;
      backup_amf = [];
    } in
    (
      record gnb {
        amf_pool = gnb.amf_pool ++ (gnb.id_amf_generator, amf) ∷ [];
        id_amf_generator = (gnb.id_amf_generator + 1) % int64_mod;
      },
      amf,
    )

-- `amfPool.Delete`.
unfoldable pub remove_key : ℕ → List (ℕ × GnbAmf) → List (ℕ × GnbAmf)
remove_key k [] = []
remove_key k ((j, amf) ∷ rest) = if j == k then remove_key k rest else (j, amf) ∷ remove_key k rest

unfoldable pub delete_gnb_amf : GnbContext → ℕ → GnbContext
unfolding remove_key
delete_gnb_amf gnb amf_id = record gnb { amf_pool = remove_key amf_id gnb.amf_pool }

-- `NewGnBUe` up to the selection of an AMF: the UE is already in the pools.
unfoldable pub store_ue : GnbContext → GnbUe → GnbContext
store_ue gnb ue = record gnb {
  id_ue_generator = (gnb.id_ue_generator + 1) % int64_mod;
  ues = gnb.ues ++ ue ∷ [];
  ue_pool = store gnb.id_ue_generator (length gnb.ues) gnb.ue_pool;
  pr_ue_pool =
      if ue.pr_ue_id == 0
      then gnb.pr_ue_pool
      else store ue.pr_ue_id (length gnb.ues) gnb.pr_ue_pool;
}

abbrev pub fresh_ue : GnbContext → Option ℕ → Option ℕ → ℕ → Option ℕ → GnbUe
fresh_ue gnb tx rx pr_ue_id tmsi = record zero_ue {
  ran_ue_ngap_id = gnb.id_ue_generator;
  gnb_rx = rx;
  gnb_tx = tx;
  pr_ue_id = pr_ue_id;
  tmsi = tmsi;
}

abbrev pub attach_amf : GnbUe → GnbAmf → GnbUe
attach_amf ue amf = record ue { amf_id = amf.amf_id; sctp_connection = amf.tnla.sctp_conn }

-- `NewGnBUe`: the new state, and the address of the UE, or none with an error. `order` is what
-- `Range` yields of the AMFs.
unfoldable pub new_gnb_ue :
    List GnbAmf → GnbContext → Option ℕ → Option ℕ → ℕ → Option ℕ → GnbContext × Option ℕ
new_gnb_ue order gnb tx rx pr_ue_id tmsi =
    let ue = fresh_ue gnb tx rx pr_ue_id tmsi in
    elim (select_amf_by_active order) [
      | none ↦ (store_ue gnb ue, none)
      | some amf ↦ (store_ue gnb (attach_amf ue amf), some (length gnb.ues))
    ]

abbrev pub get_gnb_ue : GnbContext → ℕ → Option ℕ
get_gnb_ue gnb ran_ue_id = gnb.ue_pool ran_ue_id

abbrev pub get_gnb_ue_by_pr_ue_id : GnbContext → ℕ → Option ℕ
get_gnb_ue_by_pr_ue_id gnb pr_ue_id = gnb.pr_ue_pool pr_ue_id

abbrev pub get_gnb_ue_by_teid : GnbContext → ℕ → Option ℕ
get_gnb_ue_by_teid gnb teid = gnb.teid_pool teid

abbrev pub contains : List ℕ → ℕ → Bool
contains [] c = false
contains (d ∷ l) c = if d == c then true else contains l c

-- `close(ue.gnbTx)`, unless it is nil; a second close of a channel panics.
pub close_tx : Option ℕ → List ℕ → Outcome (List ℕ)
close_tx none closed = ok closed
close_tx (some c) closed = if contains closed c then panic else ok (c ∷ closed)

-- The loop over the sessions of the UE that is deleted.
pub delete_teids : List (Option GnbPduSession) → Pool ℕ → Pool ℕ
delete_teids [] pool = pool
delete_teids (none ∷ rest) pool = delete_teids rest pool
delete_teids (some s ∷ rest) pool = delete_teids rest (delete s.downlink_teid pool)

pub delete_gnb_ue : GnbContext → ℕ → Outcome GnbContext
delete_gnb_ue gnb p = deref (get_elem? gnb.ues p) >>= λ ue.
    close_tx ue.gnb_tx gnb.closed >>= λ closed. ok (record gnb {
      ue_pool = delete ue.ran_ue_ngap_id gnb.ue_pool;
      pr_ue_pool = compare_and_delete ue.pr_ue_id p gnb.pr_ue_pool;
      teid_pool = delete_teids ue.context.pdu_session gnb.teid_pool;
      ues = set gnb.ues p (record ue { gnb_tx = none });
      closed = closed;
    })

unfoldable pub get_ue_teid : GnbContext → ℕ → GnbContext × ℕ
get_ue_teid gnb p = (
  record gnb {
    teid_pool = store gnb.teid_generator p gnb.teid_pool;
    teid_generator = (gnb.teid_generator + 1) % uint32_mod;
  },
  gnb.teid_generator,
)

-- A lock that is never given back is waited for without an end.
unfoldable pub add_paged_ue : GnbContext → PagedUe → Outcome GnbContext
add_paged_ue gnb paged =
    if gnb.paged_ue_locked
    then blocked
    else ok (record gnb { paged_ues = gnb.paged_ues ++ paged ∷ [] })

abbrev pub pointer_eq : Option ℕ → Option ℕ → Bool
pointer_eq none none = true
pointer_eq none (some q) = false
pointer_eq (some p) none = false
pointer_eq (some p) (some q) = p == q

abbrev pub paged_eq : PagedUe → PagedUe → Bool
paged_eq a b = pointer_eq a.five_g_s_tmsi b.five_g_s_tmsi && a.timestamp == b.timestamp

-- `slices.Index`; none for -1.
pub index_of : List PagedUe → PagedUe → Option ℕ
index_of [] paged = none
index_of (x ∷ rest) paged =
    if paged_eq x paged
    then some 0
    else elim (index_of rest paged) [ none ↦ none | some i ↦ some (i + 1) ]

-- What the goroutine of `AddPagedUE` does after a second. A missing entry leaves the lock held, and
-- one that is held keeps the goroutine waiting, with no effect.
pub expire_paged_ue : GnbContext → PagedUe → GnbContext
expire_paged_ue gnb paged =
    if gnb.paged_ue_locked then gnb else (elim (index_of gnb.paged_ues paged) [
      | none ↦ record gnb { paged_ue_locked = true }
      | some i ↦ record gnb { paged_ues = delete_range gnb.paged_ues i i }
    ])
