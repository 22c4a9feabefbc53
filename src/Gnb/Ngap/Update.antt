-- ===== src/Gnb/Ngap/Update.antt =====
-- `HandlerAmfConfigurationUpdate` of gnb/ngap/handler.go, and `InitConn` of gnb/ngap/service.go.
-- The AMF objects stand in the pool by value: what the handler changes of an AMF of the pool is put
-- back under its id.
pub mod Kept
use packet_rusher.Base.{
  ℕ, suc, ◌+◌, ◌%◌, Bool, true, false, Option, none, some, List, [], ◌∷◌, ◌++◌, Outcome, ok, panic,
  fatal, ◌>>=◌, deref, codes, ◌==◌, if◌then◌else◌, ◌||◌, ◌&&◌, ◌^◌, map,
}
use packet_rusher.Base.Int.{ℤ, pos}
use packet_rusher.Plmn.Hex.{encode_hex}
use packet_rusher.Gnb.Amf.{
  BitString, empty_bits, AddrPort, GnbAmf, AmfState, active, inactive, added_plmn, added_slice,
  get_plmn_support, get_slice_support,
}
use packet_rusher.Gnb.Context.{GnbContext, new_gnb_amf, delete_gnb_amf, find_gnb_amf_by_ip_port}
use packet_rusher.Gnb.Messages.{Output, listen, release}
use packet_rusher.Gnb.Ngap.{NgapLib, Ie, Run, Guami, PlmnSupport, Snssai, TnlItem, hex_or, read_ies}
use packet_rusher.Gnb.Ngap.Triggers.{
  send_amf_configuration_update_acknowledge, send_ng_setup_request, is_empty, bytes_of,
}
use packet_rusher.Gnb.Ngap.Setup.{guamis}

-- An AMF of the pool after its object changed.
pub put_key : GnbAmf → List (ℕ × GnbAmf) → List (ℕ × GnbAmf)
put_key amf [] = []
put_key amf ((k, old) ∷ rest) = (if k == amf.amf_id then (k, amf) else (k, old)) ∷ put_key amf rest

pub put_amf : GnbContext → GnbAmf → GnbContext
unfolding put_key
put_amf gnb amf = record gnb { amf_pool = put_key amf gnb.amf_pool }

-- The variables of `HandlerAmfConfigurationUpdate` that go from one IE to the next.
pub record UpdateLocals : Type 0 where
  pub update_name : List ℕ
  pub update_capacity : ℤ
  pub update_region : BitString
  pub update_set : BitString
  pub update_pointer : BitString

abbrev pub zero_update : UpdateLocals
zero_update = record {
  update_name = [];
  update_capacity = pos 0;
  update_region = empty_bits;
  update_set = empty_bits;
  update_pointer = empty_bits;
}

-- The context, the count of connections of the process, and the variables.
pub record Update : Type 0 where
  pub gnb : GnbContext
  pub conn_count : ℕ
  pub locals : UpdateLocals
  pub sent : List Output

abbrev pub with_guami : UpdateLocals → Guami → UpdateLocals
with_guami l g = record l {
  update_region = g.amf_region_id;
  update_set = g.amf_set_id;
  update_pointer = g.amf_pointer;
}

-- The last item of the list counts.
pub read_guamis : List Guami → UpdateLocals → UpdateLocals
read_guamis [] l = l
read_guamis (g ∷ rest) l = read_guamis rest (with_guami l g)

-- The usage is optional, and the weight in an update; a missing one panics.
abbrev pub updated_amf : UpdateLocals → TnlItem → GnbAmf → Outcome GnbAmf
updated_amf l item amf = deref item.association_usage >>= λ usage.
    deref item.weight_factor >>= λ weight. ok (record amf {
      name = l.update_name;
      relative_amf_capacity = l.update_capacity;
      region_id = l.update_region;
      set_id = l.update_set;
      pointer = l.update_pointer;
      tnla = record (amf.tnla) { usage = usage; tnla_weight_factor = weight };
    })

-- `InitConn`: the connection goes out from the gNB's port plus the count; none with an error.
abbrev pub local_port : GnbContext → ℕ → AddrPort
local_port gnb count = record (gnb.control_info.gnb_ip_port) {
  port = (gnb.control_info.gnb_ip_port.port + count) % (2 ^ 16);
}

abbrev pub amf_pool_values : List (ℕ × GnbAmf) → List GnbAmf
amf_pool_values [] = []
amf_pool_values ((k, amf) ∷ rest) = amf ∷ amf_pool_values rest

pub each_item : (TnlItem → Update → Outcome Update) → List TnlItem → Update → Outcome Update
each_item act [] u = ok u
each_item act (item ∷ rest) u = act item u >>= λ u'. each_item act rest u'

module _ (lib : NgapLib) where
  pub init_conn : GnbContext → ℕ → GnbAmf → Option GnbAmf
  init_conn gnb count amf =
      if lib.resolves amf.amf_ip_port && lib.resolves (local_port gnb count)
      then (elim (lib.dial (local_port gnb count) amf.amf_ip_port) [
        | none ↦ none
        | some c ↦ some (record amf { tnla = record (amf.tnla) { sctp_conn = some c } })
      ])
      else none

  -- The AMF at the address of an item, if the pool has one; an address without IPv4 is ignored.
  pub address_of : TnlItem → Outcome (Option AddrPort)
  address_of item =
      let text = lib.ip_address_to_string item.endpoint in
      if is_empty text
      then ok none
      else (deref (lib.parse_addr text) >>= λ a. ok (some (record { addr = a; port = 38412 })))

  pub find_amf : GnbContext → AddrPort → Option GnbAmf
  find_amf gnb address = find_gnb_amf_by_ip_port (lib.visit (amf_pool_values gnb.amf_pool)) address

  -- The connection is the context's N2 connection too.
  pub start_amf : Update → GnbAmf → Outcome Update
  unfolding init_conn put_amf
  start_amf u amf = elim (init_conn u.gnb u.conn_count amf) [
    | none ↦ fatal
    | some connected ↦
        let gnb' = record (put_amf u.gnb connected) {
          control_info = record (u.gnb.control_info) { n2 = connected.tnla.sctp_conn };
        } in
        send_ng_setup_request lib gnb' connected >>= λ out. ok (record u {
          gnb = gnb';
          conn_count = u.conn_count + 1;
          sent = u.sent ++ listen connected.amf_id ∷ out;
        })
  ]

  -- What an item asks for, by whether the pool has an AMF at its address.
  pub for_item :
      TnlItem → Update → (GnbAmf → Outcome Update) → (AddrPort → Outcome Update) → Outcome Update
  unfolding address_of find_amf
  for_item item u known unknown = address_of item >>= λ found. elim found [
    | none ↦ ok u
    | some address ↦ elim (find_amf u.gnb address) [ some old ↦ known old | none ↦ unknown address ]
  ]

  -- The object is in the pool before its fields are set.
  pub new_amf : TnlItem → Update → AddrPort → Outcome Update
  unfolding start_amf
  new_amf item u address =
      let (gnb', fresh) = new_gnb_amf u.gnb address in
      updated_amf u.locals item fresh >>= λ new. start_amf (record u { gnb = put_amf gnb' new }) new

  pub add_item : TnlItem → Update → Outcome Update
  unfolding for_item new_amf
  add_item item u = for_item item u (λ old. ok u) (new_amf item u)

  -- The connection that is closed is that of the AMF which sent the message.
  pub remove_item : GnbAmf → TnlItem → Update → Outcome Update
  unfolding for_item
  remove_item amf item u =
      for_item item u
        (λ old. ok (record u {
          gnb = delete_gnb_amf u.gnb old.amf_id;
          sent = u.sent ++ release amf.tnla.sctp_conn ∷ [];
        }))
        (λ address. ok u)

  pub update_item : TnlItem → Update → Outcome Update
  unfolding for_item
  update_item item u =
      for_item item u
        (λ old. updated_amf u.locals item old >>= λ new. ok (record u { gnb = put_amf u.gnb new }))
        (λ address. ok u)

  pub read_update : GnbAmf → Ie → Update → Outcome Update
  unfolding add_item remove_item update_item each_item read_guamis
  read_update amf (Ie.amf_name v) u =
      deref v >>= λ n. ok (record u { locals = record (u.locals) { update_name = n } })
  read_update amf (Ie.served_guami_list v) u =
      deref v >>= λ gs. ok (record u { locals = read_guamis gs u.locals })
  read_update amf (Ie.amf_capacity v) u =
      deref v >>= λ c. ok (record u { locals = record (u.locals) { update_capacity = c } })
  read_update amf (Ie.tnl_association_to_add_list items) u = each_item add_item items u
  read_update amf (Ie.tnl_association_to_remove_list items) u = each_item (remove_item amf) items u
  read_update amf (Ie.tnl_association_to_update_list items) u = each_item update_item items u
  read_update amf _ u = ok u

  pub handler_amf_configuration_update : GnbAmf → GnbContext → ℕ → List Ie → Outcome Update
  unfolding read_update
  handler_amf_configuration_update amf gnb count ies =
      read_ies (read_update amf) ies
        (record { gnb = gnb; conn_count = count; locals = zero_update; sent = [] })
      >>= λ u. send_amf_configuration_update_acknowledge lib amf >>= λ out.
          ok (record u { sent = u.sent ++ out })
