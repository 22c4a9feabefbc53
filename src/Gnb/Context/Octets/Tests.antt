-- ===== src/Gnb/Context/Octets/Tests.antt =====
-- Runs of the gNB's octets and of its end.
use packet_rusher.Base.{◌≡◌, refl, none, [], ◌∷◌, ◌++◌, ok, panic, arith, codes, inl, inr}
use packet_rusher.Plmn.Hex.{encode_hex, AllHex, decode_hex}
use packet_rusher.Gnb.Context.{GnbContext, new_ran_gnb_context, close_tx}
use packet_rusher.Gnb.Context.Octets.{
  get_gnb_id_in_bytes, get_tac_in_bytes, get_slice_in_bytes, get_nr_cell_identity, terminate,
  IsSdOf, configured_octets,
}
use packet_rusher.Gnb.Messages.{close_channel}
use packet_rusher.Gnb.Samples.{new_gnb, address}

-- Hexadecimal text of the tests.
digits : AllHex (codes "0123")
digits = (
  inl (ground arith, ground arith),
  (
    inl (ground arith, ground arith),
    (inl (ground arith, ground arith), (inl (ground arith, ground arith), tt)),
  ),
)

letters : AllHex (codes "1f2a")
letters = (
  inl (ground arith, ground arith),
  (
    inr (ground arith, ground arith),
    (inl (ground arith, ground arith), (inr (ground arith, ground arith), tt)),
  ),
)

cell_identity_run : (get_nr_cell_identity new_gnb).bytes ≡ 0 ∷ 0 ∷ 8 ∷ 0 ∷ 0 ∷ []
unfolding get_nr_cell_identity get_gnb_id_in_bytes new_ran_gnb_context decode_hex
cell_identity_run = refl

terminate_run : terminate new_gnb ≡ ok (record new_gnb { closed = 2 ∷ [] }, none)
unfolding terminate new_ran_gnb_context close_channel close_tx
terminate_run = refl

terminate_twice_run : terminate (record new_gnb { closed = 2 ∷ [] }) ≡ panic
unfolding terminate new_ran_gnb_context close_channel close_tx
terminate_twice_run = refl

configured_octets_example :
    (gnb : GnbContext) × (new_ran_gnb_context
        (codes "1f2a")
        (codes "208")
        (codes "93")
        (codes "0123")
        (codes "0123")
        (codes "1f2a")
        address
        address
        2
      ≡ gnb)
    × (encode_hex (get_gnb_id_in_bytes gnb) ≡ codes "1f2a")
    × (encode_hex (get_tac_in_bytes gnb) ≡ codes "0123")
    × (encode_hex (get_slice_in_bytes gnb).0 ≡ codes "0123")
    × IsSdOf (codes "1f2a") (get_slice_in_bytes gnb).1
    × (encode_hex (get_nr_cell_identity gnb).bytes ≡ codes "1f2a" ++ codes "0000")
configured_octets_example =
    configured_octets (codes "1f2a") (codes "208") (codes "93") (codes "0123") (codes "0123")
      (codes "1f2a") address address 2 letters tt digits tt digits tt letters tt
