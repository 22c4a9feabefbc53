-- ===== src/Ue/Dispatch/RoundTrip.antt =====
-- A receiver that has the sender's keys reads what `NASEncode` makes: the encoder of
-- internal/control_test_engine/ue/nas/message/nas_control/integrity-ciphering-nas.go against the
-- checks of ue/nas/dispatcher.go.
use packet_rusher.Base.{
  ℕ, ◌+◌, ◌%◌, ◌^◌, Bool, true, false, Option, none, some, List, [], ◌∷◌, ◌++◌, ◌≡◌, refl, sym, ap,
  ◌∙◌, subst, ok, length, text_eq_refl, arith, ltb, if◌then◌else◌,
}
use packet_rusher.Ue.Context.{Security}
use packet_rusher.Ue.Nas.{NasLib, Direction, uplink, downlink}
use packet_rusher.Ue.Security.{
  HeaderType, integrity_protected, integrity_protected_and_ciphered, header_code, cipher, attach,
  protect, nas_encode,
}
use packet_rusher.Ue.Dispatch.{
  accepted, rejected, verify, downlink_mac, after_decipher, after_context, check_mac, decipher,
  update_dl_count,
}

flip : Direction → Direction
flip uplink = downlink
flip downlink = uplink

-- The library as the receiver of uplink messages uses it.
pub peer : NasLib → NasLib
unfolding flip
peer lib = record lib {
  encrypt = λ a k c d. lib.encrypt a k c (flip d);
  mac = λ a k c d. lib.mac a k c (flip d);
}

-- What nas/security documents: a MAC has 32 bits, a cipher undoes itself, and a count is its overflow
-- and its sequence number.
pub record IsSound (lib : NasLib) : Type 0 where
  pub mac_length :
      (a : ℕ) (k : List ℕ) (c : ℕ) (d : Direction) (s m : List ℕ)
      → lib.mac a k c d s ≡ some m
      → length m ≡ 4
  pub decrypt :
      (a : ℕ) (k : List ℕ) (c : ℕ) (d : Direction) (p q : List ℕ)
      → lib.encrypt a k c d p ≡ some q
      → lib.encrypt a k c d q ≡ some p
  pub count_parts : (c : ℕ) → lib.make_count (lib.overflow c) (lib.sqn c) ≡ c

-- A security state with the sender's algorithms and keys, which has counted as many messages.
abbrev pub receiver : Security → Security → Security
receiver s t = record t {
  integrity_alg = s.integrity_alg;
  ciphering_alg = s.ciphering_alg;
  knas_int = s.knas_int;
  knas_enc = s.knas_enc;
  dl_count = s.ul_count;
}

abbrev pub protection : Bool → HeaderType
protection true = integrity_protected_and_ciphered
protection false = integrity_protected

four :
    (m : List ℕ) → length m ≡ 4 → (a : ℕ) × (b : ℕ) × (c : ℕ) × (d : ℕ) × (m ≡ a ∷ b ∷ c ∷ d ∷ [])
four (a ∷ b ∷ c ∷ d ∷ []) h = (a, b, c, d, refl)
four [] h = absurd (omega arith)
four (a ∷ []) h = absurd (omega arith)
four (a ∷ b ∷ []) h = absurd (omega arith)
four (a ∷ b ∷ c ∷ []) h = absurd (omega arith)
four (a ∷ b ∷ c ∷ d ∷ e ∷ m) h = absurd (omega arith)

ltb_self : (n : ℕ) → ltb n n ≡ false
ltb_self n = ground arith

module _ (lib : NasLib) (laws : IsSound lib) where
  update_dl_count-receiver :
      (s t : Security)
      → update_dl_count (peer lib) (receiver s t) (lib.sqn s.ul_count) ≡ receiver s t
  unfolding update_dl_count peer
  update_dl_count-receiver s t =
      let c = s.ul_count in
      ap (λ (x : ℕ). record (receiver s t) { dl_count = x })
        (ap
            (λ (b : Bool).
              lib.make_count (if b then (lib.overflow c + 1) % 2 ^ 16 else lib.overflow c)
                (lib.sqn c))
            (ltb_self (lib.sqn c))
          ∙ laws.count_parts c)

  decipher-cipher :
      (b : Bool) (s t : Security) (payload q : List ℕ)
      → cipher lib b s payload ≡ some q
      → decipher (peer lib) b (receiver s t) q ≡ some payload
  unfolding peer flip
  decipher-cipher true s t payload q h =
      laws.decrypt s.ciphering_alg s.knas_enc (lib.count_value s.ul_count) uplink payload q h
  decipher-cipher false s t payload q h = sym h

  -- The bytes of a message: the header, a MAC of four bytes, the sequence number and the payload.
  abbrev bytes_of : Bool → Security → List ℕ → List ℕ → List ℕ
  bytes_of b s mac32 q = 0x7e ∷ header_code (protection b) ∷ (mac32 ++ lib.sqn s.ul_count ∷ q)

  verify-bytes :
      (b : Bool) (s t : Security) (payload q mac32 : List ℕ)
      → cipher lib b s payload ≡ some q
      → lib.mac s.integrity_alg s.knas_int
          (lib.count_value s.ul_count)
          uplink
          (lib.sqn s.ul_count ∷ q)
        ≡ some mac32
      → ((m0 : ℕ) × (m1 : ℕ) × (m2 : ℕ) × (m3 : ℕ) × (mac32 ≡ m0 ∷ m1 ∷ m2 ∷ m3 ∷ []))
      → verify (peer lib) (receiver s t) (bytes_of b s mac32 q) (header_code (protection b))
        ≡ ok (accepted (receiver s t) (lib.plain_decode payload))
  unfolding verify after_decipher after_context check_mac peer flip
  verify-bytes b s t payload q mac32 hq hm (m0, m1, m2, m3, e) =
      subst
        (λ (m : List ℕ).
          verify (peer lib) (receiver s t) (bytes_of b s m q) (header_code (protection b))
          ≡ ok (accepted (receiver s t) (lib.plain_decode payload)))
        (sym e) (at_four b hq)
    where
      message : Bool → List ℕ
      message b = bytes_of b s (m0 ∷ m1 ∷ m2 ∷ m3 ∷ []) q

      received :
          (b : Bool)
          → downlink_mac (peer lib) (receiver s t) (message b) ≡ some (m0 ∷ m1 ∷ m2 ∷ m3 ∷ [])
      received b = hm ∙ ap some e

      finish :
          (b : Bool)
          → cipher lib b s payload ≡ some q
          → (λ (u : Security).
                after_decipher (peer lib) (message b) false u (decipher (peer lib) b u q))
              (update_dl_count (peer lib) (receiver s t) (lib.sqn s.ul_count))
            ≡ ok (accepted (receiver s t) (lib.plain_decode payload))
      finish b hq =
          ap
            (λ (u : Security).
              after_decipher (peer lib) (message b) false u (decipher (peer lib) b u q))
            (update_dl_count-receiver s t)
          ∙ ap (after_decipher (peer lib) (message b) false (receiver s t))
              (decipher-cipher b s t payload q hq)
          ∙ ap
              (λ (m : Option (List ℕ)).
                ok (check_mac (peer lib) (message b) (lib.plain_decode payload) (receiver s t) m))
              (received b)
          ∙ ap
              (λ (same : Bool). ok (
                if same
                then accepted (receiver s t) (lib.plain_decode payload)
                else rejected (receiver s t)))
              (text_eq_refl (m0 ∷ m1 ∷ m2 ∷ m3 ∷ []))

      at_four :
          (b : Bool)
          → cipher lib b s payload ≡ some q
          → verify (peer lib) (receiver s t) (message b) (header_code (protection b))
            ≡ ok (accepted (receiver s t) (lib.plain_decode payload))
      at_four true hq = finish true hq
      at_four false hq = finish false hq

  verify-attach :
      (b : Bool) (s s' t : Security) (payload q bytes : List ℕ) (m : Option (List ℕ))
      → cipher lib b s payload ≡ some q
      → lib.mac s.integrity_alg s.knas_int
          (lib.count_value s.ul_count)
          uplink
          (lib.sqn s.ul_count ∷ q)
        ≡ m
      → attach lib (protection b) s (lib.sqn s.ul_count ∷ q) m ≡ some (bytes, s')
      → verify (peer lib) (receiver s t) bytes (header_code (protection b))
        ≡ ok (accepted (receiver s t) (lib.plain_decode payload))
  verify-attach b s s' t payload q bytes none hq hm h = cc
  verify-attach b s s' t payload q bytes (some mac32) hq hm h =
      let same : bytes_of b s mac32 q ≡ bytes = cc in
      subst
        (λ (w : List ℕ).
          verify (peer lib) (receiver s t) w (header_code (protection b))
          ≡ ok (accepted (receiver s t) (lib.plain_decode payload)))
        same
        (verify-bytes b s t payload q mac32 hq hm (
          four mac32 (
            laws.mac_length s.integrity_alg s.knas_int (lib.count_value s.ul_count) uplink
              (lib.sqn s.ul_count ∷ q) mac32 hm)))

  verify-protect :
      (b : Bool) (s s' t : Security) (payload bytes : List ℕ) (c : Option (List ℕ))
      → cipher lib b s payload ≡ c
      → protect lib (protection b) s c ≡ some (bytes, s')
      → verify (peer lib) (receiver s t) bytes (header_code (protection b))
        ≡ ok (accepted (receiver s t) (lib.plain_decode payload))
  unfolding protect
  verify-protect b s s' t payload bytes none hq h = cc
  verify-protect b s s' t payload bytes (some q) hq h =
      verify-attach b s s' t payload q bytes _ hq refl h

-- What the encoder makes of a message under an existing security context, with or without ciphering,
-- passes the dispatcher's checks at a receiver that has the same algorithms and keys and has counted as
-- many messages, which then decodes the message's plain bytes. The library is one that keeps the
-- documented laws.
pub verify-nas_encode :
    (lib : NasLib)
    → IsSound lib
    → (b : Bool) (s s' t : Security) (payload bytes : List ℕ)
    → nas_encode lib s (protection b) payload true false ≡ some (bytes, s')
    → verify (peer lib) (receiver s t) bytes (header_code (protection b))
      ≡ ok (accepted (receiver s t) (lib.plain_decode payload))
unfolding nas_encode
verify-nas_encode lib laws true s s' t payload bytes h =
    verify-protect lib laws true s s' t payload bytes _ refl h
verify-nas_encode lib laws false s s' t payload bytes h =
    verify-protect lib laws false s s' t payload bytes _ refl h
