-- ===== src/Gnb/Listen/Dispatch.antt =====
-- What the AMF receives of a UE's NAS messages.
use packet_rusher.Base.{
  ℕ, ◌≡◌, refl, ◌⊎◌, inl, inr, Option, none, some, List, [], ◌∷◌, ◌++◌, Outcome, ok, panic, ◌>>=◌,
  if◌then◌else◌, map,
}
use packet_rusher.Gnb.Ue.{GnbUe, initialized, ongoing, ready}
use packet_rusher.Gnb.Context.{ControlInfo}
use packet_rusher.Gnb.Messages.{Output, to_amf}
use packet_rusher.Gnb.Ngap.{NgapLib}
use packet_rusher.Gnb.Ngap.Triggers.{send_or_warn}
use packet_rusher.Gnb.Listen.{dispatch, dispatch_state, initial_bytes, uplink_bytes}

module _ (lib : NgapLib) (control : ControlInfo) where
  -- The NAS messages of a UE, dispatched one after the other.
  pub dispatch_all : GnbUe → List (List ℕ) → Outcome (GnbUe × List Output)
  dispatch_all ue [] = ok (ue, [])
  dispatch_all ue (m ∷ rest) =
      dispatch lib control ue m >>= λ r. dispatch_all r.0 rest >>= λ s. ok (s.0, r.1 ++ s.1)

  -- Of these bytes the ones that can be written go out, in order; the others are lost.
  abbrev pub written : ℕ → List (List ℕ) → List Output
  written c [] = []
  written c (bytes ∷ rest) =
      (if lib.sctp_write c bytes then to_amf (some c) bytes ∷ [] else []) ++ written c rest

  dispatch_connected :
      (ue : GnbUe) (m : List ℕ) (c : ℕ)
      → ue.sctp_connection ≡ some c
      → (ue.state ≡ ongoing) ⊎ (ue.state ≡ ready)
      → dispatch lib control ue m
        ≡ ok (
          ue,
          if lib.sctp_write c (uplink_bytes lib control ue m)
              then to_amf (some c) (uplink_bytes lib control ue m) ∷ []
              else [],
        )
  unfolding dispatch dispatch_state send_or_warn
  dispatch_connected ue m c conn (inl h) = rw (h, conn) refl
  dispatch_connected ue m c conn (inr h) = rw (h, conn) refl

  dispatch_new :
      (ue : GnbUe) (m : List ℕ) (c : ℕ)
      → ue.sctp_connection ≡ some c
      → ue.state ≡ initialized
      → dispatch lib control ue m
        ≡ ok (
          record ue { state = ongoing },
          if lib.sctp_write c (initial_bytes lib control ue m)
              then to_amf (some c) (initial_bytes lib control ue m) ∷ []
              else [],
        )
  unfolding dispatch dispatch_state send_or_warn
  dispatch_new ue m c conn h = rw (h, conn) refl

  connected_uplinks :
      (ue : GnbUe) (messages : List (List ℕ)) (c : ℕ)
      → ue.sctp_connection ≡ some c
      → (ue.state ≡ ongoing) ⊎ (ue.state ≡ ready)
      → dispatch_all ue messages ≡ ok (ue, written c (map (uplink_bytes lib control ue) messages))
  unfolding dispatch_all
  connected_uplinks ue [] c conn h = refl
  connected_uplinks ue (m ∷ rest) c conn h =
      rw (dispatch_connected ue m c conn h, connected_uplinks ue rest c conn h) refl

  -- What comes of the messages of a new UE, by its connection.
  abbrev pub passed_on : GnbUe → Option ℕ → List ℕ → List (List ℕ) → Outcome (GnbUe × List Output)
  passed_on ue none first rest = panic
  passed_on ue (some c) first rest = ok (
    record ue { state = ongoing },
    written c (initial_bytes lib control ue first ∷ map (uplink_bytes lib control ue) rest),
  )

  passed_on_lem :
      (ue : GnbUe) (conn : Option ℕ) (first : List ℕ) (rest : List (List ℕ))
      → ue.sctp_connection ≡ conn
      → ue.state ≡ initialized
      → dispatch_all ue (first ∷ rest) ≡ passed_on ue conn first rest
  unfolding dispatch_all dispatch dispatch_state send_or_warn
  passed_on_lem ue none first rest conn h = rw (h, conn) refl
  passed_on_lem ue (some c) first rest conn h =
      rw
        (
          dispatch_new ue first c conn h,
          connected_uplinks (record ue { state = ongoing }) rest c conn (inl refl),
        )
        refl

-- The NAS messages of a new UE: over a connection, the first is encoded as an Initial UE Message, each
-- later one as an Uplink NAS Transport, with the ids that the UE has, and of the encodings those that
-- can be written go out, in order; a message that is lost stops no later one, and the UE is then
-- ongoing and otherwise as it was. Without a connection the first message panics.
pub dispatch_all_new :
    (lib : NgapLib) (control : ControlInfo) (ue : GnbUe) (first : List ℕ) (rest : List (List ℕ))
    → ue.state ≡ initialized
    → dispatch_all lib control ue (first ∷ rest)
      ≡ passed_on lib control ue ue.sctp_connection first rest
dispatch_all_new lib control ue first rest h =
    passed_on_lem lib control ue ue.sctp_connection first rest refl h
