-- ===== src/Lib.antt =====
-- PacketRusher, a simulator of 5G UEs and gNBs: the core of the gNB and of the UE under
-- internal/control_test_engine. Paths below are under that directory unless they begin with
-- `internal`.
--
-- How the parts interact. A UE opens a channel to the gNB's inbound channel; `gnbListen` creates
-- the UE's context in the gNB's pools, selects an AMF for it, and starts `processingConn`, which
-- takes the UE's messages and dispatches its NAS messages to the AMF. What an AMF sends is decoded,
-- and dispatched to the NGAP handlers, which work on the same pools and send to the same channels.
-- The UE's own loop takes the requests of the tester, which start procedures, and the NAS messages
-- that the gNB passes on, which are checked, deciphered and handled. NAS security, the session
-- tables and the PLMN encodings serve both.
--
-- - Base: the shared names, and `Outcome`, how a Go function can end: a result, a panic, a
--   `log.Fatal`, or a wait for ever on a nil channel. `Pool` is a `sync.Map`.
-- - Plmn: the PLMN octets of both sides (gnb/context/context.go, ue/context/context.go), the reading
--   of them (gnb/context/amf.go), the routing indicator and the serving network name.
-- - Gnb.Amf: the AMF as the gNB knows it (gnb/context/amf.go). Gnb.Ue: the UE as the gNB knows it
--   (gnb/context/ue.go). Gnb.Context: pools, generators, selection of an AMF, paging
--   (gnb/context/context.go).
-- - Gnb.Messages: gnb/context/msg.go and gnb/nas/message/sender/send.go. Gnb.Listen:
--   gnb/nas/service/service.go with gnb/nas/dispatcher.go and gnb/nas/handler/handler.go.
-- - Gnb.Ngap: the messages of the AMF. Ngap itself holds the types of the decoded message and what
--   the code uses of libraries, as a record of functions; Ies how each handler reads its IEs; Ues,
--   ContextSetup, SessionSetup, Release, Setup, Update, Status and Handover the handlers of
--   gnb/ngap/handler.go; Builders what the gNB's messages hold (gnb/ngap/message/ngap_control);
--   Dispatch gnb/ngap/dispatcher.go; Triggers gnb/ngap/trigger/trigger.go and
--   gnb/ngap/message/sender/send.go. The children named Kept say what a handler does to the pools.
-- - Ue.Context: ue/context/context.go. Ue.Nas: what the UE uses of the libraries nas, milenage and
--   ueauth, as a record of functions. Ue.Security: `NASEncode`
--   (ue/nas/message/nas_control/integrity-ciphering-nas.go) and the sender. Ue.Trigger: the procedures
--   (ue/nas/trigger/trigger.go). Ue.Authentication: `DeriveRESstarAndSetKey` and `DerivateKamf`.
--   Ue.Handlers: ue/nas/handler/handler.go. Ue.Dispatch: ue/nas/dispatcher.go with
--   `AlgorithmKeyDerivation` (internal/common/auth/auth.go). Ue.Manager: the loop of ue/ue.go.
-- - Suci: the concealment of a subscriber's identity by profile A, and its inverse
--   (internal/common/sidf).
-- - The modules named Tests and Samples hold runs at concrete inputs.
--
-- How the code is modelled. State is passed explicitly; each function takes one message or request.
-- Objects that the code shares by pointers stand in a store, and the pools and tables hold addresses,
-- so that the aliasing is the source's; an AMF object is kept by value. What leaves a component is a
-- list of outputs. uint8 and int64 counters wrap as they do in Go; the session ids of NGAP and the
-- weights are signed. `sync.Map.Range` visits the AMFs in no given order: the order is an argument.
-- Loops are recursion on their lists or on the rounds left, which the source bounds too, so no fuel is
-- needed. Ids and TEIDs wrap at 2^64 and 2^32: the steps of the reachability relation stay below.
--
-- In NGAP a value that the source dereferences without a test, in the choices inside of an IE, is
-- taken as present, as the codec has it; a session object is kept by value, so what a path switch
-- changes is not seen in the source gNB's copy.
--
-- A message to the AMF is known to the triggers by its builder and arguments; the encoding of what a
-- builder gives is the codec's, and whether a write goes through is a parameter, whose failure ends the
-- process or is logged as in the source. The channels of another gNB that are closed are a parameter.
-- Where a transfer inside of a message cannot be encoded, a builder that ends the process is not told
-- apart from one that returns an error.
--
-- Not modelled: the contents of the plain NAS messages (a library function of the UE's context
-- gives them), the other schemes and the text of a SUCI, `NewRanUeContext`, GTP tunnels and network
-- interfaces (netlink), configuration, the command line, scenarios and monitoring, the AMF of the
-- tests, and the copies of gtp5g and ngap under lib. The goroutines run one message at a time;
-- races between them are not modelled.
pub mod Base
pub mod Plmn
pub mod Gnb
pub mod Ue
pub mod Suci
