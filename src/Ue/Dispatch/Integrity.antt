-- ===== src/Ue/Dispatch/Integrity.antt =====
-- Which protected messages the UE acts on, and in which security state:
-- internal/control_test_engine/ue/nas/dispatcher.go.
use packet_rusher.Base.{ℕ, some, List, ◌≡◌, ◌%◌, ok}
use packet_rusher.Ue.Context.{UeContext, Security}
use packet_rusher.Ue.Nas.{NasLib, DlMessage}
use packet_rusher.Ue.Dispatch.{handle, with_security}
use packet_rusher.Ue.Dispatch.Verdict.{Refused, Passed, Verdict}

module _ (lib : NasLib) where
  -- What came of a protected message.
  pub data Dispatched (ue : UeContext) (message : List ℕ) (ue' : UeContext) : Type 0 where
    discarded :
        {s : Security}
        → Refused lib ue.security message (lib.security_header_type message % 16) s
        → ue' ≡ with_security lib ue s
        → Dispatched ue message ue'
    handled :
        {s : Security} {m : DlMessage}
        → Passed lib ue.security message (lib.security_header_type message % 16) s (some m)
        → handle lib (with_security lib ue s) m ≡ ok ue'
        → Dispatched ue message ue'
