-- ===== src/Ue.antt =====
-- The UE: internal/control_test_engine/ue.
pub mod Context
pub mod Nas
pub mod Security
pub mod Trigger
pub mod Authentication
pub mod Handlers
pub mod Dispatch
pub mod Manager
pub mod Samples
