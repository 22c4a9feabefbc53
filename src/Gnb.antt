-- ===== src/Gnb.antt =====
-- The gNB: internal/control_test_engine/gnb.
pub mod Amf
pub mod Ue
pub mod Context
pub mod Messages
pub mod Listen
pub mod Ngap
pub mod Samples
