-- ===== src/Gnb/Ngap/Handover/Tests.antt =====
-- A UE whose context the AMF releases.
