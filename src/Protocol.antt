-- ===== src/Protocol.antt =====
-- The wire protocol: src/protocol/framing.cpp and src/protocol/messages.cpp.
pub mod Framing
pub mod Messages
