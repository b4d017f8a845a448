-- ===== src/Chat.antt =====
-- src/chat: who is online, who is in a room, how messages are routed, and the server that puts the
-- parts together.
pub mod Presence
pub mod Rooms
pub mod Router
pub mod Server
pub mod Startup
