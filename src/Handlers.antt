-- ===== src/Handlers.antt =====
-- src/handlers/handlers.cpp: what the server does for each kind of request.
pub mod World
pub mod Accounts
pub mod Rooms
pub mod Conversation
pub mod Dispatch
pub mod Access
pub mod Replies
pub mod Passwords
pub mod Invariant
