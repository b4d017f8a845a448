-- ===== src/Net.antt =====
-- src/net: the sockets, the connections, the server that owns them, and the reactor that drives
-- them.
pub mod Connection
pub mod Server
pub mod Reactor
pub mod Epoll
pub mod Select
pub mod Socket
pub mod Wake
