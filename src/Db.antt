-- ===== src/Db.antt =====
-- src/db: the repositories over the in-memory store and over MySQL, and the pool of connections.
pub mod Table
pub mod Store
pub mod Mysql
pub mod Pool
