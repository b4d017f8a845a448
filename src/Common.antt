-- ===== src/Common.antt =====
-- src/common: text helpers, the two codecs, random bytes, the configuration, the logger, and the
-- thread pool.
pub mod Tables
pub mod Util
pub mod Hex
pub mod Base64
pub mod Numbers
pub mod Config
pub mod Decimal
pub mod ThreadPool
pub mod Logger
pub mod Random
