-- ===== src/Examples.antt =====
-- Tests of the definitions, and the theorems at concrete inputs.
pub mod Wire
pub mod Data
pub mod Traffic
pub mod Requests
pub mod Crypto
pub mod Statements
pub mod Pools
pub mod Accepting
pub mod Reacting
pub mod Joining
pub mod Members
pub mod Serving
pub mod Terminal
pub mod Machine
