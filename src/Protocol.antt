-- ===== src/Protocol.antt =====
-- The replicated log, the key-value store and the quorum set of a replica, C++ code under
-- src/skyros/common.
pub mod Log
pub mod App
pub mod Quorum
