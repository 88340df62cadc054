-- ===== src/Blsagg.antt =====
-- aggregator/blsagg/message_blsagg.go: the BLS aggregation service.
pub mod Stake
pub mod Digest
pub mod Response
pub mod Collector
pub mod Service
