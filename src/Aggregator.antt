-- ===== src/Aggregator.antt =====
-- The aggregator: aggregator/aggregator.go and the parts that it is made of.
pub mod Requests
pub mod Quorums
pub mod Loop
pub mod Operators
pub mod Rollups
pub mod Database
pub mod RpcServer
pub mod RestServer
