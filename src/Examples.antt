-- ===== src/Examples.antt =====
-- The theorems at concrete inputs.
pub mod Setting
pub mod Tables
pub mod MessageRuns
pub mod DigestRuns
pub mod ServiceRuns
pub mod OperatorRuns
pub mod ClientRuns
pub mod AggregatorRuns
pub mod AttestorRuns
pub mod DatabaseRuns
pub mod RelayerRuns
pub mod CheckpointRuns
pub mod ConnectionRuns
pub mod LoopRuns
