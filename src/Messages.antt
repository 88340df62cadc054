-- ===== src/Messages.antt =====
-- core/types/messages: the messages that operators sign, and the aggregation of their signatures.
pub mod Bytes
pub mod Aggregation
pub mod StateRootUpdate
pub mod OperatorSetUpdate
pub mod CheckpointTask
pub mod Keys
pub mod CheckpointMessages
