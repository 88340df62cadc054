-- ===== src/Operator.antt =====
-- operator: the node that signs and sends messages to the aggregator.
pub mod RpcClient
pub mod Notifier
pub mod Attestor
pub mod Consumer
pub mod Connection
pub mod Tasks
