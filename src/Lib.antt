-- ===== src/Lib.antt =====
-- Near SFFL: the Go programs that bring the state roots of rollups to finality with operators' BLS
-- signatures.
--
-- The parts, and the files that model them. A relayer (relayer/relayer.go, Relayer) puts the blocks
-- of a rollup on NEAR in batches, and RabbitMQ brings them to the operators, where the consumer
-- takes them apart and keeps the connection (operator/consumer, Operator/Consumer,
-- Operator/Connection). The operator's attestor waits for a header's block, by subscriptions at its
-- notifier, and signs a state root update (operator/attestor, Operator/Attestor and
-- Operator/Notifier). The operator also signs operator set updates and checkpoint task responses
-- (operator/operator.go, operator/avs_manager.go, Operator/Tasks), whose roots come from sparse
-- Merkle trees (core/smt/smt.go, Smt; core/types/messages/checkpoint_task.go,
-- Messages/CheckpointMessages), and sends all of them by RPC to the aggregator
-- (operator/rpc_client.go, Operator/RpcClient; aggregator/rpc_server/server.go,
-- Aggregator/RpcServer): while the aggregator is away, messages wait in a queue that is sent again.
-- The aggregator (aggregator/aggregator.go, Aggregator/Requests) checks the age and the signature
-- of a message against the registered operators (aggregator/operator_registrations_inmemory.go,
-- Aggregator/Operators), makes sure that the BLS aggregation service for its kind knows it, and
-- hands the signature over. The service (aggregator/blsagg/message_blsagg.go, Blsagg) has a
-- goroutine for each message, which adds up the signers' stakes by digest and answers when a quorum
-- is reached. The aggregator stores these answers (aggregator/database, Aggregator/Database), from
-- which the REST server answers queries (aggregator/rest_server/server.go, Aggregator/RestServer),
-- sends checkpoint tasks and their aggregated responses to the task manager (Aggregator/Quorums,
-- Aggregator/Loop), and broadcasts operator set updates to the rollups
-- (aggregator/rollup_broadcaster.go, aggregator/rollup_writer.go, Aggregator/Rollups). The messages
-- and their keys are those of core/types/messages (Messages). Both sides subscribe to logs by
-- core/safeclient/client.go (SafeClient).
--
-- How the code is modelled. A function of the model has the name of the Go function, in snake case;
-- a part of a long function is a function of its own. State is passed along: `Service` is the map
-- of channels of a BLS service, `Collector` what a goroutine keeps, `Client` the RPC client, `Logs`
-- the goroutine of a log subscription, `Registrations` the maps of the registered operators,
-- `Tasks` the open checkpoint tasks, `Attestor` the notifier with the goroutines of the headers,
-- `Consumer` its connection and phase, `Relayer` both goroutines of the relayer with their ticker.
-- A goroutine's `select` is a step on an event (`Event`, `Arrival`), and orders of events are
-- lists; the relayer's two goroutines are a relation (`Step`) whose paths are their interleavings.
-- A lock makes what it protects one step; where a call waits with the lock held, as `Notify` does
-- at a full channel, the attestor is `locked` from then on: its other goroutines' calls of the
-- notifier wait, and the end of that wait is not followed. A call ends in an `Outcome`: a value, an
-- error, or the end of the process by a panic or `logger.Fatal`. Maps are association lists (Dict),
-- whose order is one in which `range` may visit them. Pointers that may be nil are options. Numbers
-- are natural numbers; uint32 and uint64 wrap around where the code computes with them, and big
-- integers do not; the one place with numbers below zero, the casts to int64 in SafeClient, has a
-- type ℤ of its own. A `[32]byte` is a number, but for the keys of messages and the masks of
-- proofs, which are bytes (Messages/Bytes).
--
-- Aliasing. The map of the total stake of a digest's signers is the map of the first signer's own
-- stakes. The model keeps the map in one place and refers to it by the operator's id
-- (Blsagg/Digest). A response holds pointers to its digest's aggregated key and signature, to which
-- later signatures add in place; the model's response has their values at the time when it was
-- made, and does not follow what becomes of them.
--
-- Fuel. The loop over chunks of blocks in SafeClient runs on fuel, where one unit more than there
-- are blocks is enough; the relayer's submission runs at most SUBMIT_BLOCK_RETRIES rounds, as in
-- the code. All else is structural recursion.
--
-- What comes from elsewhere is a parameter: the BLS library (`Bls`), headers and blocks of
-- go-ethereum (`Eth`), digests and keys of messages for the aggregation service (`MessageType`),
-- the digests and the key pair of an operator (`Signer`, `Keys`, `Digests`), the answers of the
-- chain and of remote calls, the tables of gorm (`Gorm`, with the laws that its documentation
-- gives: `First` goes by the primary key, `Find` has no order), the tree of pokt-network/smt
-- (`Trie`), the decoders of Borsh and RLP (`Codec`), RabbitMQ (`Broker`), strconv (`Strconv`), the
-- NEAR client (`Near`), the hash of a log, the id of a public key, and the LRU cache (`LogCache`,
-- with the laws that its documentation gives). Examples/Setting and Examples/Tables have instances.
--
-- What is not modelled: metrics, logging and the lengths of timers; the construction of the
-- services and the registration of an operator, which are wiring and chain calls; the listening of
-- the RPC and REST servers; the goroutines of the broadcaster; `Close` of SafeClient; conversions
-- to generated bindings, the bindings themselves, the contracts (Solidity) and the indexer (Rust).
pub mod Prelude
pub mod Dict
pub mod Errors
pub mod Interface
pub mod Smt
pub mod Messages
pub mod Blsagg
pub mod Aggregator
pub mod Operator
pub mod SafeClient
pub mod Relayer
pub mod Examples
