-- ===== src/Aggregator/RpcServer.antt =====
-- aggregator/rpc_server/server.go: the remote calls, in front of Aggregator/Requests. A request is a
-- pointer; metrics are left out.
pub mod Validity
use near_sffl.Prelude.{ℕ, ◌*◌, ◌-◌, Option, none, some, ltb, if◌then◌else◌, Outcome, ok, err, abort}
use near_sffl.Errors.{
  Error, digest_error, task_response_digest_error, get_operator_set_update_block_error,
  invalid_signature, operator_not_found, message_expired, message_digest_not_found_500,
  task_response_digest_not_found_500, operator_set_update_block_not_found_500,
  invalid_signature_400, operator_not_found_400, message_expired_500, args_nil,
  from_greater_than_to, range_exceeds_2_hours,
}
use near_sffl.Interface.{Bls}
use near_sffl.Messages.StateRootUpdate as StateRootUpdate
use near_sffl.Messages.OperatorSetUpdate as OperatorSetUpdate
use near_sffl.Messages.CheckpointTask as CheckpointTask
use near_sffl.Messages.StateRootUpdate.{StateRootUpdateMessage, SignedStateRootUpdateMessage}
use near_sffl.Messages.OperatorSetUpdate.{OperatorSetUpdateMessage, SignedOperatorSetUpdateMessage}
use near_sffl.Messages.CheckpointTask.{CheckpointTaskResponse, SignedCheckpointTaskResponse}
use near_sffl.Blsagg.Service.{Service, Delivery, delivered, blocked, process_ended}
use near_sffl.Aggregator.Requests.{
  World, state_root_updates, operator_set_updates, checkpoint_tasks,
  process_signed_checkpoint_task_response, process_signed_state_root_update_message,
  process_signed_operator_set_update_message,
}

-- errorsMap, and the errors that it does not hold.
unfoldable pub map_errors : Error → Error
map_errors digest_error = message_digest_not_found_500
map_errors task_response_digest_error = task_response_digest_not_found_500
map_errors get_operator_set_update_block_error = operator_set_update_block_not_found_500
map_errors invalid_signature = invalid_signature_400
map_errors operator_not_found = operator_not_found_400
map_errors message_expired = message_expired_500
map_errors e = e

-- The answer to the caller, from what the aggregator gave.
unfoldable pub mapped : Delivery → Delivery
unfolding map_errors
mapped (delivered none) = delivered none
mapped (delivered (some e)) = delivered (some (map_errors e))
mapped blocked = blocked
mapped process_ended = process_ended

module _ (b : Bls) where
  -- The aggregator is asked only for a valid request; `is_valid` gives the request's error.
  unfoldable pub serve {ℓ κ} :
      {Signed : Type ℓ} {State : Type κ}
      → (Option Signed → Option Error)
      → (Signed → State → State × Delivery)
      → Option Signed
      → State
      → State × Delivery
  serve is_valid process request s = elim (is_valid request) [
    | some e ↦ (s, delivered (some e))
    | none ↦ elim request [ none ↦ (s, process_ended) | some r ↦ process r s ]
  ]

  unfoldable pub rpc_process_signed_checkpoint_task_response :
      (digest : CheckpointTaskResponse → Outcome Error ℕ)
      → World b
      → Option (SignedCheckpointTaskResponse b)
      → Service b (checkpoint_tasks digest)
      → Service b (checkpoint_tasks digest) × Delivery
  unfolding serve
  rpc_process_signed_checkpoint_task_response digest w request s =
      serve (CheckpointTask.is_valid b)
        (λ r s. process_signed_checkpoint_task_response b digest w r s) request s

  unfoldable pub rpc_process_signed_state_root_update_message :
      (digest : StateRootUpdateMessage → Outcome Error ℕ)
      → World b
      → Option (SignedStateRootUpdateMessage b)
      → Service b (state_root_updates digest)
      → Service b (state_root_updates digest) × Delivery
  unfolding serve mapped
  rpc_process_signed_state_root_update_message digest w request s =
      serve (StateRootUpdate.is_valid b)
        (λ r s.
          let (s', d) = process_signed_state_root_update_message b digest w r s in (s', mapped d))
        request s

  unfoldable pub rpc_process_signed_operator_set_update_message :
      (digest : OperatorSetUpdateMessage b → Outcome Error ℕ)
      → World b
      → Option (SignedOperatorSetUpdateMessage b)
      → Service b (operator_set_updates b digest)
      → Service b (operator_set_updates b digest) × Delivery
  unfolding serve mapped
  rpc_process_signed_operator_set_update_message digest w request s =
      serve (OperatorSetUpdate.is_valid b)
        (λ r s.
          let (s', d) = process_signed_operator_set_update_message b digest w r s in (s', mapped d))
        request s

-- GetAggregatedCheckpointMessagesArgs
pub record CheckpointArgs : Type 0 where
  pub from_timestamp : ℕ
  pub to_timestamp : ℕ

-- MaxCheckpointRange
abbrev pub max_checkpoint_range : ℕ
max_checkpoint_range = 7200

unfoldable pub args_is_valid : Option CheckpointArgs → Option Error
args_is_valid none = some args_nil
args_is_valid (some args) =
    if ltb args.to_timestamp args.from_timestamp
    then some from_greater_than_to
    else (if ltb max_checkpoint_range (args.to_timestamp - args.from_timestamp)
        then some range_exceeds_2_hours
        else none)
