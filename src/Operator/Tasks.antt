-- ===== src/Operator/Tasks.antt =====
-- operator/operator.go, and what operator/avs_manager.go makes of the chain's events: the operator
-- signs what the attestor, the task manager and the registry bring, and sends it to the aggregator.
pub mod Justified
use near_sffl.Prelude.{
  ℕ, List, [], ◌∷◌, ◌++◌, Option, none, some, Outcome, ok, err, abort, ◌>>=◌, map,
}
use near_sffl.Errors.{Error}
use near_sffl.Interface.{Bls}
use near_sffl.Smt.{Trie}
use near_sffl.Messages.StateRootUpdate.{SignedStateRootUpdateMessage}
use near_sffl.Messages.OperatorSetUpdate.{
  RollupOperator, OperatorSetUpdateMessage, SignedOperatorSetUpdateMessage,
}
use near_sffl.Messages.CheckpointTask.{CheckpointTaskResponse, SignedCheckpointTaskResponse}
use near_sffl.Messages.CheckpointMessages.{
  CheckpointMessages, Digests, new_checkpoint_task_response_from_messages,
}

-- The operator's key pair and id, with the digests of what it signs.
pub record Keys (b : Bls) : Type 0 where
  pub digests : Digests b
  pub task_response_digest : CheckpointTaskResponse → Outcome Error ℕ
  pub sign_message : ℕ → b.Signature
  pub operator_id : ℕ

-- A task that the task manager announces.
pub record TaskCreated : Type 0 where
  pub task_index : ℕ
  pub from_timestamp : ℕ
  pub to_timestamp : ℕ

-- What happens to the operator: the cases of the `select` of Start.
pub data Event (b : Bls) : Type 0 where
  signed_root : SignedStateRootUpdateMessage b → Event b
  -- with what the aggregator answers then for a range of time
  checkpoint_task_created : TaskCreated → (ℕ → ℕ → Outcome Error (CheckpointMessages b)) → Event b
  operator_set_update : OperatorSetUpdateMessage b → Event b
  metrics_error context_done channel_closed : Event b

-- What goes to the aggregator.
pub data Sent (b : Bls) : Type 0 where
  state_root_update : SignedStateRootUpdateMessage b → Sent b
  task_response : SignedCheckpointTaskResponse b → Sent b
  operator_set : SignedOperatorSetUpdateMessage b → Sent b

-- How the loop of Start ends: by its close, by a fatal error, or not yet.
pub data Ending : Type 0 where
  running closed fatal : Ending

module _ (b : Bls) where
  -- handleOperatorSetUpdate of the AvsManager, with the points and the weights of the delta that
  -- the chain gives for the update.
  unfoldable pub operator_set_update_message :
      Outcome Error (List (b.G1 × ℕ)) → ℕ → ℕ → Outcome Error (OperatorSetUpdateMessage b)
  operator_set_update_message operator_set_delta id timestamp = do
    delta ← operator_set_delta
    ok (record {
      id = id;
      timestamp = timestamp;
      operators = map (λ o. record { pubkey = some o.0; weight = some o.1 }) delta;
    })

  module _ (keys : Keys b) where
    unfoldable pub sign_task_response :
        CheckpointTaskResponse → Outcome Error (SignedCheckpointTaskResponse b)
    sign_task_response response = do
      hash ← keys.task_response_digest response
      ok (record {
        task_response = response;
        bls_signature = some (keys.sign_message hash);
        operator_id = keys.operator_id;
      })

    unfoldable pub sign_operator_set_update :
        OperatorSetUpdateMessage b → Outcome Error (SignedOperatorSetUpdateMessage b)
    sign_operator_set_update msg = do
      hash ← keys.digests.operator_set_update msg
      ok (record {
        message = msg;
        bls_signature = some (keys.sign_message hash);
        operator_id = keys.operator_id;
      })

    module _ (trie : Trie) where
      -- ProcessCheckpointTask, with the answers of GetAggregatedCheckpointMessages.
      unfoldable pub process_checkpoint_task :
          TaskCreated
          → (ℕ → ℕ → Outcome Error (CheckpointMessages b))
          → Outcome Error (SignedCheckpointTaskResponse b)
      unfolding sign_task_response
      process_checkpoint_task event get_messages = do
        checkpoint_messages ← get_messages event.from_timestamp event.to_timestamp
        response ←
            new_checkpoint_task_response_from_messages b trie keys.digests event.task_index
              checkpoint_messages
        sign_task_response response

      -- What is sent, in the goroutine of its own, if there was no error.
      abbrev pub sent_if_ok {ℓ} : {A : Type ℓ} → (A → Sent b) → Outcome Error A → List (Sent b)
      sent_if_ok send (ok a) = send a ∷ []
      sent_if_ok send (err e) = []
      sent_if_ok send abort = []

      unfoldable pub handle : Event b → List (Sent b) × Ending
      unfolding process_checkpoint_task sign_operator_set_update
      handle (signed_root s) = (state_root_update s ∷ [], running)
      handle (checkpoint_task_created event get_messages) =
          (sent_if_ok task_response (process_checkpoint_task event get_messages), running)
      handle (operator_set_update msg) =
          (sent_if_ok operator_set (sign_operator_set_update msg), running)
      handle metrics_error = ([], fatal)
      handle context_done = ([], closed)
      handle channel_closed = ([], closed)

      -- The loop of Start, which goes on while it runs.
      unfoldable pub start_loop : List (Event b) → List (Sent b) × Ending
      unfolding handle
      start_loop [] = ([], running)
      start_loop (event ∷ events) =
          let (sent, ending) = handle event in
          elim ending [
            | running ↦ let (more, end) = start_loop events in (sent ++ more, end)
            | closed ↦ (sent, closed)
            | fatal ↦ (sent, fatal)
          ]
