-- ===== src/Aggregator/Quorums.antt =====
-- What the aggregator does with the answers of the BLS services, and its checkpoint tasks
-- (aggregator/aggregator.go). The calls that leave the process (the database, the broadcaster, the
-- task manager's contract) are listed in order; what they answer is an argument.
pub mod Effects
use near_sffl.Prelude.{
  ℕ, ◌+◌, ◌-◌, ◌%◌, ◌^◌, List, [], ◌∷◌, ◌++◌, map, Bool, true, false, Option, none, some, ◌==◌,
  if◌then◌else◌, replicate, length, Outcome, ok, err, abort, ◌>>=◌,
}
use near_sffl.Dict.{Dict, lookup, insert, delete}
use near_sffl.Errors.{Error}
use near_sffl.Interface.{Bls, MessageType}
use near_sffl.Messages.Aggregation.{MessageBlsAggregation}
use near_sffl.Messages.CheckpointTask as Responses
use near_sffl.Messages.CheckpointTask.{CheckpointTaskResponse}
use near_sffl.Blsagg.Response.{Response}
use near_sffl.Blsagg.Service.{Chain, Service, initialize_message_if_not_exists}
use near_sffl.Aggregator.Requests.{checkpoint_tasks}

module _ (b : Bls) (t : MessageType) where
  pub data Effect : Type 0 where
    stored : t.Message → Effect
    stored_aggregation : MessageBlsAggregation b → Effect
    broadcast : t.Message → MessageBlsAggregation b → Effect

  -- The two stores; `store` and `store_aggregation` are the errors of the database.
  unfoldable pub store_message :
      Option Error → Option Error → t.Message → MessageBlsAggregation b → List Effect
  store_message none none m a = stored m ∷ stored_aggregation a ∷ []
  store_message none (some e) m a = stored m ∷ []
  store_message (some e) store_aggregation m a = []

  -- handleStateRootUpdateReachedQuorum; without a message it is fatal.
  unfoldable pub handle_state_root_update_reached_quorum :
      Option Error → Option Error → Response b t → Outcome Error (List Effect)
  unfolding store_message
  handle_state_root_update_reached_quorum store store_aggregation r = elim r.error [
    | some e ↦ ok []
    | none ↦ elim r.message [
      | none ↦ abort
      | some m ↦ ok (store_message store store_aggregation m r.aggregation)
    ]
  ]

  -- handleOperatorSetUpdateReachedQuorum; the broadcast is deferred to the end.
  unfoldable pub handle_operator_set_update_reached_quorum :
      Option Error → Option Error → Response b t → Outcome Error (List Effect)
  unfolding store_message
  handle_operator_set_update_reached_quorum store store_aggregation r = elim r.error [
    | some e ↦ ok []
    | none ↦ elim r.message [
      | none ↦ abort
      | some m ↦
          let effects = store_message store store_aggregation m r.aggregation in
          ok (if r.finished then effects ++ broadcast m r.aggregation ∷ [] else effects)
    ]
  ]

-- taskmanager.CheckpointTask, the fields that the aggregator reads.
pub record CheckpointTask : Type 0 where
  pub task_created_block : ℕ  -- uint32
  pub from_timestamp : ℕ
  pub to_timestamp : ℕ
  pub quorum_numbers : List ℕ

-- agg.tasks
abbrev pub Tasks : Type 0
Tasks = Dict CheckpointTask

-- The timestamps of the next task, in uint64: the time of the block, the last checkpoint's, and
-- the interval in seconds.
unfoldable pub next_timestamps : ℕ → ℕ → ℕ → ℕ × ℕ
next_timestamps block_time last interval =
    let to = (block_time + 2 ^ 65 - 60 - 30) % 2 ^ 64 in
    (if last == 0 then (to + 2 ^ 64 - interval) % 2 ^ 64 else (last + 1) % 2 ^ 64, to)

-- What the chain answers to `sendNewCheckpointTask`; the contract gives the task its index.
pub record TaskChain (b : Bls) : Type 0 where
  pub block_number : Outcome Error ℕ
  pub block_time : ℕ → Outcome Error ℕ
  pub last_checkpoint_to_timestamp : Outcome Error ℕ
  pub send_new_checkpoint_task : ℕ → ℕ → Outcome Error (CheckpointTask × ℕ)
  pub chain : Chain b

module _ (b : Bls) (digest : CheckpointTaskResponse → Outcome Error ℕ) where
  -- The end of `sendNewCheckpointTask`: the task is noted and its message initialized.
  unfoldable pub note_task :
      TaskChain b
      → Outcome Error (CheckpointTask × ℕ)
      → Tasks
      → Service b (checkpoint_tasks digest)
      → Tasks × Service b (checkpoint_tasks digest)
  note_task c (err e) tasks s = (tasks, s)
  note_task c abort tasks s = (tasks, s)
  note_task c (ok (task, index)) tasks s =
      let response : CheckpointTaskResponse = record {
        reference_task_index = index;
        state_root_updates_root = 0;
        operator_set_updates_root = 0;
      } in
      (
        insert index task tasks,
        (initialize_message_if_not_exists b (checkpoint_tasks digest) c.chain
            (Responses.key response) task.quorum_numbers (replicate (length task.quorum_numbers) 66)
            task.task_created_block s).0,
      )

  unfoldable pub send_new_checkpoint_task :
      TaskChain b
      → ℕ
      → Tasks
      → Service b (checkpoint_tasks digest)
      → Tasks × Service b (checkpoint_tasks digest)
  unfolding next_timestamps note_task
  send_new_checkpoint_task c interval tasks s =
      note_task c
        (do
          n ← c.block_number
          time ← c.block_time n
          last ← c.last_checkpoint_to_timestamp
          c.send_new_checkpoint_task (next_timestamps time last interval).0
              (next_timestamps time last interval).1)
        tasks s

  -- The call of the contract in `sendAggregatedResponseToContract`, if it comes to one. An index
  -- that is not noted reads as the zero task. `current_block` answers `BlockNumber`.
  unfoldable pub contract_call :
      CheckpointTask
      → Outcome Error ℕ
      → Tasks
      → Option Error
      → Option CheckpointTaskResponse
      → MessageBlsAggregation b
      → Outcome Error (Option (CheckpointTask × CheckpointTaskResponse × MessageBlsAggregation b))
  contract_call zero_task current_block tasks (some e) m a = ok none
  contract_call zero_task current_block tasks none none a = abort
  contract_call zero_task (err e) tasks none (some m) a = ok none
  contract_call zero_task abort tasks none (some m) a = abort
  contract_call zero_task (ok n) tasks none (some m) a =
      ok (some (elim (lookup m.reference_task_index tasks) [ none ↦ zero_task | some k ↦ k ], m, a))

  -- The tasks that are left, and the call. The index of a key, a number here, is that of its last
  -- four bytes.
  unfoldable pub send_aggregated_response_to_contract :
      CheckpointTask
      → Outcome Error ℕ
      → Response b (checkpoint_tasks digest)
      → Tasks
      → Outcome Error
          (Tasks × Option (CheckpointTask × CheckpointTaskResponse × MessageBlsAggregation b))
  unfolding contract_call
  send_aggregated_response_to_contract zero_task current_block r tasks = do
    call ← contract_call zero_task current_block tasks r.error r.message r.aggregation
    ok (delete (r.message_key % 2 ^ 32) tasks, call)
