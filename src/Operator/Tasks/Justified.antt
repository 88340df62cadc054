-- ===== src/Operator/Tasks/Justified.antt =====
-- What the operator of operator/operator.go sends to the aggregator.
use near_sffl.Prelude.{
  ℕ, ◌≡◌, refl, inl, inr, List, [], ◌∷◌, some, All, All-append, All-Among, Among, Outcome, ok,
  ◌>>=◌, Outcome-cases,
}
use near_sffl.Errors.{Error}
use near_sffl.Interface.{Bls}
use near_sffl.Smt.{Trie}
use near_sffl.Messages.CheckpointTask.{SignedCheckpointTaskResponse}
use near_sffl.Messages.OperatorSetUpdate.{OperatorSetUpdateMessage, SignedOperatorSetUpdateMessage}
use near_sffl.Messages.CheckpointMessages.{
  CheckpointMessages, new_checkpoint_task_response_from_messages,
}
use near_sffl.Operator.Tasks.{
  Keys, TaskCreated, Event, signed_root, checkpoint_task_created, operator_set_update,
  metrics_error, context_done, channel_closed, Sent, state_root_update, task_response, operator_set,
  sign_operator_set_update, process_checkpoint_task, sent_if_ok, handle, start_loop,
}

module _ (b : Bls) (keys : Keys b) (trie : Trie) (Happened : Event b → Type 0) where
  -- A task was announced, and the response is that to the messages of its range of time.
  abbrev pub IsResponse : SignedCheckpointTaskResponse b → Type 0
  IsResponse s =
      (task : TaskCreated) × (get_messages : ℕ → ℕ → Outcome Error (CheckpointMessages b))
      × (messages : CheckpointMessages b) × (digest : ℕ) × Happened
          (checkpoint_task_created task get_messages)
      × (get_messages task.from_timestamp task.to_timestamp ≡ ok messages)
      × (new_checkpoint_task_response_from_messages b trie keys.digests task.task_index messages
          ≡ ok s.task_response)
      × (keys.task_response_digest s.task_response ≡ ok digest)
      × (s.bls_signature ≡ some (keys.sign_message digest))
      × (s.operator_id ≡ keys.operator_id)

  abbrev pub IsSignedUpdate : SignedOperatorSetUpdateMessage b → Type 0
  IsSignedUpdate s =
      (digest : ℕ) × Happened (operator_set_update s.message)
      × (keys.digests.operator_set_update s.message ≡ ok digest)
      × (s.bls_signature ≡ some (keys.sign_message digest))
      × (s.operator_id ≡ keys.operator_id)

  abbrev pub IsJustified : Sent b → Type 0
  IsJustified (state_root_update s) = Happened (signed_root s)
  IsJustified (task_response s) = IsResponse s
  IsJustified (operator_set s) = IsSignedUpdate s

  operator_set-IsJustified :
      (msg : OperatorSetUpdateMessage b)
      → Happened (operator_set_update msg)
      → All IsJustified (sent_if_ok b keys trie operator_set (sign_operator_set_update b keys msg))
  unfolding sign_operator_set_update
  operator_set-IsJustified msg h = elim (Outcome-cases (keys.digests.operator_set_update msg)) [
    | inl (digest, p) ↦ rw (p, ◌>>=◌) ((digest, h, p, refl, refl), tt)
    | inr (inl (x, p)) ↦ rw (p, ◌>>=◌) tt
    | inr (inr p) ↦ rw (p, ◌>>=◌) tt
  ]

  task_response-IsJustified :
      (task : TaskCreated) (get_messages : ℕ → ℕ → Outcome Error (CheckpointMessages b))
      → Happened (checkpoint_task_created task get_messages)
      → All IsJustified (
          sent_if_ok b keys trie task_response
            (process_checkpoint_task b keys trie task get_messages))
  unfolding process_checkpoint_task
  task_response-IsJustified task get_messages h =
      elim (Outcome-cases (get_messages task.from_timestamp task.to_timestamp)) [
        | inr (inl (x, p)) ↦ rw (p, ◌>>=◌) tt
        | inr (inr p) ↦ rw (p, ◌>>=◌) tt
        | inl (messages, p) ↦
            elim (Outcome-cases (
              new_checkpoint_task_response_from_messages b trie keys.digests task.task_index
                messages)) [
                  | inr (inl (x, q)) ↦ rw (p, q, ◌>>=◌) tt
                  | inr (inr q) ↦ rw (p, q, ◌>>=◌) tt
                  | inl (response, q) ↦ elim (Outcome-cases (keys.task_response_digest response)) [
                    | inr (inl (x, r)) ↦ rw (p, q, r, ◌>>=◌) tt
                    | inr (inr r) ↦ rw (p, q, r, ◌>>=◌) tt
                    | inl (digest, r) ↦
                        rw (p, q, r, ◌>>=◌)
                          ((task, get_messages, messages, digest, h, p, q, r, refl, refl), tt)
                  ]
                ]
      ]

  handle-IsJustified :
      (event : Event b) → Happened event → All IsJustified (handle b keys trie event).0
  unfolding handle
  handle-IsJustified (signed_root s) h = (h, tt)
  handle-IsJustified (checkpoint_task_created task get_messages) h =
      task_response-IsJustified task get_messages h
  handle-IsJustified (operator_set_update msg) h = operator_set-IsJustified msg h
  handle-IsJustified metrics_error h = tt
  handle-IsJustified context_done h = tt
  handle-IsJustified channel_closed h = tt

  start_loop-IsJustified :
      (events : List (Event b))
      → All Happened events
      → All IsJustified (start_loop b keys trie events).0
  unfolding start_loop handle
  start_loop-IsJustified [] h = tt
  start_loop-IsJustified (signed_root s ∷ events) (h, hs) = (h, start_loop-IsJustified events hs)
  start_loop-IsJustified (checkpoint_task_created task get_messages ∷ events) (h, hs) =
      All-append IsJustified
        (sent_if_ok b keys trie task_response
          (process_checkpoint_task b keys trie task get_messages))
        (start_loop b keys trie events).0 (task_response-IsJustified task get_messages h)
        (start_loop-IsJustified events hs)
  start_loop-IsJustified (operator_set_update msg ∷ events) (h, hs) =
      All-append IsJustified
        (sent_if_ok b keys trie operator_set (sign_operator_set_update b keys msg))
        (start_loop b keys trie events).0 (operator_set-IsJustified msg h)
        (start_loop-IsJustified events hs)
  start_loop-IsJustified (metrics_error ∷ events) h = tt
  start_loop-IsJustified (context_done ∷ events) h = tt
  start_loop-IsJustified (channel_closed ∷ events) h = tt

-- Whatever happens to the operator: what it sends to the aggregator is a state root message that
-- its attestor signed; or a task response, signed over its digest, for a task that was announced,
-- with the roots of the messages that the aggregator gave then for the task's range of time; or an
-- operator set update that came from the registry, signed over its digest.
pub sent-IsJustified :
    (b : Bls) (keys : Keys b) (trie : Trie) (events : List (Event b))
    → All (IsJustified b keys trie (λ event. Among event events)) (start_loop b keys trie events).0
sent-IsJustified b keys trie events =
    start_loop-IsJustified b keys trie (λ event. Among event events) events
      (All-Among (λ event. Among event events) events (λ event a. a))
