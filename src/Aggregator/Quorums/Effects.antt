-- ===== src/Aggregator/Quorums/Effects.antt =====
-- What the aggregator does with a quorum, and the times of its checkpoints
-- (aggregator/aggregator.go).
use near_sffl.Prelude.{
  ℕ, ◌+◌, ◌%◌, ◌^◌, ◌≡◌, ◌≤◌, ◌<◌, refl, ap, inl, inr, ◌⊎◌, ◌↔◌, List, [], ◌∷◌, ◌++◌, Bool, true,
  false, Option, none, some, arith, if◌then◌else◌, ◌==◌, Outcome, ok, err, abort, Option-cases,
  Outcome-cases,
}
use near_sffl.Dict.{lookup, delete, lookup-delete}
use near_sffl.Errors.{Error}
use near_sffl.Interface.{Bls, MessageType}
use near_sffl.Messages.Aggregation.{MessageBlsAggregation}
use near_sffl.Messages.CheckpointTask.{CheckpointTaskResponse}
use near_sffl.Messages.Keys.{checkpoint_key}
use near_sffl.Blsagg.Response.{Response}
use near_sffl.Aggregator.Requests.{checkpoint_tasks}
use near_sffl.Aggregator.Quorums.{
  Effect, stored, stored_aggregation, broadcast, store_message,
  handle_operator_set_update_reached_quorum, CheckpointTask, Tasks, next_timestamps,
  send_aggregated_response_to_contract, contract_call,
}
use near_sffl.Messages.CheckpointTask as Responses

module _ (b : Bls) (t : MessageType) where
  -- The broadcasts among the effects.
  abbrev pub broadcasts : List (Effect b t) → List (t.Message × MessageBlsAggregation b)
  broadcasts [] = []
  broadcasts (stored m ∷ es) = broadcasts es
  broadcasts (stored_aggregation a ∷ es) = broadcasts es
  broadcasts (broadcast m a ∷ es) = (m, a) ∷ broadcasts es

  store_message_lem :
      (store store_aggregation : Option Error) (m : t.Message) (a : MessageBlsAggregation b)
      (finished : Bool)
      → let effects = store_message b t store store_aggregation m a in
        broadcasts (if finished then effects ++ broadcast m a ∷ [] else effects)
        ≡ (if finished then (m, a) ∷ [] else [])
  unfolding store_message
  store_message_lem none none m a true = refl
  store_message_lem none none m a false = refl
  store_message_lem none (some e) m a true = refl
  store_message_lem none (some e) m a false = refl
  store_message_lem (some e) store_aggregation m a true = refl
  store_message_lem (some e) store_aggregation m a false = refl

  -- Whatever the database answers: an answer with an error has no effect, one without a message is
  -- fatal, and the message of any other is broadcast to the rollups, once, exactly when the answer
  -- is the finished one.
  pub operator_set_update_broadcasts :
      (store store_aggregation : Option Error) (r : Response b t)
      → let result = handle_operator_set_update_reached_quorum b t store store_aggregation r in
        (((e : Error) × (r.error ≡ some e)) × (result ≡ ok []))
        ⊎ ((r.error ≡ none) × (r.message ≡ none) × (result ≡ abort))
        ⊎ ((m : t.Message) × (effects : List (Effect b t)) × (r.error ≡ none)
            × (r.message ≡ some m)
            × (result ≡ ok effects)
            × (broadcasts effects ≡ (if r.finished then (m, r.aggregation) ∷ [] else [])))
  unfolding handle_operator_set_update_reached_quorum
  operator_set_update_broadcasts store store_aggregation r = elim (Option-cases r.error) [
    | inr (e, h) ↦ inl ((e, h), rw (h, handle_operator_set_update_reached_quorum) refl)
    | inl h ↦ elim (Option-cases r.message) [
      | inl g ↦ inr (inl (h, g, rw (h, g, handle_operator_set_update_reached_quorum) refl))
      | inr (m, g) ↦ inr (
          inr (
            m,
            (let effects = store_message b t store store_aggregation m r.aggregation in
                if r.finished then effects ++ broadcast m r.aggregation ∷ [] else effects),
            h,
            g,
            rw (h, g, handle_operator_set_update_reached_quorum) refl,
            store_message_lem store store_aggregation m r.aggregation r.finished,
          ))
    ]
  ]

-- Past the first checkpoint, and with times that fit uint64 and a block past its first 90 seconds,
-- a task starts right after the last checkpoint and ends 90 seconds before the block; it is a range
-- of time exactly when the last checkpoint lies more than 90 seconds before the block.
pub next_timestamps_lem :
    (block_time last interval : ℕ)
    → 90 ≤ block_time
    → block_time < 2 ^ 64
    → 1 ≤ last
    → last + 1 < 2 ^ 64
    → let (from, to) = next_timestamps block_time last interval in
      (from ≡ last + 1) × (to + 90 ≡ block_time) × ((from ≤ to) ↔ (last + 90 < block_time))
unfolding next_timestamps
next_timestamps_lem block_time last interval h g p q = (ground arith, ground arith, ground arith)

module _ (b : Bls) (digest : CheckpointTaskResponse → Outcome Error ℕ) where
  abbrev Call : Type 0
  Call = Tasks × Option (CheckpointTask × CheckpointTaskResponse × MessageBlsAggregation b)

  abbrev first : Call → Outcome Error Call → Tasks
  first d (ok c) = c.0
  first d (err e) = d.0
  first d abort = d.0

  tasks_left :
      (zero_task : CheckpointTask) (current_block : Outcome Error ℕ)
      (r : Response b (checkpoint_tasks digest)) (tasks left : Tasks)
      (call : Option (CheckpointTask × CheckpointTaskResponse × MessageBlsAggregation b))
      → send_aggregated_response_to_contract b digest zero_task current_block r tasks
        ≡ ok (left, call)
      → delete (r.message_key % 2 ^ 32) tasks ≡ left
  unfolding send_aggregated_response_to_contract
  tasks_left zero_task current_block r tasks left call h =
      elim (Outcome-cases
        (contract_call b digest zero_task current_block tasks r.error r.message r.aggregation)) [
          | inl (c, e) ↦
              ap (first (left, call)) {x = ok (delete (r.message_key % 2 ^ 32) tasks, c)}
                {y = ok (left, call)} (rw e at h)
          | inr (inl (x, e)) ↦ absurd (ground arith)
          | inr (inr e) ↦ absurd (ground arith)
        ]

  -- However the answer for a task's key turns out, with an error, a failed call or a submission,
  -- its task is forgotten, and all others are kept.
  pub send_aggregated_response_to_contract_lem :
      (zero_task : CheckpointTask) (current_block : Outcome Error ℕ)
      (r : Response b (checkpoint_tasks digest)) (response : CheckpointTaskResponse)
      (tasks left : Tasks)
      (call : Option (CheckpointTask × CheckpointTaskResponse × MessageBlsAggregation b)) (j : ℕ)
      → response.reference_task_index < 2 ^ 32
      → r.message_key ≡ Responses.key response
      → send_aggregated_response_to_contract b digest zero_task current_block r tasks
        ≡ ok (left, call)
      → lookup j left ≡ (if response.reference_task_index == j then none else lookup j tasks)
  send_aggregated_response_to_contract_lem zero_task current_block r response tasks left call j
        bound k h =
      let e = tasks_left zero_task current_block r tasks left call h in
      let i : r.message_key % 2 ^ 32 ≡ response.reference_task_index =
        omega (arith, k, checkpoint_key response bound) in
      rw (← e, i) (lookup-delete response.reference_task_index j tasks)
