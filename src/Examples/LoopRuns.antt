-- ===== src/Examples/LoopRuns.antt =====
-- The theorem about the aggregator's loop (aggregator/aggregator.go) at a small input.
use near_sffl.Prelude.{
  ℕ, refl, inl, List, [], ◌∷◌, map, none, All, All-map, All-Among, Among, Outcome, ok,
}
use near_sffl.Errors.{Error}
use near_sffl.Messages.CheckpointTask.{CheckpointTaskResponse}
use near_sffl.Blsagg.Response.{Response}
use near_sffl.Blsagg.Collector.{signed}
use near_sffl.Aggregator.Quorums.{CheckpointTask}
use near_sffl.Aggregator.Loop.{Event, operator_set_answered, Loop, start}
use near_sffl.Aggregator.Loop.Backed.{Goroutine, finish}
use near_sffl.Aggregator.Loop.Quorum.{Comes, HasQuorum, effects-HasQuorum}
use near_sffl.Examples.Setting.{bls, numbers, by_one, by_two, get_indices, collector}

abbrev no_digest : CheckpointTaskResponse → Outcome Error ℕ
no_digest r = ok r.reference_task_index

-- Both operators sign the message 7.
abbrev goroutine : Goroutine bls numbers
goroutine = record {
  initial = collector;
  events = signed by_one get_indices ∷ signed by_two get_indices ∷ [];
}

abbrev answers : List (Response bls numbers)
answers = (finish bls numbers goroutine).responses

abbrev answered : Response bls numbers → Event bls numbers numbers no_digest
answered r = operator_set_answered r none none

abbrev loop : Loop bls numbers numbers no_digest
loop = record { tasks = []; task_service = []; effects = [] }

abbrev zero_task : CheckpointTask
zero_task = record {
  task_created_block = 0;
  from_timestamp = 0;
  to_timestamp = 0;
  quorum_numbers = [];
}

answers_come :
    All (Comes bls numbers numbers no_digest [] (goroutine ∷ []) []) (map answered answers)
answers_come =
    All-map (λ r. Among r answers) (Comes bls numbers numbers no_digest [] (goroutine ∷ []) [])
      answered (λ r a. (goroutine, inl refl, a)) answers
      (All-Among (λ r. Among r answers) answers (λ r a. a))

effects-HasQuorum_example :
    All
      (HasQuorum bls numbers numbers no_digest [] (goroutine ∷ []) [])
      (start bls numbers numbers no_digest zero_task 3600 (map answered answers) loop).effects
effects-HasQuorum_example =
    effects-HasQuorum bls numbers numbers no_digest [] (goroutine ∷ []) [] zero_task 3600
      (map answered answers) loop (tt, ((refl, refl, (refl, (refl, tt))), tt), tt) answers_come refl
