-- ===== src/Aggregator/Loop.antt =====
-- Start of aggregator/aggregator.go: the loop that takes the answers of the three BLS services and
-- the ticks. A handler, whether in a goroutine of its own or not, is one step; what it meets comes
-- with the event.
pub mod Backed
pub mod Quorum
use near_sffl.Prelude.{
  ℕ, List, [], ◌∷◌, ◌++◌, map, Bool, true, false, Option, none, some, if◌then◌else◌, Outcome, ok,
  err, abort,
}
use near_sffl.Errors.{Error}
use near_sffl.Interface.{Bls, MessageType}
use near_sffl.Messages.Aggregation.{MessageBlsAggregation}
use near_sffl.Messages.CheckpointTask.{CheckpointTaskResponse}
use near_sffl.Blsagg.Response.{Response}
use near_sffl.Blsagg.Service.{Service}
use near_sffl.Aggregator.Requests.{checkpoint_tasks}
use near_sffl.Aggregator.Quorums.{
  CheckpointTask, Tasks, TaskChain, send_new_checkpoint_task, send_aggregated_response_to_contract,
  handle_state_root_update_reached_quorum, handle_operator_set_update_reached_quorum,
}
use near_sffl.Aggregator.Quorums as Quorums

module _ (b : Bls) (state_roots operator_sets : MessageType)
    (digest : CheckpointTaskResponse → Outcome Error ℕ) where
  -- The cases of the `select`: an answer for a task, with that of `BlockNumber`; answers for the
  -- two kinds of messages, with the errors of the two stores; a tick, with the answers of the chain.
  pub data Event : Type 0 where
    task_answered : Response b (checkpoint_tasks digest) → Outcome Error ℕ → Event
    state_root_answered : Response b state_roots → Option Error → Option Error → Event
    operator_set_answered : Response b operator_sets → Option Error → Option Error → Event
    tick : TaskChain b → Event
    broadcaster_error : Error → Event
    context_done : Event

  -- What leaves the process.
  pub data Effect : Type 0 where
    about_state_root : Quorums.Effect b state_roots → Effect
    about_operator_set : Quorums.Effect b operator_sets → Effect
    submitted : CheckpointTask → CheckpointTaskResponse → MessageBlsAggregation b → Effect

  -- The aggregator's tasks and their service, as far as this loop changes them.
  pub record Loop : Type 0 where
    pub tasks : Tasks
    pub task_service : Service b (checkpoint_tasks digest)
    pub effects : List Effect

  -- What a handler's effects come to, and whether it was fatal.
  abbrev pub add_effects : {E : Type 0} → (E → Effect) → Outcome Error (List E) → Loop → Loop × Bool
  add_effects about (ok es) l = (record l { effects = l.effects ++ map about es }, false)
  add_effects about (err e) l = (l, false)
  add_effects about abort l = (l, true)

  abbrev pub submit_effect :
      Outcome Error
        (Tasks × Option (CheckpointTask × CheckpointTaskResponse × MessageBlsAggregation b))
      → Loop
      → Loop × Bool
  submit_effect (ok (tasks, none)) l = (record l { tasks = tasks }, false)
  submit_effect (ok (tasks, some (task, m, a))) l =
      (record l { tasks = tasks; effects = l.effects ++ submitted task m a ∷ [] }, false)
  submit_effect (err e) l = (l, false)
  submit_effect abort l = (l, true)

  module _ (zero_task : CheckpointTask) (checkpoint_interval : ℕ) where
    unfoldable pub handle : Event → Loop → Loop × Bool
    unfolding send_new_checkpoint_task send_aggregated_response_to_contract
        handle_state_root_update_reached_quorum handle_operator_set_update_reached_quorum
    handle (task_answered r current_block) l =
        if r.finished
        then submit_effect
            (send_aggregated_response_to_contract b digest zero_task current_block r l.tasks) l
        else (l, false)
    handle (state_root_answered r store store_aggregation) l =
        add_effects about_state_root
          (handle_state_root_update_reached_quorum b state_roots store store_aggregation r) l
    handle (operator_set_answered r store store_aggregation) l =
        add_effects about_operator_set
          (handle_operator_set_update_reached_quorum b operator_sets store store_aggregation r) l
    handle (tick c) l =
        let (tasks, service) =
          send_new_checkpoint_task b digest c checkpoint_interval l.tasks l.task_service in
        (record l { tasks = tasks; task_service = service }, false)
    handle (broadcaster_error e) l = (l, false)
    handle context_done l = (l, false)

    -- The loop ends with its context, and with the process.
    unfoldable pub start : List Event → Loop → Loop
    unfolding handle
    start [] l = l
    start (context_done ∷ events) l = l
    start (event ∷ events) l =
        let (next, fatal) = handle event l in
        let rest = start events next in if fatal then next else rest
