-- ===== src/Aggregator/Loop/Quorum.antt =====
-- What the loop of aggregator/aggregator.go lets out, together with the goroutines of
-- aggregator/blsagg/message_blsagg.go that answer it.
use mathlib.Core.Path.{subst}
use near_sffl.Prelude.{
  ℕ, ◌≡◌, sym, inl, inr, List, [], ◌∷◌, map, if◌then◌else◌, All, All-append, All-map, Outcome, ok,
  err, abort, Option-cases, Bool-cases, Outcome-cases,
}
use near_sffl.Errors.{Error}
use near_sffl.Interface.{Bls, MessageType}
use near_sffl.Messages.CheckpointTask.{CheckpointTaskResponse}
use near_sffl.Blsagg.Response.{Response}
use near_sffl.Aggregator.Requests.{checkpoint_tasks}
use near_sffl.Aggregator.Quorums.{
  CheckpointTask, Tasks, stored, stored_aggregation, broadcast, store_message, contract_call,
  send_aggregated_response_to_contract, handle_state_root_update_reached_quorum,
  handle_operator_set_update_reached_quorum,
}
use near_sffl.Aggregator.Quorums as Quorums
use near_sffl.Aggregator.Loop.{
  Event, task_answered, state_root_answered, operator_set_answered, tick, broadcaster_error,
  context_done, Effect, about_state_root, about_operator_set, submitted, Loop, add_effects,
  submit_effect, handle, start,
}
use near_sffl.Aggregator.Loop.Backed.{
  Goroutine, IsNew, IsAnswer, IsBacked, IsAnswer-IsBacked, Shows, AllShow, state_roots-AllShow,
  operator_sets-AllShow,
}

module _ (b : Bls) (state_roots operator_sets : MessageType)
    (digest : CheckpointTaskResponse → Outcome Error ℕ)
    (root_goroutines : List (Goroutine b state_roots))
    (set_goroutines : List (Goroutine b operator_sets))
    (task_goroutines : List (Goroutine b (checkpoint_tasks digest))) where
  abbrev pub AllNew : Type 0
  AllNew =
      All (IsNew b state_roots) root_goroutines
      × All (IsNew b operator_sets) set_goroutines
      × All (IsNew b (checkpoint_tasks digest)) task_goroutines

  -- An event's answer is one of its service's goroutines.
  abbrev pub Comes : Event b state_roots operator_sets digest → Type 0
  Comes (task_answered r current_block) = IsAnswer b (checkpoint_tasks digest) task_goroutines r
  Comes (state_root_answered r x y) = IsAnswer b state_roots root_goroutines r
  Comes (operator_set_answered r x y) = IsAnswer b operator_sets set_goroutines r
  Comes (tick c) = Unit {0}
  Comes (broadcaster_error e) = Unit {0}
  Comes context_done = Unit {0}

  -- What an effect shows was answered by a goroutine of its service, with a quorum.
  abbrev pub HasQuorum : Effect b state_roots operator_sets digest → Type 0
  HasQuorum (about_state_root x) = Shows b state_roots root_goroutines x
  HasQuorum (about_operator_set x) = Shows b operator_sets set_goroutines x
  HasQuorum (submitted task m a) = IsBacked b (checkpoint_tasks digest) task_goroutines m a

  abbrev AreBacked : Loop b state_roots operator_sets digest → Type 0
  AreBacked l = All HasQuorum l.effects

  add_roots :
      (o : Outcome Error (List (Quorums.Effect b state_roots)))
      (l : Loop b state_roots operator_sets digest)
      → AllShow b state_roots root_goroutines o
      → AreBacked l
      → AreBacked (add_effects b state_roots operator_sets digest about_state_root o l).0
  add_roots (ok es) l h k =
      All-append HasQuorum l.effects (map about_state_root es) k
        (All-map (Shows b state_roots root_goroutines) HasQuorum about_state_root (λ x p. p) es h)
  add_roots (err e) l h k = k
  add_roots abort l h k = k

  add_sets :
      (o : Outcome Error (List (Quorums.Effect b operator_sets)))
      (l : Loop b state_roots operator_sets digest)
      → AllShow b operator_sets set_goroutines o
      → AreBacked l
      → AreBacked (add_effects b state_roots operator_sets digest about_operator_set o l).0
  add_sets (ok es) l h k =
      All-append HasQuorum l.effects (map about_operator_set es) k (
        All-map (Shows b operator_sets set_goroutines) HasQuorum about_operator_set (λ x p. p) es h)
  add_sets (err e) l h k = k
  add_sets abort l h k = k

  submit_effect-AreBacked :
      (zero_task : CheckpointTask) (current_block : Outcome Error ℕ)
      (r : Response b (checkpoint_tasks digest)) (l : Loop b state_roots operator_sets digest)
      → All (IsNew b (checkpoint_tasks digest)) task_goroutines
      → IsAnswer b (checkpoint_tasks digest) task_goroutines r
      → AreBacked l
      → AreBacked
          (submit_effect b state_roots operator_sets digest
            (send_aggregated_response_to_contract b digest zero_task current_block r l.tasks)
            l).0
  unfolding send_aggregated_response_to_contract contract_call
  submit_effect-AreBacked zero_task current_block r l new answer k = elim (Option-cases r.error) [
    | inr (e, h) ↦ rw (h, send_aggregated_response_to_contract, contract_call) k
    | inl h ↦ elim (Option-cases r.message) [
      | inl g ↦ rw (h, g, send_aggregated_response_to_contract, contract_call) k
      | inr (m, g) ↦
          let backed =
            IsAnswer-IsBacked b (checkpoint_tasks digest) task_goroutines r m new answer h g in
          elim (Outcome-cases current_block) [
            | inl (n, q) ↦
                rw (h, g, q, send_aggregated_response_to_contract, contract_call)
                  (All-append HasQuorum l.effects (submitted _ m r.aggregation ∷ []) k (backed, tt))
            | inr (inl (x, q)) ↦ rw (h, g, q, send_aggregated_response_to_contract, contract_call) k
            | inr (inr q) ↦ rw (h, g, q, send_aggregated_response_to_contract, contract_call) k
          ]
    ]
  ]

  module _ (new : AllNew) (zero_task : CheckpointTask) (checkpoint_interval : ℕ) where
    handle-AreBacked :
        (event : Event b state_roots operator_sets digest)
        (l : Loop b state_roots operator_sets digest)
        → Comes event
        → AreBacked l
        → AreBacked
            (handle b state_roots operator_sets digest zero_task checkpoint_interval event l).0
    unfolding handle
    handle-AreBacked (task_answered r current_block) l h k = elim (Bool-cases r.finished) [
      | inl f ↦ rw (f, handle) (submit_effect-AreBacked zero_task current_block r l new.2 h k)
      | inr f ↦ rw (f, handle) k
    ]
    handle-AreBacked (state_root_answered r x y) l h k =
        add_roots (handle_state_root_update_reached_quorum b state_roots x y r) l
          (state_roots-AllShow b state_roots root_goroutines new.0 x y r h) k
    handle-AreBacked (operator_set_answered r x y) l h k =
        add_sets (handle_operator_set_update_reached_quorum b operator_sets x y r) l
          (operator_sets-AllShow b operator_sets set_goroutines new.1 x y r h) k
    handle-AreBacked (tick c) l h k = k
    handle-AreBacked (broadcaster_error e) l h k = k
    handle-AreBacked context_done l h k = k

    abbrev run_on :
        List (Event b state_roots operator_sets digest)
        → Loop b state_roots operator_sets digest
        → Loop b state_roots operator_sets digest
    run_on = start b state_roots operator_sets digest zero_task checkpoint_interval

    -- A handler, and the rest of the loop if the handler was not fatal.
    go_on :
        (event : Event b state_roots operator_sets digest)
        (rest : Loop b state_roots operator_sets digest → Loop b state_roots operator_sets digest)
        (l : Loop b state_roots operator_sets digest)
        → Comes event
        → AreBacked l
        → ((l' : Loop b state_roots operator_sets digest) → AreBacked l' → AreBacked (rest l'))
        → let next =
            handle b state_roots operator_sets digest zero_task checkpoint_interval event l in
          AreBacked (if next.1 then next.0 else rest next.0)
    go_on event rest l h k backed =
        let next =
          handle b state_roots operator_sets digest zero_task checkpoint_interval event l in
        let one = handle-AreBacked event l h k in
        elim (Bool-cases next.1) [
          | inl f ↦ subst (λ x. AreBacked (if x then next.0 else rest next.0)) (sym f) one
          | inr f ↦
              subst (λ x. AreBacked (if x then next.0 else rest next.0)) (sym f) (backed next.0 one)
        ]

    start-AreBacked :
        (events : List (Event b state_roots operator_sets digest))
        (l : Loop b state_roots operator_sets digest)
        → All Comes events
        → AreBacked l
        → AreBacked (run_on events l)
    unfolding start
    start-AreBacked [] l h k = k
    start-AreBacked (context_done ∷ events) l h k = k
    start-AreBacked (task_answered r n ∷ events) l (h, hs) k =
        go_on (task_answered r n) (run_on events) l h k (λ l' k'. start-AreBacked events l' hs k')
    start-AreBacked (state_root_answered r x y ∷ events) l (h, hs) k =
        go_on (state_root_answered r x y) (run_on events) l h k
          (λ l' k'. start-AreBacked events l' hs k')
    start-AreBacked (operator_set_answered r x y ∷ events) l (h, hs) k =
        go_on (operator_set_answered r x y) (run_on events) l h k
          (λ l' k'. start-AreBacked events l' hs k')
    start-AreBacked (tick c ∷ events) l (h, hs) k =
        go_on (tick c) (run_on events) l h k (λ l' k'. start-AreBacked events l' hs k')
    start-AreBacked (broadcaster_error x ∷ events) l (h, hs) k =
        go_on (broadcaster_error x) (run_on events) l h k (λ l' k'. start-AreBacked events l' hs k')

  -- Where the answers that the aggregator takes are those of new goroutines of its BLS services,
  -- then in whatever order answers, ticks and errors come: each message and aggregation that is
  -- stored, broadcast to the rollups or submitted to the task manager comes from an answer of such a
  -- goroutine without an error, and the signed stakes that the goroutine counted for the
  -- aggregation's digest meet every threshold or are the total stakes.
  pub effects-HasQuorum :
      (zero_task : CheckpointTask) (checkpoint_interval : ℕ)
      (events : List (Event b state_roots operator_sets digest))
      (l : Loop b state_roots operator_sets digest)
      → AllNew
      → All Comes events
      → l.effects ≡ []
      → All HasQuorum
          (start b state_roots operator_sets digest zero_task checkpoint_interval events l).effects
  effects-HasQuorum zero_task checkpoint_interval events l new h none_yet =
      start-AreBacked new zero_task checkpoint_interval events l h
        (subst (λ x. All HasQuorum x) (sym none_yet) tt)
