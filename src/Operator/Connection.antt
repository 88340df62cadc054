-- ===== src/Operator/Connection.antt =====
-- operator/consumer/consumer.go: the consumer's connection to RabbitMQ, and its goroutine, which
-- connects and sets a channel up again as these fail. A `select` of it is a step on an event.
pub mod SetUp
pub mod Recovery
use near_sffl.Prelude.{
  ℕ, List, [], ◌∷◌, Bool, true, false, Option, none, some, if◌then◌else◌, Outcome, ok, err, abort,
  ◌>>=◌,
}
use near_sffl.Errors.{Error, already_closed}
use near_sffl.Interface.{Eth}
use near_sffl.Operator.Consumer.{Codec, Listener, add, remove}

-- What RabbitMQ answers while a channel is set up: `Channel`, and for a rollup `QueueDeclare`,
-- `QueueBind` and `Consume`. Channels are told apart by numbers, as connections are.
pub record Broker : Type 0 where
  pub open_channel : Outcome Error ℕ
  pub queue_declare : ℕ → Outcome Error (Unit {0})
  pub queue_bind : ℕ → Outcome Error (Unit {0})
  pub consume : ℕ → Outcome Error (Unit {0})

-- What the goroutine is about to do, or waits for in a `select`.
pub data Phase : Type 0 where
  -- `connect`, and the `select` after it failed
  connecting connection_failed : Phase
  -- `setupChannel`, and the `select` after it failed
  setting_up set_up_failed : Phase
  -- the last `select` of `reconnect`
  listening : Phase
  -- it returned, or a nil pointer was dereferenced
  returned panicked : Phase

-- A close notice is the error's `Recover`, or none for the nil that a closed channel of notices
-- gives.
pub data Event : Type 0 where
  dialed : Outcome Error ℕ → Event
  set_up : Broker → Event
  timer context_done : Event
  connection_closed channel_closed : Option Bool → Event

module _ (e : Eth) (c : Codec e) where
  -- `queues_listener` with the queues that it has now, and `canceled` once the context was by `Close`.
  pub record Consumer : Type 0 where
    pub phase : Phase
    pub is_ready : Bool
    pub connection : Option ℕ
    pub channel : Option ℕ
    pub queues_listener : Option (Listener e c)
    pub canceled : Bool

  abbrev pub new_consumer : Consumer
  new_consumer = record {
    phase = connecting;
    is_ready = false;
    connection = none;
    channel = none;
    queues_listener = none;
    canceled = false;
  }

  -- The end of a round of setupChannel's loop.
  abbrev pub added : Listener e c × Option Error → Outcome Error (Listener e c)
  added (l, none) = ok l
  added (l, some x) = err x

  -- A round of setupChannel's loop.
  unfoldable pub set_up_queue : Broker → ℕ → Listener e c → Outcome Error (Listener e c)
  unfolding add
  set_up_queue broker rollup_id listener = do
    queue ← broker.queue_declare rollup_id
    bound ← broker.queue_bind rollup_id
    rollup_data ← broker.consume rollup_id
    added (add e c rollup_id listener)

  unfoldable pub set_up_queues : Broker → List ℕ → Listener e c → Outcome Error (Listener e c)
  unfolding set_up_queue
  set_up_queues broker [] listener = ok listener
  set_up_queues broker (rollup_id ∷ rollup_ids) listener = do
    listener' ← set_up_queue broker rollup_id listener
    set_up_queues broker rollup_ids listener'

  abbrev pub new_queues_listener : Listener e c
  new_queues_listener = record { queues = []; received_blocks = []; settlements = [] }

  -- setupChannel, without what it writes in the end: the channel and the new listener.
  unfoldable pub setup_channel : List ℕ → Broker → Outcome Error (ℕ × Listener e c)
  unfolding set_up_queues
  setup_channel rollup_ids broker = do
    channel ← broker.open_channel
    listener ← set_up_queues broker rollup_ids new_queues_listener
    ok (channel, listener)

  -- The head of a round of `reconnect`.
  abbrev pub reconnecting : Consumer → Consumer
  reconnecting s = record s { phase = connecting; is_ready = false }

  -- A round of ResetChannel up to its `select`; a panic of the library's is one of the goroutine.
  unfoldable pub reset_channel : List ℕ → Broker → Consumer → Consumer
  unfolding setup_channel
  reset_channel rollup_ids broker s = elim (setup_channel rollup_ids broker) [
    | ok set ↦ record s {
      phase = listening;
      is_ready = true;
      channel = some set.0;
      queues_listener = some set.1;
    }
    | err x ↦ record s { phase = set_up_failed; is_ready = false }
    | abort ↦ record s { phase = panicked; is_ready = false }
  ]

  -- The last `select` of `reconnect` on a close notice: its `break` leaves the `select` only.
  unfoldable pub closed_while_listening : Option Bool → Consumer → Consumer
  closed_while_listening none s = record s { phase = panicked }
  closed_while_listening (some recover) s = if recover then reconnecting s else reconnecting s

  -- The `select` of ResetChannel on a notice of the connection's close: where it can recover,
  -- ResetChannel returns false, as it does after a success.
  unfoldable pub closed_while_setting_up : Option Bool → Consumer → Consumer
  closed_while_setting_up none s = record s { phase = panicked }
  closed_while_setting_up (some recover) s =
      if recover then record s { phase = listening } else record s { phase = returned }

  -- The delivery channel of a queue closes, and the goroutine of `listen` removes the queue. Those of
  -- a listener that was replaced remove it from that one.
  unfoldable pub queue_ends : ℕ → Consumer → Consumer
  unfolding remove
  queue_ends rollup_id s = elim s.queues_listener [
    | none ↦ s
    | some l ↦ record s { queues_listener = some (remove e c rollup_id l) }
  ]

  -- A step of the goroutine. It does not meet the events for which it does not wait.
  unfoldable pub step_in : List ℕ → Phase → Event → Consumer → Consumer
  unfolding reset_channel closed_while_listening closed_while_setting_up
  step_in rollup_ids connecting (dialed (ok conn)) s = record s {
    phase = setting_up;
    connection = some conn;
  }
  step_in rollup_ids connecting (dialed (err x)) s = record s { phase = connection_failed }
  step_in rollup_ids connecting (dialed abort) s = record s { phase = panicked }
  step_in rollup_ids connection_failed context_done s = record s { phase = returned }
  step_in rollup_ids connection_failed timer s = reconnecting s
  step_in rollup_ids setting_up (set_up broker) s = reset_channel rollup_ids broker s
  step_in rollup_ids set_up_failed context_done s = record s { phase = returned }
  step_in rollup_ids set_up_failed (connection_closed notice) s = closed_while_setting_up notice s
  step_in rollup_ids set_up_failed timer s = record s { phase = setting_up }
  step_in rollup_ids listening context_done s = record s { phase = returned }
  step_in rollup_ids listening (connection_closed notice) s = closed_while_listening notice s
  step_in rollup_ids listening (channel_closed notice) s = closed_while_listening notice s
  step_in rollup_ids _ _ s = s

  -- Close, with the errors of the two `Close` that it calls.
  unfoldable pub close : Option Error → Option Error → Consumer → Consumer × Option Error
  close channel_error connection_error s =
      let canceled = record s { canceled = true } in
      if s.is_ready
      then (elim channel_error [
        | some x ↦ (canceled, some x)
        | none ↦ elim connection_error [
          | some x ↦ (canceled, some x)
          | none ↦ (record canceled { is_ready = false }, none)
        ]
      ])
      else (s, some already_closed)
