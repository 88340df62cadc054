-- ===== src/Operator/Connection/Recovery.antt =====
-- How the consumer of operator/consumer/consumer.go fares: when it is ready, and what a connection
-- that closes while a channel is set up comes to.
use mathlib.Core.Path.{subst}
use mathlib.Core.Option.{none-ne-some, some-injective}
use near_sffl.Prelude.{
  ℕ, ◌≡◌, refl, sym, ap, List, [], ◌∷◌, Bool, true, false, arith, inl, inr, All, elem, Option, none,
  some, Bool-cases, Option-cases, ◌∙◌, ◌&&◌, not, ◌||◌, ◌==◌, ok, err, abort, Outcome-cases,
}
use near_sffl.Dict.{has, has-delete}
use near_sffl.Errors.{Error, already_closed}
use near_sffl.Interface.{Eth}
use near_sffl.Operator.Consumer.{Codec, Listener, remove}
use near_sffl.Operator.Connection.{
  Broker, Phase, connecting, connection_failed, setting_up, set_up_failed, listening, returned,
  panicked, Event, dialed, set_up, timer, context_done, connection_closed, channel_closed, Consumer,
  new_consumer, reset_channel, setup_channel, closed_while_listening, closed_while_setting_up,
  step_in, close, queue_ends,
}
use near_sffl.Operator.Connection.SetUp.{setup_channel-queues}

module _ (e : Eth) (c : Codec e) (rollup_ids : List ℕ) where
  -- A step of the goroutine, a call of `Close` with the errors that it meets, or the close of the
  -- delivery channel of a rollup's queue.
  pub data Move : Type 0 where
    stepping : Event → Move
    closing : Option Error → Option Error → Move
    queue_ending : ℕ → Move

  unfoldable pub move : Move → Consumer e c → Consumer e c
  unfolding step_in close queue_ends
  move (stepping event) s = step_in e c rollup_ids s.phase event s
  move (closing channel_error connection_error) s = (close e c channel_error connection_error s).0
  move (queue_ending rollup_id) s = queue_ends e c rollup_id s

  unfoldable pub after : List Move → Consumer e c → Consumer e c
  unfolding move
  after [] s = s
  after (first ∷ moves) s = after moves (move first s)

  -- The goroutine is past the set-up of a channel.
  abbrev pub is_past_set_up : Phase → Bool
  is_past_set_up listening = true
  is_past_set_up returned = true
  is_past_set_up panicked = true
  is_past_set_up connecting = false
  is_past_set_up connection_failed = false
  is_past_set_up setting_up = false
  is_past_set_up set_up_failed = false

  -- The queues whose delivery channels closed since a channel was last set up.
  abbrev pub ended_in : Phase → Event → List ℕ → List ℕ
  ended_in setting_up (set_up broker) ended = []
  ended_in _ _ ended = ended

  abbrev pub ended_by : Move → Phase → List ℕ → List ℕ
  ended_by (stepping event) p ended = ended_in p event ended
  ended_by (closing x y) p ended = ended
  ended_by (queue_ending rollup_id) p ended = rollup_id ∷ ended

  unfoldable pub ended_after : List Move → Consumer e c → List ℕ → List ℕ
  unfolding move
  ended_after [] s ended = ended
  ended_after (first ∷ moves) s ended =
      ended_after moves (move first s) (ended_by first s.phase ended)

  -- The consumer's queues are those of its rollups but those that ended.
  abbrev pub HasQueues : List ℕ → Consumer e c → Type 0
  HasQueues ended s =
      (l : Listener e c) × (s.queues_listener ≡ some l)
      × ((r : ℕ) → has r l.queues ≡ (elem r rollup_ids && not (elem r ended)))

  abbrev pub IsReadyRight : List ℕ → Consumer e c → Type 0
  IsReadyRight ended s = s.is_ready ≡ true → (is_past_set_up s.phase ≡ true) × HasQueues ended s

  reset_channel-IsReadyRight :
      (broker : Broker) (s : Consumer e c) → IsReadyRight [] (reset_channel e c rollup_ids broker s)
  unfolding reset_channel
  reset_channel-IsReadyRight broker s = elim (Outcome-cases (setup_channel e c rollup_ids broker)) [
    | inl (set, h) ↦
        rw (h, reset_channel)
          (λ r. (
            refl,
            (set.1, refl, λ j. setup_channel-queues e c broker rollup_ids set h j ∙ ground arith),
          ))
    | inr (inl (x, h)) ↦ rw (h, reset_channel) (λ r. absurd (ground (arith, r)))
    | inr (inr h) ↦ rw (h, reset_channel) (λ r. absurd (ground (arith, r)))
  ]

  closed_while_listening-IsReadyRight :
      (notice : Option Bool) (ended : List ℕ) (s : Consumer e c)
      → IsReadyRight ended s
      → IsReadyRight ended (closed_while_listening e c notice s)
  unfolding closed_while_listening
  closed_while_listening-IsReadyRight none ended s k = λ r. (refl, (k r).1)
  closed_while_listening-IsReadyRight (some true) ended s k = λ r. absurd (ground (arith, r))
  closed_while_listening-IsReadyRight (some false) ended s k = λ r. absurd (ground (arith, r))

  closed_while_setting_up-IsReadyRight :
      (notice : Option Bool) (ended : List ℕ) (s : Consumer e c)
      → IsReadyRight ended s
      → IsReadyRight ended (closed_while_setting_up e c notice s)
  unfolding closed_while_setting_up
  closed_while_setting_up-IsReadyRight none ended s k = λ r. (refl, (k r).1)
  closed_while_setting_up-IsReadyRight (some true) ended s k = λ r. (refl, (k r).1)
  closed_while_setting_up-IsReadyRight (some false) ended s k = λ r. (refl, (k r).1)

  -- A step within the set-up: the consumer was not ready, and stays so.
  within :
      (p : Phase) (ended : List ℕ) (s : Consumer e c)
      → is_past_set_up p ≡ false
      → s.phase ≡ p
      → IsReadyRight ended s
      → s.is_ready ≡ false
  within p ended s early same k = elim (Bool-cases s.is_ready) [
    | inr h ↦ h
    | inl h ↦ absurd (ground (arith, ap is_past_set_up same, (k h).0, early))
  ]

  step_in-IsReadyRight :
      (p : Phase) (event : Event) (ended : List ℕ) (s : Consumer e c)
      → s.phase ≡ p
      → IsReadyRight ended s
      → IsReadyRight (ended_in p event ended) (step_in e c rollup_ids p event s)
  unfolding step_in
  step_in-IsReadyRight connecting (dialed (ok conn)) ended s h k =
      λ r. absurd (ground (arith, r, within connecting ended s refl h k))
  step_in-IsReadyRight connecting (dialed (err x)) ended s h k =
      λ r. absurd (ground (arith, r, within connecting ended s refl h k))
  step_in-IsReadyRight connecting (dialed abort) ended s h k =
      λ r. absurd (ground (arith, r, within connecting ended s refl h k))
  step_in-IsReadyRight connection_failed context_done ended s h k = λ r. (refl, (k r).1)
  step_in-IsReadyRight connection_failed timer ended s h k = λ r. absurd (ground (arith, r))
  step_in-IsReadyRight setting_up (set_up broker) ended s h k = reset_channel-IsReadyRight broker s
  step_in-IsReadyRight set_up_failed context_done ended s h k = λ r. (refl, (k r).1)
  step_in-IsReadyRight set_up_failed (connection_closed notice) ended s h k =
      closed_while_setting_up-IsReadyRight notice ended s k
  step_in-IsReadyRight set_up_failed timer ended s h k =
      λ r. absurd (ground (arith, r, within set_up_failed ended s refl h k))
  step_in-IsReadyRight listening context_done ended s h k = λ r. (refl, (k r).1)
  step_in-IsReadyRight listening (connection_closed notice) ended s h k =
      closed_while_listening-IsReadyRight notice ended s k
  step_in-IsReadyRight listening (channel_closed notice) ended s h k =
      closed_while_listening-IsReadyRight notice ended s k
  step_in-IsReadyRight _ _ ended s h k = k

  -- `Close` leaves the consumer alone, or makes it one that is canceled and as it was, or not ready.
  close-IsReadyRight :
      (channel_error connection_error : Option Error) (ended : List ℕ) (s : Consumer e c)
      → IsReadyRight ended s
      → IsReadyRight ended (close e c channel_error connection_error s).0
  unfolding close
  close-IsReadyRight none none ended s k = elim (Bool-cases s.is_ready) [
    | inl h ↦ rw (h, close) (λ r. absurd (ground (arith, r)))
    | inr h ↦ rw (h, close) (λ r. absurd (ground (arith, r, h)))
  ]
  close-IsReadyRight none (some x) ended s k = elim (Bool-cases s.is_ready) [
    | inl h ↦ rw (h, close) (λ r. k h)
    | inr h ↦ rw (h, close) (λ r. absurd (ground (arith, r, h)))
  ]
  close-IsReadyRight (some x) notice ended s k = elim (Bool-cases s.is_ready) [
    | inl h ↦ rw (h, close) (λ r. k h)
    | inr h ↦ rw (h, close) (λ r. absurd (ground (arith, r, h)))
  ]

  queue_ends-IsReadyRight :
      (rollup_id : ℕ) (ended : List ℕ) (s : Consumer e c)
      → IsReadyRight ended s
      → IsReadyRight (rollup_id ∷ ended) (queue_ends e c rollup_id s)
  unfolding queue_ends remove
  queue_ends-IsReadyRight rollup_id ended s k = elim (Option-cases s.queues_listener) [
    | inl n ↦
        rw (n, queue_ends) (λ r. let (past, (l, q, h)) = k r in absurd (none-ne-some l (sym n ∙ q)))
    | inr (l, n) ↦
        rw (n, queue_ends)
          (λ r.
            let (past, (l', q, h)) = k r in
            let same : l' ≡ l = some-injective l' l (sym q ∙ n) in
            (
              past,
              (
                remove e c rollup_id l,
                refl,
                λ j.
                    has-delete rollup_id j l.queues
                    ∙ left j _ (elem j rollup_ids) (elem j ended) (
                        subst (λ x. has j x.queues ≡ (elem j rollup_ids && not (elem j ended))) same
                          (h j)),
              ),
            ))
  ]
    where
      left :
          (j : ℕ) (x y z : Bool)
          → x ≡ (y && not z)
          → (x && not (j == rollup_id)) ≡ (y && not (j == rollup_id || z))
      left j x y z h = ground (arith, h)

  move-IsReadyRight :
      (first : Move) (ended : List ℕ) (s : Consumer e c)
      → IsReadyRight ended s
      → IsReadyRight (ended_by first s.phase ended) (move first s)
  unfolding move
  move-IsReadyRight (stepping event) ended s k = step_in-IsReadyRight s.phase event ended s refl k
  move-IsReadyRight (closing x y) ended s k = close-IsReadyRight x y ended s k
  move-IsReadyRight (queue_ending r) ended s k = queue_ends-IsReadyRight r ended s k

  after-IsReadyRight :
      (moves : List Move) (ended : List ℕ) (s : Consumer e c)
      → IsReadyRight ended s
      → IsReadyRight (ended_after moves s ended) (after moves s)
  unfolding after ended_after
  after-IsReadyRight [] ended s k = k
  after-IsReadyRight (first ∷ moves) ended s k =
      after-IsReadyRight moves (ended_by first s.phase ended) (move first s)
        (move-IsReadyRight first ended s k)

  -- Whatever happens to the connection and its queues, and whenever `Close` is called: a consumer
  -- that is ready is past the set-up of a channel, and the queues of its listener are those of its
  -- rollups but those whose delivery channels closed since the channel was set up.
  pub consumer-IsReadyRight :
      (moves : List Move)
      → IsReadyRight (ended_after moves (new_consumer e c) []) (after moves (new_consumer e c))
  consumer-IsReadyRight moves =
      after-IsReadyRight moves [] (new_consumer e c) (λ r. absurd (ground (arith, r)))

  -- Anything but a close notice with an error.
  abbrev pub IsQuiet : Move → Type 0
  IsQuiet (stepping (connection_closed (some x))) = ⊥
  IsQuiet (stepping (channel_closed (some x))) = ⊥
  IsQuiet _ = Unit {0}

  -- A consumer in the last select, or at its end, that is not ready.
  abbrev IsStalled : Consumer e c → Type 0
  IsStalled s = (is_past_set_up s.phase ≡ true) × (s.is_ready ≡ false)

  step_in-IsStalled :
      (p : Phase) (event : Event) (s : Consumer e c)
      → IsQuiet (stepping event)
      → s.phase ≡ p
      → IsStalled s
      → IsStalled (step_in e c rollup_ids p event s)
  unfolding step_in closed_while_listening
  step_in-IsStalled listening context_done s q h (past, rest) = (refl, rest)
  step_in-IsStalled listening (connection_closed none) s q h (past, rest) = (refl, rest)
  step_in-IsStalled listening (channel_closed none) s q h (past, rest) = (refl, rest)
  step_in-IsStalled listening (connection_closed (some x)) s q h k = absurd q
  step_in-IsStalled listening (channel_closed (some x)) s q h k = absurd q
  step_in-IsStalled listening (dialed r) s q h k = k
  step_in-IsStalled listening (set_up broker) s q h k = k
  step_in-IsStalled listening timer s q h k = k
  step_in-IsStalled returned event s q h k = k
  step_in-IsStalled panicked event s q h k = k
  step_in-IsStalled connecting event s q h k = absurd (ground (arith, ap is_past_set_up h, k.0))
  step_in-IsStalled connection_failed event s q h k =
      absurd (ground (arith, ap is_past_set_up h, k.0))
  step_in-IsStalled setting_up event s q h k = absurd (ground (arith, ap is_past_set_up h, k.0))
  step_in-IsStalled set_up_failed event s q h k = absurd (ground (arith, ap is_past_set_up h, k.0))

  closed_already :
      (x y : Option Error) (s : Consumer e c)
      → s.is_ready ≡ false
      → close e c x y s ≡ (s, some already_closed)
  unfolding close
  closed_already x y s h = simp h

  queue_ends-IsStalled :
      (rollup_id : ℕ) (s : Consumer e c) → IsStalled s → IsStalled (queue_ends e c rollup_id s)
  unfolding queue_ends
  queue_ends-IsStalled rollup_id s k = elim (Option-cases s.queues_listener) [
    | inl n ↦ rw (n, queue_ends) k
    | inr (l, n) ↦ rw (n, queue_ends) k
  ]

  move-IsStalled :
      (first : Move) (s : Consumer e c) → IsQuiet first → IsStalled s → IsStalled (move first s)
  unfolding move
  move-IsStalled (stepping event) s q k = step_in-IsStalled s.phase event s q refl k
  move-IsStalled (queue_ending r) s q k = queue_ends-IsStalled r s k
  move-IsStalled (closing x y) s q k = subst (λ z. IsStalled z.0) (sym (closed_already x y s k.1)) k

  after-IsStalled :
      (moves : List Move) (s : Consumer e c)
      → All IsQuiet moves
      → IsStalled s
      → IsStalled (after moves s)
  unfolding after
  after-IsStalled [] s q k = k
  after-IsStalled (first ∷ moves) s (q, qs) k =
      after-IsStalled moves (move first s) qs (move-IsStalled first s q k)

  -- The connection closes while the set-up of a channel waits to be tried again.
  abbrev pub closed_with_error : Move
  closed_with_error = stepping (connection_closed (some true))

  closed_lem :
      (s : Consumer e c)
      → s.phase ≡ set_up_failed
      → move closed_with_error s ≡ record s { phase = listening }
  unfolding move step_in closed_while_setting_up
  closed_lem s failed = rw failed refl

  nil_notice_panics :
      (s : Consumer e c)
      → s.phase ≡ listening
      → (move (stepping (connection_closed none)) s).phase ≡ panicked
  unfolding move step_in closed_while_listening
  nil_notice_panics s h = rw h refl

  -- If, after any moves, the connection closes with an error that it can recover from while the
  -- set-up of a channel waits to be tried again, then it is not dialed again: whatever comes but a
  -- further close notice with an error, the consumer is not ready, `Close` answers that it is
  -- closed already and does nothing, and the nil that the notices' channel gives once it is closed
  -- makes the goroutine panic.
  pub recovery_stalls :
      (before later : List Move)
      → (after before (new_consumer e c)).phase ≡ set_up_failed
      → All IsQuiet later
      → let closed = move closed_with_error (after before (new_consumer e c)) in
        let s = after later closed in
        (s.is_ready ≡ false)
        × ((x y : Option Error) → close e c x y s ≡ (s, some already_closed))
        × ((move (stepping (connection_closed none)) closed).phase ≡ panicked)
  recovery_stalls before later failed quiet =
      let s = after before (new_consumer e c) in
      let rest = within set_up_failed _ s refl failed (consumer-IsReadyRight before) in
      let closed = closed_lem s failed in
      let (past, still) =
        after-IsStalled later (move closed_with_error s) quiet
          (subst IsStalled (sym closed) (refl, rest)) in
      (
        still,
        λ x y. closed_already x y (after later (move closed_with_error s)) still,
        nil_notice_panics (move closed_with_error s) (ap (λ z. z.phase) closed),
      )
