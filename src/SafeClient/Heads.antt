-- ===== src/SafeClient/Heads.antt =====
-- `SubscribeNewHead` of core/safeclient/client.go: the subscription to block headers, which is
-- renewed when it ends or stays silent.
use near_sffl.Prelude.{
  ℕ, List, [], ◌∷◌, ◌++◌, Bool, true, false, Option, none, some, if◌then◌else◌, Outcome, ok, err,
  abort,
}
use near_sffl.Errors.{Error}
use near_sffl.SafeClient.{SafeSubscription, new_safe_subscription, unsubscribe, set_underlying_sub}

module _ {ℓ} (Header : Type ℓ) where
  -- What the goroutine keeps; `sent` are the headers written to the channel, in order.
  pub record Heads : Type ℓ where
    pub received_block : Bool
    pub sent : List Header
    pub sub : SafeSubscription
    pub stopped : Bool

  unfoldable pub heads_subscribed : ℕ → Heads
  unfolding new_safe_subscription
  heads_subscribed sub = record {
    received_block = false;
    sent = [];
    sub = new_safe_subscription sub;
    stopped = false;
  }

  -- The client's answer to a new subscription; an error is only logged.
  unfoldable pub resub_heads : Outcome Error ℕ → Heads → Option Heads
  unfolding set_underlying_sub
  resub_heads (ok sub) s = some (record s { sub = set_underlying_sub sub s.sub })
  resub_heads (err e) s = some s
  resub_heads abort s = none

  -- The cases of the `select`.
  pub data HeadEvent : Type ℓ where
    header_received : Header → HeadEvent
    heads_ended : HeadEvent
    underlying_ended ticker_fired : Outcome Error ℕ → HeadEvent
    heads_closed : HeadEvent

  unfoldable pub handle_head_event : HeadEvent → Heads → Option Heads
  unfolding resub_heads unsubscribe
  handle_head_event (header_received h) s =
      some (record s { received_block = true; sent = s.sent ++ h ∷ [] })
  handle_head_event heads_ended s = some (record s { stopped = true })
  handle_head_event (underlying_ended answer) s = resub_heads answer s
  handle_head_event (ticker_fired answer) s =
      if s.received_block then some (record s { received_block = false }) else resub_heads answer s
  handle_head_event heads_closed s = some (record s { sub = unsubscribe s.sub; stopped = true })

  -- The goroutine; none is a panic of the client.
  unfoldable pub run_head_events : List HeadEvent → Heads → Option Heads
  unfolding handle_head_event
  run_head_events [] s = some s
  run_head_events (e ∷ es) s =
      if s.stopped
      then some s
      else elim (handle_head_event e s) [ none ↦ none | some t ↦ run_head_events es t ]
