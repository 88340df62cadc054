-- ===== src/Examples/ConnectionRuns.antt =====
-- The theorems about the consumer's connection (operator/consumer/consumer.go) at small inputs.
use near_sffl.Prelude.{
  ℕ, ◌≡◌, ◌↔◌, refl, List, [], ◌∷◌, false, All, Option, none, some, Outcome, ok, err,
}
use near_sffl.Errors.{Error, external, already_closed}
use near_sffl.Operator.Consumer.{Listener}
use near_sffl.Operator.Connection.{
  Broker, panicked, dialed, set_up, timer, connection_closed, Consumer, new_consumer, setup_channel,
  close,
}
use near_sffl.Operator.Connection.SetUp.{IsDistinct, IsAnswered, setup_channel_iff}
use near_sffl.Operator.Connection.Recovery.{
  Move, stepping, closing, queue_ending, ended_after, move, after, closed_with_error, IsReadyRight,
  consumer-IsReadyRight, recovery_stalls,
}
use near_sffl.Examples.Setting.{eth}
use near_sffl.Examples.AttestorRuns.{codec}

abbrev broker : Broker
broker = record {
  open_channel = ok 4;
  queue_declare = λ rollup_id. ok tt;
  queue_bind = λ rollup_id. ok tt;
  consume = λ rollup_id. ok tt;
}

abbrev broken : Broker
broken = record broker { consume = λ rollup_id. err (external 9) }

setup_channel_iff_example :
    ((set : ℕ × Listener eth codec) × (setup_channel eth codec (2 ∷ 3 ∷ []) broker ≡ ok set)) ↔ (
      ((channel : ℕ) × (◌≡◌ {A = Outcome Error ℕ} (ok 4) (ok channel)))
      × IsDistinct (2 ∷ 3 ∷ [])
      × All (IsAnswered broker) (2 ∷ 3 ∷ []))
setup_channel_iff_example = setup_channel_iff eth codec broker (2 ∷ 3 ∷ [])

abbrev moves : List (Move eth codec (2 ∷ 3 ∷ []))
moves =
    stepping (dialed (ok 1))
    ∷ stepping (set_up broken)
    ∷ stepping timer
    ∷ stepping (set_up broker)
    ∷ closing none (some (external 5))
    ∷ queue_ending 3
    ∷ []

consumer-IsReadyRight_example :
    IsReadyRight eth codec
      (2 ∷ 3 ∷ [])
      (ended_after eth codec (2 ∷ 3 ∷ []) moves (new_consumer eth codec) [])
      (after eth codec (2 ∷ 3 ∷ []) moves (new_consumer eth codec))
consumer-IsReadyRight_example = consumer-IsReadyRight eth codec (2 ∷ 3 ∷ []) moves

abbrev first_moves : List (Move eth codec (2 ∷ 3 ∷ []))
first_moves = stepping (dialed (ok 1)) ∷ stepping (set_up broken) ∷ []

abbrev later_moves : List (Move eth codec (2 ∷ 3 ∷ []))
later_moves = stepping timer ∷ stepping (dialed (ok 2)) ∷ closing none none ∷ []

abbrev before_close : Consumer eth codec
before_close = after eth codec (2 ∷ 3 ∷ []) first_moves (new_consumer eth codec)

recovery_stalls_example :
    let closed =
      move eth codec (2 ∷ 3 ∷ []) (closed_with_error eth codec (2 ∷ 3 ∷ [])) before_close in
    let s = after eth codec (2 ∷ 3 ∷ []) later_moves closed in
    (s.is_ready ≡ false)
    × ((x y : Option Error) → close eth codec x y s ≡ (s, some already_closed))
    × ((move eth codec (2 ∷ 3 ∷ []) (stepping (connection_closed none)) closed).phase ≡ panicked)
unfolding after
recovery_stalls_example =
    recovery_stalls eth codec (2 ∷ 3 ∷ []) first_moves later_moves refl (tt, (tt, (tt, tt)))
