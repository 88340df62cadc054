-- ===== src/Examples/OperatorRuns.antt =====
-- The queue of operator/rpc_client.go, with numbers as messages.
use near_sffl.Prelude.{
  ◌%◌, refl, ◌↔◌, All, ok, ℕ, ◌≡◌, List, [], ◌∷◌, Option, none, some, true, arith, ◌==◌,
  if◌then◌else◌,
}
use near_sffl.Operator.Notifier.{Subscriber, Notifier, finished, blocked, notify}
use near_sffl.Operator.Notifier.Delivery.{HasRoom, notify_finished_iff}
use near_sffl.Dict.{lookup}
use near_sffl.Operator.RpcClient.{
  CallError, shutdown, other_error, Unsent, resent, try_resend_from_deque, Client,
  send_operator_message,
}
use near_sffl.Operator.RpcClient.Resend.{try_resend_from_deque-resent}
use near_sffl.Operator.RpcClient.Queue.{IsBounded, queue-IsBounded}
use near_sffl.Errors.{external}

abbrev unsent : List (Unsent ℕ)
unsent =
    record { message = 11; retries = 0 }
    ∷ record { message = 12; retries = 3 }
    ∷ record { message = 13; retries = 9 }
    ∷ []

-- The first call fails, the last one for the connection.
abbrev answers : ℕ → ℕ → Option CallError
answers i m =
    if m == 11 then some (other_error (external 1)) else (if m == 13 then some shutdown else none)

abbrev client : Client ℕ
client = record {
  connected = true;
  pending_shutdowns = 0;
  notified_initialized = true;
  unsent_messages = unsent;
}

try_resend_from_deque-resent_example :
    (try_resend_from_deque answers unsent).0 ≡ resent answers 0 unsent
try_resend_from_deque-resent_example = try_resend_from_deque-resent answers unsent

queue-IsBounded_example :
    IsBounded (try_resend_from_deque answers unsent).0
    × IsBounded (send_operator_message (some shutdown) 14 client).unsent_messages
queue-IsBounded_example =
    queue-IsBounded answers (some shutdown) 14 client
      (omega arith, (omega arith, (omega arith, tt)))

-- Blocks are numbers; one subscriber wants the even ones, another all.
abbrev even_only : Subscriber ℕ
even_only = record { id = 0; predicate = λ n. n % 2 == 0; waiting = [] }

abbrev any_block : Subscriber ℕ
any_block = record { id = 1; predicate = λ n. true; waiting = 4 ∷ [] }

abbrev notifier : Notifier ℕ
notifier = record { rollup_ids_to_subscribers = (2, even_only ∷ any_block ∷ []) ∷ []; next_id = 2 }

notify_finished_iff_example :
    (((notify ℕ 2 7 notifier).1 ≡ ok finished) ↔ All (HasRoom ℕ 7) (even_only ∷ any_block ∷ []))
    × (((notify ℕ 2 7 notifier).1 ≡ ok blocked)
        ↔ (¬ All (HasRoom ℕ 7) (even_only ∷ any_block ∷ [])))
unfolding lookup
notify_finished_iff_example = notify_finished_iff ℕ 2 7 notifier (even_only ∷ any_block ∷ []) refl
