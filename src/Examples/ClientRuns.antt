-- ===== src/Examples/ClientRuns.antt =====
-- The subscriptions of core/safeclient/client.go.
use near_sffl.Prelude.{
  ℕ, suc, ◌-◌, ◌≡◌, refl, max, List, [], ◌∷◌, false, some, arith, elem, take, if◌then◌else◌, ok,
  Outcome,
}
use near_sffl.SafeClient.{
  ℤ, pos, LogCache, Params, resub_filter_logs, new_safe_subscription, unsubscribe,
  set_underlying_sub, subscribed, Event, log_received, resub_due, run_events,
}
use near_sffl.Errors.{Error}
use near_sffl.SafeClient.Subscription.{apply_uses, repeat_unsubscribe, late_subscription_stays_open}
use near_sffl.SafeClient.Ranges.{logs_from, resub_filter_logs_lem}
use near_sffl.SafeClient.Delivery.{IsCurrent, OnSome, run_events-IsCurrent}

-- Each block has one log, its number.
abbrev logs_of : ℕ → List ℕ
logs_of n = n ∷ []

abbrev params : Params
params = record { block_chunk_size = 2; block_max_range = 100 }

-- The logs of the blocks between two numbers that are not negative.
abbrev filtered : ℤ → ℤ → Outcome Error (List ℕ)
filtered (pos a) (pos b) = ok (logs_from logs_of a (suc b - a))
filtered _ _ = ok []

resub_filter_logs_lem_example :
    resub_filter_logs (ok 9) filtered params 8 5
    ≡ some (ok (logs_from logs_of (max 5 (suc (9 - 100))) (suc 9 - max 5 (suc (9 - 100)))))
resub_filter_logs_lem_example =
    resub_filter_logs_lem logs_of filtered params 8 5 9 (λ a b h. refl) (omega arith) (omega arith)
      (omega arith) (omega arith) (omega arith)

abbrev list_cache : LogCache
list_cache = record {
  Cache = List ℕ;
  new = [];
  contains_or_add = λ h c. (elem h c, if elem h c then c else take 100 (h ∷ c));
  held = λ c. c;
  new-held = refl;
  contains_or_add-told = λ h c. refl;
  contains_or_add-held = λ h c. refl;
}

abbrev events : List (Event list_cache (λ (l : ℕ). l) (λ (l : ℕ). l))
events =
    log_received 6
    ∷ resub_due 8
        (record { subscribe_filter_logs = ok 2; current_block = ok 9; filter_logs = filtered })
    ∷ log_received 6
    ∷ []

run_events-IsCurrent_example :
    OnSome list_cache
      (λ (l : ℕ). l)
      (λ (l : ℕ). l)
      (IsCurrent list_cache (λ l. l) (λ l. l))
      (run_events list_cache
        (λ l. l)
        (λ l. l)
        params
        events
        (subscribed list_cache (λ l. l) (λ l. l) 1 5))
run_events-IsCurrent_example = run_events-IsCurrent list_cache (λ l. l) (λ l. l) params events 1 5

late_subscription_stays_open_example :
    elem 2
      (apply_uses
        (repeat_unsubscribe 3)
        (set_underlying_sub 2 (unsubscribe (new_safe_subscription 1)))).dropped
    ≡ false
unfolding new_safe_subscription unsubscribe
late_subscription_stays_open_example =
    late_subscription_stays_open 3 2 (new_safe_subscription 1) refl (λ e. omega (arith, e))
