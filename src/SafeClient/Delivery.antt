-- ===== src/SafeClient/Delivery.antt =====
-- What `SubscribeFilterLogs` writes to its channel (core/safeclient/client.go).
use mathlib.Core.Path.{subst}
use near_sffl.Prelude.{
  ℕ, zero, suc, ◌≡◌, ◌≤◌, refl, ap, ◌∙◌, inl, inr, List, [], ◌∷◌, map, Bool, true, false, Option,
  none, some, arith, if◌then◌else◌, elem, take, All, Outcome, ok, err, abort, Bool-cases,
  Outcome-cases,
}
use near_sffl.Errors.{Error}
use near_sffl.SafeClient.{
  LogCache, Params, resub_filter_logs, Logs, subscribed, try_send_log, send_missed_logs,
  after_fetch, Answers, resub, Event, subscription_ended, log_received, resub_due, close_or_done,
  handle_event, run_events,
}

take-take : (n m : ℕ) (xs : List ℕ) → n ≤ m → take n (take m xs) ≡ take n xs
take-take zero m xs h = refl
take-take (suc n) zero xs h = absurd (omega arith)
take-take (suc n) (suc m) [] h = refl
take-take (suc n) (suc m) (x ∷ xs) h = ap (◌∷◌ x) (take-take n m xs (omega arith))

All-weaken {ℓ} :
    {A : Type ℓ} (f : A → ℕ) (n m : ℕ) (xs : List A)
    → n ≤ m
    → All (λ x. f x ≤ n) xs
    → All (λ x. f x ≤ m) xs
All-weaken f n m [] le h = tt
All-weaken f n m (x ∷ xs) le (h, hs) = (omega arith, All-weaken f n m xs le hs)

module _ {ℓ} {L : Type ℓ} (cache : LogCache) (hash block_number : L → ℕ) where
  -- A log differs in its hash from the hundred logs sent before it.
  abbrev pub NoRepeat : List L → Type 0
  NoRepeat [] = Unit
  NoRepeat (l ∷ ls) = (elem (hash l) (take 100 (map hash ls)) ≡ false) × NoRepeat ls

  -- The cache holds the last hundred logs that were sent, these do not repeat, and none is of a
  -- block after the last one.
  abbrev pub IsCurrent : Logs cache hash block_number → Type 0
  IsCurrent s =
      (cache.held s.log_cache ≡ take 100 (map hash s.sent))
      × NoRepeat s.sent
      × All (λ l. block_number l ≤ s.last_block) s.sent

  try_send_log-IsCurrent :
      (l : L) (s : Logs cache hash block_number)
      → IsCurrent s
      → IsCurrent (try_send_log cache hash block_number l s)
  unfolding try_send_log
  try_send_log-IsCurrent l s (held, fresh, late) =
      let told = cache.contains_or_add-told (hash l) s.log_cache in
      let holds = cache.contains_or_add-held (hash l) s.log_cache in
      elim (Bool-cases (elem (hash l) (cache.held s.log_cache))) [
        | inl b ↦ rw (told, b) (holds ∙ rw b held, fresh, late)
        | inr b ↦
            rw (told, b)
              (
                holds
                    ∙ rw b (
                        ap (λ k. hash l ∷ k)
                          (ap (take 99) held ∙ take-take 99 100 (map hash s.sent) (omega arith))),
                (subst (λ k. elem (hash l) k ≡ false) held b, fresh),
                (omega arith, All-weaken block_number s.last_block _ s.sent (omega arith) late),
              )
      ]

  send_missed_logs-IsCurrent :
      (ls : List L) (s : Logs cache hash block_number)
      → IsCurrent s
      → IsCurrent (send_missed_logs cache hash block_number ls s)
  unfolding send_missed_logs
  send_missed_logs-IsCurrent [] s h = h
  send_missed_logs-IsCurrent (l ∷ ls) s h =
      send_missed_logs-IsCurrent ls (try_send_log cache hash block_number l s)
        (try_send_log-IsCurrent l s h)

  -- The predicate holds of the result, if there is one.
  abbrev pub OnSome :
      (Logs cache hash block_number → Type 0) → Option (Logs cache hash block_number) → Type 0
  OnSome P none = Unit
  OnSome P (some s) = P s

  after_fetch-IsCurrent :
      (r : Option (Outcome Error (List L))) (s : Logs cache hash block_number)
      → IsCurrent s
      → OnSome IsCurrent (after_fetch cache hash block_number r s)
  unfolding after_fetch
  after_fetch-IsCurrent none s h = tt
  after_fetch-IsCurrent (some (ok logs)) s h = send_missed_logs-IsCurrent logs s h
  after_fetch-IsCurrent (some (err e)) s h = h
  after_fetch-IsCurrent (some abort) s h = tt

  OnSome-bind :
      (P : Logs cache hash block_number → Type 0) (o : Option (Logs cache hash block_number))
      (f : Logs cache hash block_number → Option (Logs cache hash block_number))
      → OnSome P o
      → ((t : Logs cache hash block_number) → P t → OnSome P (f t))
      → OnSome P (elim o [ none ↦ none | some t ↦ f t ])
  OnSome-bind P none f h g = tt
  OnSome-bind P (some t) f h g = g t h

  OnSome-if :
      (P : Logs cache hash block_number → Type 0) (b : Bool)
      (x y : Option (Logs cache hash block_number))
      → OnSome P x
      → OnSome P y
      → OnSome P (if b then x else y)
  OnSome-if P true x y h g = h
  OnSome-if P false x y h g = g

  resub-IsCurrent :
      (p : Params) (fuel : ℕ) (a : Answers cache hash block_number)
      (s : Logs cache hash block_number)
      → IsCurrent s
      → OnSome IsCurrent (resub cache hash block_number p fuel a s)
  unfolding resub
  resub-IsCurrent p fuel a s h = elim (Outcome-cases a.subscribe_filter_logs) [
    | inr (inl (e, q)) ↦ rw q h
    | inr (inr q) ↦ rw q tt
    | inl (sub, q) ↦ rw q (
        after_fetch-IsCurrent (resub_filter_logs a.current_block a.filter_logs p fuel s.last_block)
          _ h)
  ]

  handle_event-IsCurrent :
      (p : Params) (e : Event cache hash block_number) (s : Logs cache hash block_number)
      → IsCurrent s
      → OnSome IsCurrent (handle_event cache hash block_number p e s)
  unfolding handle_event
  handle_event-IsCurrent p subscription_ended s h = h
  handle_event-IsCurrent p (log_received l) s h = try_send_log-IsCurrent l s h
  handle_event-IsCurrent p (resub_due fuel a) s h = resub-IsCurrent p fuel a s h
  handle_event-IsCurrent p close_or_done s h = h

  run_events_lem :
      (p : Params) (es : List (Event cache hash block_number)) (s : Logs cache hash block_number)
      → IsCurrent s
      → OnSome IsCurrent (run_events cache hash block_number p es s)
  unfolding run_events
  run_events_lem p [] s h = h
  run_events_lem p (e ∷ es) s h = OnSome-if IsCurrent s.stopped (some s) _ h (
      OnSome-bind IsCurrent (handle_event cache hash block_number p e s) _
        (handle_event-IsCurrent p e s h) (λ t. run_events_lem p es t))

  -- Whatever logs, resubscriptions and missed logs the goroutine meets, a log that it sends differs
  -- in its hash from the hundred logs sent before it, and no log that was sent is of a block after
  -- the block from which the next resubscription starts.
  pub run_events-IsCurrent :
      (p : Params) (es : List (Event cache hash block_number)) (sub current_block : ℕ)
      → OnSome IsCurrent (
          run_events cache hash block_number p es
            (subscribed cache hash block_number sub current_block))
  unfolding subscribed
  run_events-IsCurrent p es sub current_block =
      run_events_lem p es (subscribed cache hash block_number sub current_block)
        (cache.new-held, tt, tt)
