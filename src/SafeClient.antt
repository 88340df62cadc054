-- ===== src/SafeClient.antt =====
-- core/safeclient/client.go: the subscription to logs that renews itself. The Ethereum client's
-- answers are arguments; logs are told apart by their hash (`hashLog` of core/safeclient/utils.go
-- rests on SHA-256, so it is a parameter), and the log cache is the interface `LogCache`.
pub mod Subscription
pub mod Ranges
pub mod Delivery
pub mod Heads
use near_sffl.Prelude.{
  ℕ, zero, suc, ◌+◌, ◌-◌, ◌^◌, ◌%◌, ◌≡◌, min, max, List, [], ◌∷◌, ◌++◌, Bool, true, false, Option,
  none, some, ltb, leb, if◌then◌else◌, elem, take, Outcome, ok, err, abort,
}
use near_sffl.Errors.{Error}

-- SafeSubscription. A subscription of the client is a number; `dropped` are those that were told
-- to unsubscribe, and `closes` counts `close(s.errC)`, which panics the second time.
pub record SafeSubscription : Type 0 where
  pub underlying : ℕ
  pub unsubscribed : Bool
  pub closes : ℕ
  pub dropped : List ℕ

unfoldable pub new_safe_subscription : ℕ → SafeSubscription
new_safe_subscription sub = record {
  underlying = sub;
  unsubscribed = false;
  closes = 0;
  dropped = [];
}

unfoldable pub unsubscribe : SafeSubscription → SafeSubscription
unsubscribe s =
    if s.unsubscribed
    then s
    else record s { unsubscribed = true; closes = suc s.closes; dropped = s.underlying ∷ s.dropped }

unfoldable pub set_underlying_sub : ℕ → SafeSubscription → SafeSubscription
set_underlying_sub sub s = record s { underlying = sub; dropped = s.underlying ∷ s.dropped }

-- What the code relies on of the LRU cache of golang-lru: `ContainsOrAdd` tells whether the key is
-- held, without a change then, and else adds it, dropping the oldest key beyond the size of 100.
pub record LogCache : Type 1 where
  pub Cache : Type 0
  pub new : Cache
  pub contains_or_add : ℕ → Cache → Bool × Cache
  -- The keys, the latest first.
  pub held : Cache → List ℕ
  pub new-held : held new ≡ []
  pub contains_or_add-told : (h : ℕ) (c : Cache) → (contains_or_add h c).0 ≡ elem h (held c)
  pub contains_or_add-held :
      (h : ℕ) (c : Cache)
      → held (contains_or_add h c).1 ≡ (if elem h (held c) then held c else take 100 (h ∷ held c))

-- A `*big.Int`, over native numbers; `negsuc n` is the number below zero by n and one.
pub data ℤ : Type 0 where
  pos negsuc : ℕ → ℤ

-- `int64(n)` of a uint64
unfoldable pub int64 : ℕ → ℤ
int64 n = if ltb n (2 ^ 63) then pos n else negsuc (2 ^ 64 - 1 - n)

-- blockChunkSize and blockMaxRange
pub record Params : Type 0 where
  pub block_chunk_size : ℕ
  pub block_max_range : ℕ

-- The first block that `resubFilterLogs` asks for. Blocks are uint64.
unfoldable pub first_block : Params → ℕ → ℕ → ℕ
first_block p last_block current_block =
    let range_start =
      if ltb current_block p.block_max_range then 0 else current_block - p.block_max_range in
    max last_block ((suc range_start) % 2 ^ 64)

module _ {ℓ} {L : Type ℓ} where
  -- The loop over the chunks, on fuel; none is out of fuel.
  unfoldable pub fetch_chunks :
      (ℤ → ℤ → Outcome Error (List L))
      → Params
      → ℕ
      → ℕ
      → ℕ
      → List L
      → Option (Outcome Error (List L))
  unfolding int64
  fetch_chunks filter_logs p current_block zero from_block missed = none
  fetch_chunks filter_logs p current_block (suc fuel) from_block missed =
      let to_block = min ((from_block + p.block_chunk_size + 2 ^ 64 - 1) % 2 ^ 64) current_block in
      if leb from_block current_block
      then elim (filter_logs (int64 from_block) (int64 to_block)) [
        | ok logs ↦
            fetch_chunks filter_logs p current_block fuel
              ((from_block + p.block_chunk_size) % 2 ^ 64) (missed ++ logs)
        | err e ↦ some (err e)
        | abort ↦ some abort
      ]
      else some (ok missed)

  -- resubFilterLogs
  unfoldable pub resub_filter_logs :
      Outcome Error ℕ
      → (ℤ → ℤ → Outcome Error (List L))
      → Params
      → ℕ
      → ℕ
      → Option (Outcome Error (List L))
  unfolding fetch_chunks first_block
  resub_filter_logs block_number filter_logs p fuel last_block = elim block_number [
    | err e ↦ some (err e)
    | abort ↦ some abort
    | ok current_block ↦
        if leb current_block last_block
        then some (ok [])
        else fetch_chunks filter_logs p current_block fuel (first_block p last_block current_block)
            []
  ]

module _ {ℓ} {L : Type ℓ} (cache : LogCache) (hash block_number : L → ℕ) where
  -- What the goroutine of `SubscribeFilterLogs` keeps: `sent` are the logs written to the channel,
  -- the latest first.
  pub record Logs : Type ℓ where
    pub log_cache : cache.Cache
    pub last_block : ℕ
    pub sent : List L
    pub sub : SafeSubscription
    pub stopped : Bool

  unfoldable pub subscribed : ℕ → ℕ → Logs
  unfolding new_safe_subscription
  subscribed sub current_block = record {
    log_cache = cache.new;
    last_block = current_block;
    sent = [];
    sub = new_safe_subscription sub;
    stopped = false;
  }

  -- `tryCacheLog`, and what follows it at both its calls.
  unfoldable pub try_send_log : L → Logs → Logs
  try_send_log log s =
      let (known, c) = cache.contains_or_add (hash log) s.log_cache in
      if known then record s { log_cache = c } else record s {
        log_cache = c;
        last_block = max s.last_block (block_number log);
        sent = log ∷ s.sent;
      }

  unfoldable pub send_missed_logs : List L → Logs → Logs
  unfolding try_send_log
  send_missed_logs [] s = s
  send_missed_logs (log ∷ logs) s = send_missed_logs logs (try_send_log log s)

  -- What the client answers to a resubscription: to SubscribeFilterLogs, BlockNumber, FilterLogs.
  pub record Answers : Type ℓ where
    pub subscribe_filter_logs : Outcome Error ℕ
    pub current_block : Outcome Error ℕ
    pub filter_logs : ℤ → ℤ → Outcome Error (List L)

  -- The end of `resub`; an error is only logged. None is out of fuel, or a panic.
  unfoldable pub after_fetch : Option (Outcome Error (List L)) → Logs → Option Logs
  unfolding send_missed_logs
  after_fetch none t = none
  after_fetch (some (ok logs)) t = some (send_missed_logs logs t)
  after_fetch (some (err e)) t = some t
  after_fetch (some abort) t = none

  unfoldable pub resub : Params → ℕ → Answers → Logs → Option Logs
  unfolding set_underlying_sub resub_filter_logs after_fetch
  resub p fuel a s = elim a.subscribe_filter_logs [
    | err e ↦ some s
    | abort ↦ none
    | ok sub ↦
        after_fetch (resub_filter_logs a.current_block a.filter_logs p fuel s.last_block)
          (record s { sub = set_underlying_sub sub s.sub })
  ]

  -- The cases of the `select`; the ticker and the end of the underlying subscription do the same.
  pub data Event : Type ℓ where
    subscription_ended : Event
    log_received : L → Event
    resub_due : ℕ → Answers → Event
    close_or_done : Event

  unfoldable pub handle_event : Params → Event → Logs → Option Logs
  unfolding try_send_log resub unsubscribe
  handle_event p subscription_ended s = some (record s { stopped = true })
  handle_event p (log_received log) s = some (try_send_log log s)
  handle_event p (resub_due fuel a) s = resub p fuel a s
  handle_event p close_or_done s = some (record s { sub = unsubscribe s.sub; stopped = true })

  -- The goroutine.
  unfoldable pub run_events : Params → List Event → Logs → Option Logs
  unfolding handle_event
  run_events p [] s = some s
  run_events p (e ∷ es) s =
      if s.stopped
      then some s
      else elim (handle_event p e s) [ none ↦ none | some t ↦ run_events p es t ]
