-- ===== src/Relayer.antt =====
-- relayer/relayer.go: the headers of a rollup become blocks without transactions, and go to NEAR in
-- batches. Two goroutines share a ticker: `listenToBlocks` collects and hands a batch over at a
-- tick, and `Start` submits it. A step of either is a `Step`; they interleave in any order.
pub mod Submission
pub mod Batches
pub mod Stall
use near_sffl.Prelude.{
  ℕ, zero, suc, ◌≡◌, List, [], ◌∷◌, ◌++◌, Bool, true, false, if◌then◌else◌, Outcome, ok, err, abort,
  ◌>>=◌,
}
use near_sffl.Errors.{Error, unknown_submission_error, failed_to_submit_blocks}
use near_sffl.Interface.{Eth}

-- SUBMIT_BLOCK_RETRIES
abbrev pub submit_block_retries : ℕ
submit_block_retries = 3

-- An error of the NEAR client, by what its text contains.
pub record NearError : Type 0 where
  pub invalid_nonce : Bool
  pub expired : Bool
  pub timeout : Bool

-- The conditions of submitEncodedBlocks under which it tries again.
unfoldable pub is_retried : NearError → Bool
is_retried e =
    if e.invalid_nonce then true else if e.expired then true else if e.timeout then true else false

-- What `ForceSubmit` and RLP give. The call that has the number `i` for a batch answers `force_submit i`.
pub record Near (e : Eth) : Type 1 where
  pub Bytes : Type 0
  pub encode : List e.Block → Outcome Error Bytes
  pub force_submit : ℕ → Bytes → Outcome NearError Bytes

module _ (e : Eth) (near : Near e) where
  -- The loop of submitEncodedBlocks, with the rounds left and the number of the next call.
  unfoldable pub submit_loop : ℕ → ℕ → near.Bytes → Outcome Error near.Bytes
  unfolding is_retried
  submit_loop zero i encoded_blocks = err failed_to_submit_blocks
  submit_loop (suc n) i encoded_blocks = elim (near.force_submit i encoded_blocks) [
    | ok out ↦ ok out
    | err x ↦
        let again = submit_loop n (suc i) encoded_blocks in
        if is_retried x then again else err unknown_submission_error
    | abort ↦ abort
  ]

  unfoldable pub submit_encoded_blocks : near.Bytes → Outcome Error near.Bytes
  unfolding submit_loop
  submit_encoded_blocks encoded_blocks = submit_loop submit_block_retries 0 encoded_blocks

  -- Without the ticker, which it resets in the end.
  unfoldable pub handle_blocks : List e.Block → Outcome Error near.Bytes
  unfolding submit_encoded_blocks
  handle_blocks blocks = do
    encoded_blocks ← near.encode blocks
    submit_encoded_blocks encoded_blocks

-- The goroutine of listenToBlocks: it collects, or waits to hand a batch over, or has handed it over
-- and is about to empty its list and stop the ticker, or has ended.
pub data Listener (e : Eth) : Type 0 where
  collecting sending ended : List e.Block → Listener e
  handed : Listener e

-- The loop of Start: it waits for a batch, or handles one, or has ended.
pub data Submitter (e : Eth) : Type 0 where
  waiting stopped : Submitter e
  handling : List e.Block → Submitter e

-- `ticking` is a ticker that was not stopped, `tick_ready` a tick in its channel. `received` are the
-- headers that came, and `handled` the batches that were handled, each with what came of it.
pub record Relayer (e : Eth) : Type 0 where
  pub listener : Listener e
  pub submitter : Submitter e
  pub ticking : Bool
  pub tick_ready : Bool
  pub received : List e.Header
  pub handled : List (List e.Block × Bool)

abbrev pub new_relayer : (e : Eth) → Relayer e
new_relayer e = record {
  listener = collecting [];
  submitter = waiting;
  ticking = true;
  tick_ready = false;
  received = [];
  handled = [];
}

-- A batch's submission succeeded.
abbrev pub succeeded {ℓ} : {A : Type ℓ} → Outcome Error A → Bool
succeeded (ok a) = true
succeeded (err e) = false
succeeded abort = false

pub data Step (e : Eth) : Relayer e → Relayer e → Type 1 where
  -- listenToBlocks
  header :
      (s : Relayer e) (blocks : List e.Block) (h : e.Header)
      → s.listener ≡ collecting blocks
      → Step e s (record s {
        listener = collecting (blocks ++ e.new_block_with_header h ∷ []);
        received = s.received ++ h ∷ [];
      })
  empty_tick :
      (s : Relayer e)
      → s.listener ≡ collecting []
      → s.tick_ready ≡ true
      → Step e s (record s { tick_ready = false })
  batch_tick :
      (s : Relayer e) (block : e.Block) (blocks : List e.Block)
      → s.listener ≡ collecting (block ∷ blocks)
      → s.tick_ready ≡ true
      → Step e s (record s { tick_ready = false; listener = sending (block ∷ blocks) })
  stop_ticker :
      (s : Relayer e)
      → s.listener ≡ handed
      → Step e s (record s { listener = collecting []; ticking = false })
  -- an error of the subscription, or the end of the context
  listening_ends :
      (s : Relayer e) (blocks : List e.Block)
      → s.listener ≡ collecting blocks
      → Step e s (record s { listener = ended blocks })
  -- both: the batch goes through the channel, which holds none
  hand_over :
      (s : Relayer e) (blocks : List e.Block)
      → s.listener ≡ sending blocks
      → s.submitter ≡ waiting
      → Step e s (record s { listener = handed; submitter = handling blocks })
  -- Start, with the deferred `ticker.Reset` of handleBlocks
  handled_blocks :
      (s : Relayer e) (near : Near e) (blocks : List e.Block)
      → s.submitter ≡ handling blocks
      → Step e s (record s {
        submitter = waiting;
        ticking = true;
        handled = s.handled ++ (blocks, succeeded (handle_blocks e near blocks)) ∷ [];
      })
  context_done :
      (s : Relayer e) → s.submitter ≡ waiting → Step e s (record s { submitter = stopped })
  -- the ticker
  fire : (s : Relayer e) → s.ticking ≡ true → Step e s (record s { tick_ready = true })

pub data Steps (e : Eth) (s : Relayer e) : Relayer e → Type 1 where
  here : Steps e s s
  next : {t u : Relayer e} → Steps e s t → Step e t u → Steps e s u
