-- ===== src/Operator/Consumer/Attested.antt =====
-- The queues of operator/consumer/queues_listener.go together with the attestor of
-- operator/attestor/attestor.go.
use near_sffl.Prelude.{ℕ, List, [], All, All-mono, All-Among, Among, among-All}
use near_sffl.Interface.{Bls, Eth}
use near_sffl.Operator.Attestor.{
  Signer, BlockData, Event, header, mq_block, mq_timeout, mq_found, context_done, new_attestor, run,
}
use near_sffl.Operator.Attestor.Faithful.{IsFaithful, Admits, signed_roots-IsFaithful}
use near_sffl.Operator.Consumer.{Codec, Arrival, delivered, closed, done, Listener, listen}
use near_sffl.Operator.Consumer.Origin.{HasOrigin, Arrives, listen-HasOrigin}

module _ (e : Eth) (c : Codec e) where
  abbrev pub new_listener : Listener e c
  new_listener = record { queues = []; received_blocks = []; settlements = [] }

  -- The bodies that a rollup's queue delivered.
  abbrev pub Delivered : (ℕ → List (Arrival e c)) → ℕ → c.Bytes → Type 0
  Delivered arrivals rollup_id body = Among (delivered body) (arrivals rollup_id)

  -- The block is one that the goroutine of a rollup's queue passed on.
  abbrev pub PassedOn : (ℕ → List (Arrival e c)) → BlockData e → Type 0
  PassedOn arrivals d =
      (rollup_id : ℕ) × Among d
        (listen e c rollup_id (arrivals rollup_id) new_listener).received_blocks

  arrival-Arrives :
      (arrivals : ℕ → List (Arrival e c)) (rollup_id : ℕ) (a : Arrival e c)
      → Among a (arrivals rollup_id)
      → Arrives e c (Delivered arrivals) rollup_id a
  arrival-Arrives arrivals rollup_id (delivered body) h = h
  arrival-Arrives arrivals rollup_id closed h = tt
  arrival-Arrives arrivals rollup_id done h = tt

  PassedOn-HasOrigin :
      (arrivals : ℕ → List (Arrival e c)) (d : BlockData e)
      → PassedOn arrivals d
      → HasOrigin e c (Delivered arrivals) d
  PassedOn-HasOrigin arrivals d (rollup_id, among) =
      among-All (HasOrigin e c (Delivered arrivals)) d
        (listen e c rollup_id (arrivals rollup_id) new_listener).received_blocks
        (listen-HasOrigin e c (Delivered arrivals) rollup_id (arrivals rollup_id) new_listener
          (All-Among (Arrives e c (Delivered arrivals) rollup_id) (arrivals rollup_id)
            (arrival-Arrives arrivals rollup_id))
          tt)
        among

  module _ (b : Bls) (signer : Signer b) (Heard : ℕ → e.Header → Type 0) where
    Admits-mono :
        (arrivals : ℕ → List (Arrival e c)) (event : Event e b signer)
        → Admits e b signer Heard (PassedOn arrivals) event
        → Admits e b signer Heard (HasOrigin e c (Delivered arrivals)) event
    Admits-mono arrivals (header rollup_id h) k = k
    Admits-mono arrivals (mq_block d) k = PassedOn-HasOrigin arrivals d k
    Admits-mono arrivals (mq_timeout id) k = tt
    Admits-mono arrivals (mq_found id) k = tt
    Admits-mono arrivals (context_done id) k = tt

    -- Where the attestor is notified only of blocks that the queues' goroutines pass on, then
    -- whatever the queues deliver and in whatever order all comes, a message that it signs and
    -- sends stands for a header that was heard, and its data availability fields are zeros, or the
    -- transaction of a message that was delivered to the queue of its rollup and the commitment of
    -- a blob in it, where the blob holds a block of the header's height and state root.
    pub signed_roots_from_queues :
        (arrivals : ℕ → List (Arrival e c)) (events : List (Event e b signer))
        → All (Admits e b signer Heard (PassedOn arrivals)) events
        → All
            (IsFaithful e b signer Heard (HasOrigin e c (Delivered arrivals)))
            (run e b signer events (new_attestor e b signer)).signed_roots
    signed_roots_from_queues arrivals events k =
        signed_roots-IsFaithful e b signer Heard (HasOrigin e c (Delivered arrivals)) events (
          All-mono (Admits e b signer Heard (PassedOn arrivals))
            (Admits e b signer Heard (HasOrigin e c (Delivered arrivals))) (Admits-mono arrivals)
            events k)
