-- ===== src/Operator/Consumer.antt =====
-- operator/consumer: the messages of the data availability queues, as they come from RabbitMQ, are
-- taken apart into blocks (queues_listener.go).
pub mod Origin
pub mod Attested
use near_sffl.Prelude.{ℕ, List, [], ◌∷◌, ◌++◌, Option, none, some, if◌then◌else◌, Outcome, ok}
use near_sffl.Dict.{Dict, insert, delete, has}
use near_sffl.Errors.{Error, queue_exists}
use near_sffl.Interface.{Eth}
use near_sffl.Operator.Attestor.{BlockData}

-- A submission's blob. Its namespace and share version are read by nobody.
pub record Blob (Bytes : Type 0) : Type 0 where
  pub commitment : ℕ
  pub contents : Bytes

pub record PublishPayload (Bytes : Type 0) : Type 0 where
  pub transaction_id : ℕ
  pub contents : Bytes

-- Borsh's reading of the two formats, of which the second comes down to its blobs, and RLP's of a
-- blob's blocks.
pub record Codec (e : Eth) : Type 1 where
  pub Bytes : Type 0
  pub publish_payload : Bytes → Outcome Error (PublishPayload Bytes)
  pub submit_request : Bytes → Outcome Error (List (Blob Bytes))
  pub decode_blocks : Bytes → Outcome Error (List e.Block)

-- What becomes of a delivery.
pub data Settlement : Type 0 where
  acked rejected : Settlement

module _ (e : Eth) (c : Codec e) where
  -- What a `select` of `listen` meets: a delivery's body, the channel's close, the context's end.
  pub data Arrival : Type 0 where
    delivered : c.Bytes → Arrival
    closed done : Arrival

  -- `queues` are the rollups with a channel; blocks and settlements come in the order of sending.
  pub record Listener : Type 0 where
    pub queues : Dict (Unit {0})
    pub received_blocks : List (BlockData e)
    pub settlements : List Settlement

  -- `Add`, before it starts `listen`.
  unfoldable pub add : ℕ → Listener → Listener × Option Error
  add rollup_id l =
      if has rollup_id l.queues
      then (l, some queue_exists)
      else (record l { queues = insert rollup_id tt l.queues }, none)

  unfoldable pub remove : ℕ → Listener → Listener
  remove rollup_id l = record l { queues = delete rollup_id l.queues }

  -- The loop over a blob's blocks.
  unfoldable pub block_data : ℕ → ℕ → ℕ → List e.Block → List (BlockData e)
  block_data rollup_id transaction_id commitment [] = []
  block_data rollup_id transaction_id commitment (block ∷ blocks) =
      record {
        rollup_id = rollup_id;
        transaction_id = transaction_id;
        commitment = commitment;
        block = block;
      }
      ∷ block_data rollup_id transaction_id commitment blocks

  -- The loop over the blobs, which goes past a blob that does not decode.
  unfoldable pub send_blobs : ℕ → ℕ → List (Blob c.Bytes) → List (BlockData e)
  unfolding block_data
  send_blobs rollup_id transaction_id [] = []
  send_blobs rollup_id transaction_id (blob ∷ blobs) =
      let rest = send_blobs rollup_id transaction_id blobs in
      elim (c.decode_blocks blob.contents) [
        | ok blocks ↦ block_data rollup_id transaction_id blob.commitment blocks ++ rest
        | _ ↦ rest
      ]

  -- A delivery's blocks and its settlement.
  unfoldable pub handle_delivery : ℕ → c.Bytes → List (BlockData e) × Settlement
  unfolding send_blobs
  handle_delivery rollup_id body = elim (c.publish_payload body) [
    | ok publish_payload ↦ elim (c.submit_request publish_payload.contents) [
      | ok blobs ↦ (send_blobs rollup_id publish_payload.transaction_id blobs, acked)
      | _ ↦ ([], rejected)
    ]
    | _ ↦ ([], rejected)
  ]

  -- The goroutine of a queue, until its channel closes or its context ends.
  unfoldable pub listen : ℕ → List Arrival → Listener → Listener
  unfolding handle_delivery remove
  listen rollup_id [] l = l
  listen rollup_id (delivered body ∷ arrivals) l =
      let (blocks, settlement) = handle_delivery rollup_id body in
      listen rollup_id arrivals (record l {
        received_blocks = l.received_blocks ++ blocks;
        settlements = l.settlements ++ settlement ∷ [];
      })
  listen rollup_id (closed ∷ arrivals) l = remove rollup_id l
  listen rollup_id (done ∷ arrivals) l = l
