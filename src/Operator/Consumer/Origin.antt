-- ===== src/Operator/Consumer/Origin.antt =====
-- Where the blocks come from that operator/consumer/queues_listener.go passes on.
use near_sffl.Prelude.{
  ℕ, ◌≡◌, refl, sym, inl, inr, List, [], ◌∷◌, All, All-append, All-mono, All-Among, Among, ok,
  Outcome-cases,
}
use mathlib.Core.Path.{subst}
use near_sffl.Interface.{Eth}
use near_sffl.Operator.Attestor.{BlockData}
use near_sffl.Operator.Consumer.{
  Blob, PublishPayload, Codec, Arrival, delivered, closed, done, Listener, remove, block_data,
  send_blobs, handle_delivery, listen,
}

module _ (e : Eth) (c : Codec e) where
  -- The block stands in a blob of the submission, with that blob's commitment.
  abbrev pub StandsIn : BlockData e → Blob c.Bytes → Type 0
  StandsIn d blob =
      (d.commitment ≡ blob.commitment)
      × ((blocks : List e.Block) × (c.decode_blocks blob.contents ≡ ok blocks)
          × Among d.block blocks)

  module _ (Delivered : ℕ → c.Bytes → Type 0) where
    -- A message that was delivered to the queue of the block's rollup holds it.
    abbrev pub HasOrigin : BlockData e → Type 0
    HasOrigin d =
        (body : c.Bytes) × (payload : PublishPayload c.Bytes) × (blobs : List (Blob c.Bytes))
        × (blob : Blob c.Bytes) × Delivered d.rollup_id body
        × (c.publish_payload body ≡ ok payload)
        × (c.submit_request payload.contents ≡ ok blobs)
        × (d.transaction_id ≡ payload.transaction_id)
        × Among blob blobs
        × StandsIn d blob

    abbrev Tagged : ℕ → ℕ → BlockData e → Type 0
    Tagged rollup_id transaction_id d =
        (d.rollup_id ≡ rollup_id) × (d.transaction_id ≡ transaction_id)

    block_data_lem :
        (rollup_id transaction_id : ℕ) (blob : Blob c.Bytes) (blocks : List e.Block)
        (In : e.Block → Type 0)
        → All In blocks
        → All
            (λ d. Tagged rollup_id transaction_id d × (d.commitment ≡ blob.commitment) × In d.block)
            (block_data e c rollup_id transaction_id blob.commitment blocks)
    unfolding block_data
    block_data_lem rollup_id transaction_id blob [] In h = tt
    block_data_lem rollup_id transaction_id blob (block ∷ blocks) In (p, ps) =
        (((refl, refl), refl, p), block_data_lem rollup_id transaction_id blob blocks In ps)

    send_blobs_lem :
        (rollup_id transaction_id : ℕ) (blobs : List (Blob c.Bytes))
        → All
            (λ d.
              Tagged rollup_id transaction_id d
              × ((blob : Blob c.Bytes) × Among blob blobs × StandsIn d blob))
            (send_blobs e c rollup_id transaction_id blobs)
    unfolding send_blobs
    send_blobs_lem rollup_id transaction_id [] = tt
    send_blobs_lem rollup_id transaction_id (blob ∷ blobs) =
        let Found = λ (d : BlockData e).
          Tagged rollup_id transaction_id d
          × ((other : Blob c.Bytes) × Among other (blob ∷ blobs) × StandsIn d other) in
        let rest : All Found (send_blobs e c rollup_id transaction_id blobs) =
          All-mono _ Found (λ d found. (found.0, (found.1.0, inr found.1.1, found.1.2)))
            (send_blobs e c rollup_id transaction_id blobs)
            (send_blobs_lem rollup_id transaction_id blobs) in
        elim (Outcome-cases (c.decode_blocks blob.contents)) [
          | inl (blocks, p) ↦
              rw (p, send_blobs)
                (All-append Found (block_data e c rollup_id transaction_id blob.commitment blocks)
                  (send_blobs e c rollup_id transaction_id blobs)
                  (All-mono _ Found
                    (λ d found. (found.0, (blob, inl refl, (found.1, (blocks, p, found.2)))))
                    (block_data e c rollup_id transaction_id blob.commitment blocks)
                    (block_data_lem rollup_id transaction_id blob blocks
                      (λ block. Among block blocks)
                      (All-Among (λ block. Among block blocks) blocks (λ block a. a))))
                  rest)
          | inr (inl (x, p)) ↦ rw (p, send_blobs) rest
          | inr (inr p) ↦ rw (p, send_blobs) rest
        ]

    handle_delivery-HasOrigin :
        (rollup_id : ℕ) (body : c.Bytes)
        → Delivered rollup_id body
        → All HasOrigin (handle_delivery e c rollup_id body).0
    unfolding handle_delivery
    handle_delivery-HasOrigin rollup_id body h = elim (Outcome-cases (c.publish_payload body)) [
      | inl (payload, p) ↦ elim (Outcome-cases (c.submit_request payload.contents)) [
        | inl (blobs, q) ↦
            rw (p, q, handle_delivery)
              (All-mono _ HasOrigin
                (λ d found. (
                  body,
                  payload,
                  blobs,
                  found.1.0,
                  subst (λ r. Delivered r body) (sym found.0.0) h,
                  p,
                  q,
                  found.0.1,
                  found.1.1,
                  found.1.2,
                ))
                (send_blobs e c rollup_id payload.transaction_id blobs)
                (send_blobs_lem rollup_id payload.transaction_id blobs))
        | inr (inl (x, q)) ↦ rw (p, q, handle_delivery) tt
        | inr (inr q) ↦ rw (p, q, handle_delivery) tt
      ]
      | inr (inl (x, p)) ↦ rw (p, handle_delivery) tt
      | inr (inr p) ↦ rw (p, handle_delivery) tt
    ]

    -- What RabbitMQ brings to a queue.
    abbrev pub Arrives : ℕ → Arrival e c → Type 0
    Arrives rollup_id (delivered body) = Delivered rollup_id body
    Arrives rollup_id closed = Unit
    Arrives rollup_id done = Unit

    -- Whatever a queue brings, broken messages and broken blobs among it: each block that its
    -- goroutine passes on stands in a blob of a message that was delivered to that rollup's queue,
    -- and carries the transaction of that message and the commitment of that blob.
    pub listen-HasOrigin :
        (rollup_id : ℕ) (arrivals : List (Arrival e c)) (l : Listener e c)
        → All (Arrives rollup_id) arrivals
        → All HasOrigin l.received_blocks
        → All HasOrigin (listen e c rollup_id arrivals l).received_blocks
    unfolding listen remove
    listen-HasOrigin rollup_id [] l k h = h
    listen-HasOrigin rollup_id (delivered body ∷ arrivals) l (k, ks) h =
        listen-HasOrigin rollup_id arrivals _ ks (
          All-append HasOrigin l.received_blocks (handle_delivery e c rollup_id body).0 h
            (handle_delivery-HasOrigin rollup_id body k))
    listen-HasOrigin rollup_id (closed ∷ arrivals) l k h = h
    listen-HasOrigin rollup_id (done ∷ arrivals) l k h = h
