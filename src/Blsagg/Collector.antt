-- ===== src/Blsagg/Collector.antt =====
-- `singleMessageAggregatorGoroutineFunc` of aggregator/blsagg/message_blsagg.go, one step for each
-- round of its `select` loops. The schedule is a list of events: a signed message that a caller
-- hands over, or the timer. Each carries the chain's answers during that round.
pub mod Quorum
pub mod Rounds
pub mod Refusal
use near_sffl.Prelude.{
  Outcome, ℕ, List, [], ◌∷◌, ◌++◌, true, false, Option, none, some, ◌==◌, ok, err, abort,
}
use near_sffl.Errors.{Error, message_expired}
use near_sffl.Interface.{Bls, MessageType}
use near_sffl.Messages.Aggregation.{default_aggregation}
use near_sffl.Blsagg.Stake.{
  Status, none_status, full_stake_threshold_met, threshold_not_reached, threshold_reached,
}
use near_sffl.Blsagg.Digest.{ValidationInfo, SignedMessage, handle_signed_message_digest}
use near_sffl.Blsagg.Response.{Response, GetIndices, get_message_bls_aggregation_response}

-- Where the goroutine stands: in the first loop, in the second with the message that reached the
-- threshold and its digest, returned, or at the end of the process.
pub data Phase (t : MessageType) : Type 0 where
  pre_threshold : Phase t
  waits_for_full_stake : t.Message → ℕ → Phase t
  returned aborted : Phase t

pub record Collector (b : Bls) (t : MessageType) : Type 0 where
  pub message_key : ℕ
  pub info : ValidationInfo b
  pub phase : Phase t
  -- What was sent to `aggregatedResponsesC`, and the errors sent back to the signers.
  pub responses : List (Response b t)
  pub replies : List (Option Error)

pub data Event (b : Bls) (t : MessageType) : Type 0 where
  signed : SignedMessage b t → GetIndices → Event b t
  timer : GetIndices → Event b t

module _ (b : Bls) (t : MessageType) where
  abbrev pub reply : Collector b t → Option Error → Collector b t
  reply c e = record c { replies = c.replies ++ e ∷ [] }

  abbrev pub respond : Collector b t → Response b t → Collector b t
  respond c r = record c { responses = c.responses ++ r ∷ [] }

  -- The head of `handleSignedMessageThresholdReached`: the digest of the message, again.
  enter_threshold_reached : Collector b t → t.Message → Collector b t
  enter_threshold_reached c m = elim (t.digest m) [
    | ok digest ↦ record c { phase = waits_for_full_stake m digest }
    | err e ↦ record c { phase = aborted }
    | abort ↦ record c { phase = aborted }
  ]

  pub expired_response : Collector b t → Response b t
  expired_response c = record {
    aggregation = default_aggregation b 0 c.info.eth_block_number;
    message_key = c.message_key;
    message = none;
    status = none_status;
    finished = true;
    error = some message_expired;
  }

  -- What the first loop does with an aggregation of this status.
  after_pre_threshold : Collector b t → t.Message → Response b t → Status → Collector b t
  unfolding enter_threshold_reached
  after_pre_threshold c m r threshold_not_reached = c
  after_pre_threshold c m r threshold_reached = enter_threshold_reached (respond c r) m
  after_pre_threshold c m r full_stake_threshold_met = record (respond c r) { phase = returned }
  after_pre_threshold c m r none_status = respond c r

  answer_pre_threshold : Collector b t → t.Message → Outcome Error (Response b t) → Collector b t
  unfolding after_pre_threshold
  answer_pre_threshold c m (ok r) = after_pre_threshold c m r r.status
  answer_pre_threshold c m (err e) = record c { phase = aborted }
  answer_pre_threshold c m abort = record c { phase = aborted }

  -- A round of `handleSignedMessagePreThreshold`.
  unfoldable pub handle_signed_message_pre_threshold : Collector b t → Event b t → Collector b t
  unfolding answer_pre_threshold expired_response
  handle_signed_message_pre_threshold c (timer get_indices) =
      record (respond c (expired_response c)) { phase = returned }
  handle_signed_message_pre_threshold c (signed m get_indices) =
      elim (handle_signed_message_digest b t m c.info) [
        | err e ↦ reply c (some e)
        | abort ↦ record c { phase = aborted }
        | ok info ↦
            let c' = reply (record c { info = info }) none in
            answer_pre_threshold c' m.message (
              get_message_bls_aggregation_response b t get_indices m.message m.message_digest info
                false)
      ]

  after_threshold_reached : Collector b t → Response b t → Status → Collector b t
  after_threshold_reached c r full_stake_threshold_met = record (respond c r) { phase = returned }
  after_threshold_reached c r _ = respond c r

  answer_threshold_reached : Collector b t → Outcome Error (Response b t) → Collector b t
  unfolding after_threshold_reached
  answer_threshold_reached c (ok r) = after_threshold_reached c r r.status
  answer_threshold_reached c (err e) = record c { phase = aborted }
  answer_threshold_reached c abort = record c { phase = aborted }

  -- A round of `handleSignedMessageThresholdReached`.
  unfoldable pub handle_signed_message_threshold_reached :
      t.Message → ℕ → Collector b t → Event b t → Collector b t
  unfolding answer_threshold_reached
  handle_signed_message_threshold_reached message digest c (timer get_indices) =
      elim (get_message_bls_aggregation_response b t get_indices message digest c.info true) [
        | ok r ↦ record (respond c r) { phase = returned }
        | err e ↦ record c { phase = aborted }
        | abort ↦ record c { phase = aborted }
      ]
  handle_signed_message_threshold_reached message digest c (signed m get_indices) =
      elim (m.message_digest == digest) [
        | false ↦ reply c none
        | true ↦ elim (handle_signed_message_digest b t m c.info) [
          | err e ↦ reply c (some e)
          | abort ↦ record c { phase = aborted }
          | ok info ↦
              let c' = reply (record c { info = info }) none in
              answer_threshold_reached c' (
                get_message_bls_aggregation_response b t get_indices m.message m.message_digest info
                  false)
        ]
      ]

  dispatch : Phase t → Collector b t → Event b t → Collector b t
  unfolding handle_signed_message_pre_threshold handle_signed_message_threshold_reached
  dispatch pre_threshold c e = handle_signed_message_pre_threshold c e
  dispatch (waits_for_full_stake m digest) c e =
      handle_signed_message_threshold_reached m digest c e
  dispatch returned c e = c
  dispatch aborted c e = c

  unfoldable pub step : Collector b t → Event b t → Collector b t
  unfolding dispatch
  step c e = dispatch c.phase c e

  -- `singleMessageAggregatorGoroutineFunc`, over the events of its channels.
  unfoldable pub single_message_aggregator : Collector b t → List (Event b t) → Collector b t
  single_message_aggregator c [] = c
  single_message_aggregator c (e ∷ es) = single_message_aggregator (step c e) es
