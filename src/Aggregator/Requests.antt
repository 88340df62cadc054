-- ===== src/Aggregator/Requests.antt =====
-- The signed messages that operators send to the aggregator (aggregator/aggregator.go). A BLS
-- service is as in Blsagg/Service; the answers of the chain, the clock and the registered operators
-- are arguments, and metrics are left out.
pub mod Checks
use near_sffl.Prelude.{
  ℕ, ◌+◌, ◌-◌, ◌%◌, ◌^◌, List, [], ◌∷◌, Bool, true, false, Option, none, some, ◌&&◌, ltb,
  if◌then◌else◌, Outcome, ok, err, abort, ◌>>=◌, ◌>>◌,
}
use near_sffl.Errors.{
  Error, digest_error, task_response_digest_error, get_operator_set_update_block_error,
  operator_not_found, invalid_signature, message_timeout,
}
use near_sffl.Interface.{Bls, MessageType}
use near_sffl.Messages.StateRootUpdate as StateRootUpdate
use near_sffl.Messages.OperatorSetUpdate as OperatorSetUpdate
use near_sffl.Messages.CheckpointTask as CheckpointTask
use near_sffl.Messages.StateRootUpdate.{StateRootUpdateMessage, SignedStateRootUpdateMessage}
use near_sffl.Messages.OperatorSetUpdate.{OperatorSetUpdateMessage, SignedOperatorSetUpdateMessage}
use near_sffl.Messages.CheckpointTask.{CheckpointTaskResponse, SignedCheckpointTaskResponse}
use near_sffl.Blsagg.Response.{GetIndices}
use near_sffl.Blsagg.Service.{
  Chain, Service, Delivery, delivered, process_ended, initialize_message_if_not_exists,
  process_new_signature,
}

abbrev pub quorum_numbers : List ℕ
quorum_numbers = 0 ∷ []

-- MESSAGE_AGGREGATION_QUORUM_THRESHOLD
abbrev pub message_thresholds : List ℕ
message_thresholds = 66 ∷ []

-- MESSAGE_SUBMISSION_TIMEOUT, in seconds.
abbrev pub message_submission_timeout : ℕ
message_submission_timeout = 60

-- The messages, with a digest that rests on the ABI packer and Keccak-256.
abbrev pub state_root_updates : (StateRootUpdateMessage → Outcome Error ℕ) → MessageType
state_root_updates digest = record {
  Message = StateRootUpdateMessage;
  digest = digest;
  key = StateRootUpdate.key;
}

abbrev pub operator_set_updates :
    (b : Bls) → (OperatorSetUpdateMessage b → Outcome Error ℕ) → MessageType
operator_set_updates b digest = record {
  Message = OperatorSetUpdateMessage b;
  digest = digest;
  key = OperatorSetUpdate.key b;
}

abbrev pub checkpoint_tasks : (CheckpointTaskResponse → Outcome Error ℕ) → MessageType
checkpoint_tasks digest = record {
  Message = CheckpointTaskResponse;
  digest = digest;
  key = CheckpointTask.key;
}

-- What stands around a request: `clock.Now().Unix()`, the G2 key of a registered operator
-- (`GetOperatorInfoById`), the chain.
pub record World (b : Bls) : Type 0 where
  pub now : ℕ
  pub operator_key : ℕ → Option b.G2
  pub chain : Chain b
  pub get_indices : GetIndices
  pub get_operator_set_update_block : ℕ → Outcome Error ℕ

unfoldable pub validate_message_timestamp : ℕ → ℕ → Outcome Error (Unit {0})
validate_message_timestamp now timestamp =
    if ltb message_submission_timeout now && ltb timestamp (now - message_submission_timeout)
    then err message_timeout
    else ok tt

-- `ok, err = signature.Verify(...)` and the two returns after it.
unfoldable pub signature_verdict : Outcome Error Bool → Outcome Error (Unit {0})
signature_verdict (ok true) = ok tt
signature_verdict (ok false) = err invalid_signature
signature_verdict (err e) = err invalid_signature
signature_verdict abort = abort

abbrev pub or_digest_error : Outcome Error ℕ → Error → Outcome Error ℕ
or_digest_error (ok d) e = ok d
or_digest_error (err f) e = err e
or_digest_error abort e = abort

module _ (b : Bls) where
  abbrev pub operator_key_or_error : Option b.G2 → Outcome Error b.G2
  operator_key_or_error none = err operator_not_found
  operator_key_or_error (some g) = ok g

  -- A signature without a point panics.
  abbrev pub verdict : Option b.Signature → b.G2 → ℕ → Outcome Error (Unit {0})
  unfolding signature_verdict
  verdict none g d = abort
  verdict (some s) g d = signature_verdict (b.verify s g d)

  -- verifySignature, for the three kinds of messages: by digest and its error.
  unfoldable pub verify_signature :
      World b → Outcome Error ℕ → Error → Option b.Signature → ℕ → Outcome Error (Unit {0})
  unfolding verdict
  verify_signature w digest digest_failure signature operator = do
    d ← or_digest_error digest digest_failure
    g ← operator_key_or_error (w.operator_key operator)
    verdict signature g d

  module _ (t : MessageType) where
    -- The end of a request: an error that came up, else what the BLS service gives.
    unfoldable pub submit :
        World b
        → t.Message
        → Option b.Signature
        → ℕ
        → Service b t × Outcome Error (Unit {0})
        → Service b t × Delivery
    submit w m signature operator (s, err e) = (s, delivered (some e))
    submit w m signature operator (s, abort) = (s, process_ended)
    submit w m none operator (s, ok _) = (s, process_ended)
    submit w m (some p) operator (s, ok _) =
        process_new_signature b t w.get_indices none m p operator s

    -- The checks, and the initialization of the message if they pass.
    abbrev pub initialize_if :
        Outcome Error (Unit {0})
        → (Service b t → Service b t × Outcome Error (Unit {0}))
        → Service b t
        → Service b t × Outcome Error (Unit {0})
    initialize_if (ok _) f s = f s
    initialize_if (err e) f s = (s, err e)
    initialize_if abort f s = (s, abort)

  unfoldable pub process_signed_checkpoint_task_response :
      (digest : CheckpointTaskResponse → Outcome Error ℕ)
      → World b
      → SignedCheckpointTaskResponse b
      → Service b (checkpoint_tasks digest)
      → Service b (checkpoint_tasks digest) × Delivery
  unfolding verify_signature submit
  process_signed_checkpoint_task_response digest w r s =
      let m = r.task_response in
      submit (checkpoint_tasks digest) w m r.bls_signature r.operator_id
        (s, verify_signature w (digest m) task_response_digest_error r.bls_signature r.operator_id)

  unfoldable pub process_signed_state_root_update_message :
      (digest : StateRootUpdateMessage → Outcome Error ℕ)
      → World b
      → SignedStateRootUpdateMessage b
      → Service b (state_root_updates digest)
      → Service b (state_root_updates digest) × Delivery
  unfolding validate_message_timestamp verify_signature submit
  process_signed_state_root_update_message digest w r s =
      let m = r.message in
      let t = state_root_updates digest in
      submit t w m r.bls_signature r.operator_id (
        initialize_if t
          (validate_message_timestamp w.now m.timestamp
            >> verify_signature w (digest m) digest_error r.bls_signature r.operator_id)
          (initialize_message_if_not_exists b t w.chain (t.key m) quorum_numbers message_thresholds
            0)
          s)

  -- The block to ask about is the one before the update, in uint64.
  abbrev pub initialize_at_update :
      (t : MessageType)
      → Outcome Error ℕ
      → (ℕ → Service b t → Service b t × Outcome Error (Unit {0}))
      → Service b t
      → Service b t × Outcome Error (Unit {0})
  initialize_at_update t (ok block) f s = f ((block + 2 ^ 64 - 1) % 2 ^ 64) s
  initialize_at_update t (err e) f s = (s, err get_operator_set_update_block_error)
  initialize_at_update t abort f s = (s, abort)

  unfoldable pub process_signed_operator_set_update_message :
      (digest : OperatorSetUpdateMessage b → Outcome Error ℕ)
      → World b
      → SignedOperatorSetUpdateMessage b
      → Service b (operator_set_updates b digest)
      → Service b (operator_set_updates b digest) × Delivery
  unfolding validate_message_timestamp verify_signature submit
  process_signed_operator_set_update_message digest w r s =
      let m = r.message in
      let t = operator_set_updates b digest in
      submit t w m r.bls_signature r.operator_id (
        initialize_if t
          (validate_message_timestamp w.now m.timestamp
            >> verify_signature w (digest m) digest_error r.bls_signature r.operator_id)
          (initialize_at_update t (w.get_operator_set_update_block m.id) (λ block.
            initialize_message_if_not_exists b t w.chain (t.key m) quorum_numbers message_thresholds
              block))
          s)
