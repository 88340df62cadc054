-- ===== src/Messages/CheckpointTask.antt =====
-- core/types/messages/checkpoint_task.go, but for its trees.
use near_sffl.Prelude.{ℕ, List, Option, none, some}
use near_sffl.Errors.{Error, message_nil, signature_point_nil}
use near_sffl.Interface.{Bls}
use near_sffl.Messages.Bytes.{put_uint32, write_at, zero_key, be_number, slice}

pub record CheckpointTaskResponse : Type 0 where
  pub reference_task_index : ℕ  -- uint32
  pub state_root_updates_root : ℕ
  pub operator_set_updates_root : ℕ

pub record SignedCheckpointTaskResponse (b : Bls) : Type 0 where
  pub task_response : CheckpointTaskResponse
  pub bls_signature : Option b.Signature
  pub operator_id : ℕ

module _ (b : Bls) where
  unfoldable pub is_valid : Option (SignedCheckpointTaskResponse b) → Option Error
  is_valid none = some message_nil
  is_valid (some s) = elim s.bls_signature [ none ↦ some signature_point_nil | some p ↦ none ]

unfoldable pub key_bytes : CheckpointTaskResponse → List ℕ
unfolding write_at put_uint32
key_bytes msg = write_at 28 (put_uint32 msg.reference_task_index) zero_key

unfoldable pub key : CheckpointTaskResponse → ℕ
unfolding key_bytes be_number
key msg = be_number (key_bytes msg)

-- CheckpointTaskResponseKeyToTaskIndex, of the key's bytes.
unfoldable pub key_to_task_index : List ℕ → ℕ
unfolding be_number
key_to_task_index bytes = be_number (slice 28 4 bytes)
