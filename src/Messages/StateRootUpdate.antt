-- ===== src/Messages/StateRootUpdate.antt =====
-- core/types/messages/state_root_update.go
use near_sffl.Prelude.{ℕ, List, Bool, Option, none, some, not, ◌&&◌, ◌==◌}
use near_sffl.Errors.{Error, message_nil, signature_point_nil}
use near_sffl.Interface.{Bls}
use near_sffl.Messages.Bytes.{put_uint32, put_uint64, write_at, zero_key, be_number}

pub record StateRootUpdateMessage : Type 0 where
  pub rollup_id : ℕ  -- uint32
  pub block_height : ℕ  -- uint64
  pub timestamp : ℕ  -- uint64
  pub near_da_transaction_id : ℕ
  pub near_da_commitment : ℕ
  pub state_root : ℕ

-- `bls.Signature` holds a pointer to its point.
pub record SignedStateRootUpdateMessage (b : Bls) : Type 0 where
  pub message : StateRootUpdateMessage
  pub bls_signature : Option b.Signature
  pub operator_id : ℕ

module _ (b : Bls) where
  -- `IsValid` of a pointer to a signed message.
  unfoldable pub is_valid : Option (SignedStateRootUpdateMessage b) → Option Error
  is_valid none = some message_nil
  is_valid (some s) = elim s.bls_signature [ none ↦ some signature_point_nil | some p ↦ none ]

unfoldable pub key_bytes : StateRootUpdateMessage → List ℕ
unfolding write_at put_uint32 put_uint64
key_bytes msg =
    write_at 24 (put_uint64 msg.block_height) (write_at 20 (put_uint32 msg.rollup_id) zero_key)

-- `Key`, as the number that its bytes stand for.
unfoldable pub key : StateRootUpdateMessage → ℕ
unfolding key_bytes be_number
key msg = be_number (key_bytes msg)

unfoldable pub has_near_da_commitment : StateRootUpdateMessage → Bool
has_near_da_commitment msg =
    not (msg.near_da_commitment == 0) && not (msg.near_da_transaction_id == 0)
