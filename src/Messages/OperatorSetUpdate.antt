-- ===== src/Messages/OperatorSetUpdate.antt =====
-- core/types/messages/operator_set_update.go
use near_sffl.Prelude.{ℕ, List, [], ◌∷◌, Option, none, some}
use near_sffl.Errors.{
  Error, message_nil, signature_point_nil, operator_pubkey_nil, operator_weight_nil,
}
use near_sffl.Interface.{Bls}
use near_sffl.Messages.Bytes.{put_uint64, write_at, zero_key, be_number}

-- coretypes.RollupOperator
pub record RollupOperator (b : Bls) : Type 0 where
  pub pubkey : Option b.G1
  pub weight : Option ℕ

pub record OperatorSetUpdateMessage (b : Bls) : Type 0 where
  pub id : ℕ  -- uint64
  pub timestamp : ℕ  -- uint64
  pub operators : List (RollupOperator b)

pub record SignedOperatorSetUpdateMessage (b : Bls) : Type 0 where
  pub message : OperatorSetUpdateMessage b
  pub bls_signature : Option b.Signature
  pub operator_id : ℕ

module _ (b : Bls) where
  -- The loop over the operators.
  unfoldable pub operators_valid : List (RollupOperator b) → Option Error
  operators_valid [] = none
  operators_valid (o ∷ os) = elim o.pubkey [
    | none ↦ some operator_pubkey_nil
    | some p ↦ elim o.weight [ none ↦ some operator_weight_nil | some w ↦ operators_valid os ]
  ]

  unfoldable pub is_valid : Option (SignedOperatorSetUpdateMessage b) → Option Error
  unfolding operators_valid
  is_valid none = some message_nil
  is_valid (some s) = elim s.bls_signature [
    | none ↦ some signature_point_nil
    | some p ↦ operators_valid s.message.operators
  ]

  unfoldable pub key_bytes : OperatorSetUpdateMessage b → List ℕ
  unfolding write_at put_uint64
  key_bytes msg = write_at 24 (put_uint64 msg.id) zero_key

  unfoldable pub key : OperatorSetUpdateMessage b → ℕ
  unfolding key_bytes be_number
  key msg = be_number (key_bytes msg)
