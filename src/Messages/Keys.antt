-- ===== src/Messages/Keys.antt =====
-- The keys of the messages of core/types/messages tell them apart.
use near_sffl.Prelude.{◌+◌, ◌*◌, ◌^◌, ◌<◌, ◌≡◌, arith}
use near_sffl.Interface.{Bls}
use near_sffl.Messages.StateRootUpdate
use near_sffl.Messages.StateRootUpdate.{StateRootUpdateMessage}
use near_sffl.Messages.OperatorSetUpdate
use near_sffl.Messages.OperatorSetUpdate.{OperatorSetUpdateMessage}
use near_sffl.Messages.CheckpointTask
use near_sffl.Messages.CheckpointTask.{CheckpointTaskResponse}

-- The key of a state root update is its height below its rollup id, in 32 bytes.
state_root_key :
    (m : StateRootUpdateMessage)
    → m.rollup_id < 2 ^ 32
    → m.block_height < 2 ^ 64
    → StateRootUpdate.key m ≡ m.rollup_id * 2 ^ 64 + m.block_height
unfolding StateRootUpdate.key
state_root_key m h k = omega arith

operator_set_key :
    (b : Bls) (m : OperatorSetUpdateMessage b) → m.id < 2 ^ 64 → OperatorSetUpdate.key b m ≡ m.id
unfolding OperatorSetUpdate.key
operator_set_key b m h = omega arith

pub checkpoint_key :
    (r : CheckpointTaskResponse)
    → r.reference_task_index < 2 ^ 32
    → CheckpointTask.key r ≡ r.reference_task_index
unfolding CheckpointTask.key
checkpoint_key r h = omega arith

-- Two state root updates whose fields fit their types have one key only if they are about one
-- block of one rollup.
pub state_root_key_injective :
    (m n : StateRootUpdateMessage)
    → m.rollup_id < 2 ^ 32
    → m.block_height < 2 ^ 64
    → n.rollup_id < 2 ^ 32
    → n.block_height < 2 ^ 64
    → StateRootUpdate.key m ≡ StateRootUpdate.key n
    → (m.rollup_id ≡ n.rollup_id) × (m.block_height ≡ n.block_height)
state_root_key_injective m n a b c d e =
    omega (arith, e, state_root_key m a b, state_root_key n c d)

-- Two operator set updates whose ids fit their type have one key only if they have one id.
operator_set_key_injective :
    (b : Bls) (m n : OperatorSetUpdateMessage b)
    → m.id < 2 ^ 64
    → n.id < 2 ^ 64
    → OperatorSetUpdate.key b m ≡ OperatorSetUpdate.key b n
    → m.id ≡ n.id
operator_set_key_injective b m n h k e =
    omega (arith, e, operator_set_key b m h, operator_set_key b n k)

-- The bytes of a task's key give its index back.
pub key_to_task_index-key :
    (r : CheckpointTaskResponse)
    → r.reference_task_index < 2 ^ 32
    → CheckpointTask.key_to_task_index (CheckpointTask.key_bytes r) ≡ r.reference_task_index
unfolding CheckpointTask.key_bytes CheckpointTask.key_to_task_index
key_to_task_index-key r h = omega arith
