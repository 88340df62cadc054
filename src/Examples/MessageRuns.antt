-- ===== src/Examples/MessageRuns.antt =====
-- Keys of messages (core/types/messages), and quorum thresholds (aggregator/blsagg).
use near_sffl.Messages.StateRootUpdate as StateRootUpdate
use near_sffl.Prelude.{◌≡◌, refl, [], arith}
use near_sffl.Messages.CheckpointTask as CheckpointTask
use near_sffl.Messages.StateRootUpdate.{StateRootUpdateMessage}
use near_sffl.Messages.OperatorSetUpdate.{OperatorSetUpdateMessage}
use near_sffl.Messages.CheckpointTask.{CheckpointTaskResponse}
use near_sffl.Messages.Keys.{state_root_key_injective, key_to_task_index-key}
use near_sffl.Examples.Setting.{bls}

abbrev early : StateRootUpdateMessage
early = record {
  rollup_id = 2;
  block_height = 300;
  timestamp = 1000;
  near_da_transaction_id = 1;
  near_da_commitment = 1;
  state_root = 77;
}

abbrev late : StateRootUpdateMessage
late = record early { timestamp = 2000; state_root = 78 }

abbrev update : OperatorSetUpdateMessage bls
update = record { id = 5; timestamp = 1000; operators = [] }

abbrev update_again : OperatorSetUpdateMessage bls
update_again = record update { timestamp = 2000 }

abbrev response : CheckpointTaskResponse
response = record {
  reference_task_index = 300;
  state_root_updates_root = 1;
  operator_set_updates_root = 2;
}

state_root_key_injective_example :
    (early.rollup_id ≡ late.rollup_id) × (early.block_height ≡ late.block_height)
unfolding StateRootUpdate.key
state_root_key_injective_example =
    state_root_key_injective early late (omega arith) (omega arith) (omega arith) (omega arith) refl

key_to_task_index-key_example :
    CheckpointTask.key_to_task_index (CheckpointTask.key_bytes response) ≡ 300
key_to_task_index-key_example = key_to_task_index-key response (omega arith)
