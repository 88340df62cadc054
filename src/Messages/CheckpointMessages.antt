-- ===== src/Messages/CheckpointMessages.antt =====
-- core/types/messages/checkpoint_task.go: the messages of a checkpoint, and the task response that
-- their Merkle roots make.
pub mod Order
use near_sffl.Prelude.{ℕ, List, [], ◌∷◌, Outcome, ok, err, abort, ◌>>=◌}
use near_sffl.Errors.{Error}
use near_sffl.Interface.{Bls}
use near_sffl.Smt.{Trie, add_message}
use near_sffl.Messages.Aggregation.{MessageBlsAggregation}
use near_sffl.Messages.StateRootUpdate as StateRootUpdate
use near_sffl.Messages.StateRootUpdate.{StateRootUpdateMessage}
use near_sffl.Messages.OperatorSetUpdate as OperatorSetUpdate
use near_sffl.Messages.OperatorSetUpdate.{OperatorSetUpdateMessage}
use near_sffl.Messages.CheckpointTask.{CheckpointTaskResponse}

pub record CheckpointMessages (b : Bls) : Type 0 where
  pub state_root_update_messages : List StateRootUpdateMessage
  pub state_root_update_message_aggregations : List (MessageBlsAggregation b)
  pub operator_set_update_messages : List (OperatorSetUpdateMessage b)
  pub operator_set_update_message_aggregations : List (MessageBlsAggregation b)

-- `Digest` of the two kinds of messages, which rests on the ABI packer and Keccak-256.
pub record Digests (b : Bls) : Type 0 where
  pub state_root_update : StateRootUpdateMessage → Outcome Error ℕ
  pub operator_set_update : OperatorSetUpdateMessage b → Outcome Error ℕ

-- A loop that adds messages to a tree.
unfoldable pub add_messages :
    {Message : Type 0} (trie : Trie)
    → (Message → Outcome Error ℕ)
    → (Message → ℕ)
    → List Message
    → trie.Tree
    → Outcome Error trie.Tree
unfolding add_message
add_messages trie digest key [] t = ok t
add_messages trie digest key (msg ∷ msgs) t = do
  t' ← add_message trie (digest msg) (key msg) t
  add_messages trie digest key msgs t'

-- Such a loop from a new tree, with the `Commit` after it.
unfoldable pub committed :
    {Message : Type 0} (trie : Trie)
    → (Message → Outcome Error ℕ)
    → (Message → ℕ)
    → List Message
    → Outcome Error trie.Tree
unfolding add_messages
committed trie digest key msgs = do t ← add_messages trie digest key msgs trie.empty; trie.commit t

module _ (b : Bls) (trie : Trie) (digests : Digests b) where
  abbrev pub response_of : ℕ → trie.Tree → trie.Tree → CheckpointTaskResponse
  response_of task_index state_root_updates_smt operator_set_updates_smt = record {
    reference_task_index = task_index;
    state_root_updates_root = trie.root state_root_updates_smt;
    operator_set_updates_root = trie.root operator_set_updates_smt;
  }

  unfoldable pub new_checkpoint_task_response_from_messages :
      ℕ → CheckpointMessages b → Outcome Error CheckpointTaskResponse
  unfolding committed
  new_checkpoint_task_response_from_messages task_index messages = do
    state_root_updates_smt ←
        committed trie digests.state_root_update StateRootUpdate.key
          messages.state_root_update_messages
    operator_set_updates_smt ←
        committed trie digests.operator_set_update (OperatorSetUpdate.key b)
          messages.operator_set_update_messages
    ok (response_of task_index state_root_updates_smt operator_set_updates_smt)
