-- ===== src/Examples/CheckpointRuns.antt =====
-- The theorems about checkpoints and their trees (core/smt, core/types/messages, operator) at small
-- inputs.
use mathlib.Core.Path.{fun_ext}
use near_sffl.Prelude.{
  ℕ, ◌+◌, ◌*◌, ◌≡◌, refl, ap, ◌∙◌, List, [], ◌∷◌, Option, none, some, arith, All, Among, Outcome,
  ok, err, ok-injective, ◌==◌, if◌then◌else◌,
}
use near_sffl.Errors.{Error, external}
use near_sffl.Smt.{Trie, IsByContent, format_bit_mask}
use near_sffl.Smt.BitMask.{test_bit, bit_at, bits_of, format_bit_mask_lem}
use near_sffl.Messages.Bytes.{be_number}
use near_sffl.Messages.StateRootUpdate as StateRootUpdate
use near_sffl.Messages.StateRootUpdate.{StateRootUpdateMessage}
use near_sffl.Messages.CheckpointTask.{CheckpointTaskResponse}
use near_sffl.Messages.CheckpointMessages.{
  CheckpointMessages, Digests, new_checkpoint_task_response_from_messages,
}
use near_sffl.Messages.CheckpointMessages.Order.{same, swap, response-Reordered}
use near_sffl.Operator.Tasks.{
  Keys, Event, operator_set_update, checkpoint_task_created, context_done, start_loop,
}
use near_sffl.Operator.Tasks.Justified.{IsJustified, sent-IsJustified}
use near_sffl.Examples.Setting.{bls}

-- A tree is a map from keys, and its root tells what it holds at 5 and 6.
abbrev write : ℕ → ℕ → (ℕ → Option ℕ) → ℕ → Option ℕ
write k v t j = if k == j then some v else t j

abbrev or_zero : Option ℕ → ℕ
or_zero none = 0
or_zero (some n) = n

abbrev trie : Trie
trie = record {
  Tree = ℕ → Option ℕ;
  empty = λ j. none;
  update = λ k v t. ok (write k v t);
  commit = λ t. ok t;
  root = λ t. or_zero (t 5) * 100 + or_zero (t 6);
}

write_comm :
    (k j v w : ℕ) (t : ℕ → Option ℕ) → ¬ (k ≡ j) → write k v (write j w t) ≡ write j w (write k v t)
write_comm k j v w t h = fun_ext (λ i. ground arith)

trie_update_comm :
    (k j v w : ℕ) (t t1 t2 : ℕ → Option ℕ)
    → ¬ (k ≡ j)
    → ◌≡◌ {A = Outcome Error (ℕ → Option ℕ)} (ok (write k v t)) (ok t1)
    → ◌≡◌ {A = Outcome Error (ℕ → Option ℕ)} (ok (write j w t1)) (ok t2)
    → (s : ℕ → Option ℕ) × (◌≡◌ {A = Outcome Error (ℕ → Option ℕ)} (ok (write j w t)) (ok s))
      × (◌≡◌ {A = Outcome Error (ℕ → Option ℕ)} (ok (write k v s)) (ok t2))
trie_update_comm k j v w t t1 t2 h p q = (
  write j w t,
  refl,
  ap ok (write_comm k j v w t h ∙ ap (write j w) (ok-injective (write k v t) t1 p)) ∙ q,
)

by_content : IsByContent trie
by_content = record { update_comm = trie_update_comm }

abbrev about : ℕ → StateRootUpdateMessage
about height = record {
  rollup_id = 0;
  block_height = height;
  timestamp = 1000;
  near_da_transaction_id = 0;
  near_da_commitment = 0;
  state_root = 40 + height;
}

abbrev digests : Digests bls
digests = record {
  state_root_update = λ m. ok m.state_root;
  operator_set_update = λ m. ok (m.id + 1);
}

abbrev of_updates : List StateRootUpdateMessage → CheckpointMessages bls
of_updates updates = record {
  state_root_update_messages = updates;
  state_root_update_message_aggregations = [];
  operator_set_update_messages = [];
  operator_set_update_message_aggregations = [];
}

abbrev response : CheckpointTaskResponse
response = record {
  reference_task_index = 3;
  state_root_updates_root = 4546;
  operator_set_updates_root = 0;
}

in_order :
    new_checkpoint_task_response_from_messages bls trie digests 3
      (of_updates (about 5 ∷ about 6 ∷ []))
    ≡ ok response
unfolding new_checkpoint_task_response_from_messages StateRootUpdate.key
in_order = refl

other_key : ¬ (StateRootUpdate.key (about 6) ≡ StateRootUpdate.key (about 5))
unfolding StateRootUpdate.key
other_key h = omega (arith, h)

response-Reordered_example :
    new_checkpoint_task_response_from_messages bls trie digests 3
      (of_updates (about 6 ∷ about 5 ∷ []))
    ≡ ok response
response-Reordered_example =
    response-Reordered trie by_content bls digests 3 (of_updates (about 5 ∷ about 6 ∷ []))
      (of_updates (about 6 ∷ about 5 ∷ [])) response (swap (about 5) (about 6) [] other_key)
      (same []) in_order

format_bit_mask_lem_example :
    test_bit (be_number (format_bit_mask (0x40 ∷ 0x01 ∷ []))) 15
    ≡ bit_at (bits_of (0x40 ∷ 0x01 ∷ [])) 15
format_bit_mask_lem_example = format_bit_mask_lem (0x40 ∷ 0x01 ∷ []) 15 (omega arith)

abbrev keys : Keys bls
keys = record {
  digests = digests;
  task_response_digest = λ r. ok (r.state_root_updates_root + 1);
  sign_message = λ d. d + 3;
  operator_id = 8;
}

-- The aggregator has messages of up to the time 1000 only.
abbrev get_messages : ℕ → ℕ → Outcome Error (CheckpointMessages bls)
get_messages from to =
    if to == 1000 then ok (of_updates (about 5 ∷ about 6 ∷ [])) else err (external 1)

abbrev events : List (Event bls)
events =
    checkpoint_task_created (record { task_index = 3; from_timestamp = 900; to_timestamp = 1000 })
      get_messages
    ∷ checkpoint_task_created (record { task_index = 4; from_timestamp = 900; to_timestamp = 2000 })
        get_messages
    ∷ operator_set_update (record { id = 2; timestamp = 950; operators = [] })
    ∷ context_done
    ∷ []

sent-IsJustified_example :
    All
      (IsJustified bls keys trie (λ event. Among event events))
      (start_loop bls keys trie events).0
sent-IsJustified_example = sent-IsJustified bls keys trie events
