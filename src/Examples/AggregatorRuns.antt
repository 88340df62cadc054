-- ===== src/Examples/AggregatorRuns.antt =====
-- The aggregator's requests, answers and registries (aggregator/*.go).
use near_sffl.Prelude.{
  Option, ℕ, ◌+◌, ◌≡◌, ◌≤◌, ◌<◌, ◌⊎◌, ◌↔◌, refl, List, [], ◌∷◌, none, some, true, false, arith,
  if◌then◌else◌, ◌==◌, Outcome, ok, err, abort,
}
use near_sffl.Dict.{lookup, delete}
use near_sffl.Errors.{Error, external}
use near_sffl.Messages.StateRootUpdate.{StateRootUpdateMessage, SignedStateRootUpdateMessage}
use near_sffl.Messages.OperatorSetUpdate.{OperatorSetUpdateMessage, SignedOperatorSetUpdateMessage}
use near_sffl.Messages.CheckpointTask.{CheckpointTaskResponse, SignedCheckpointTaskResponse}
use near_sffl.Messages.CheckpointTask as Responses
use near_sffl.Messages.Aggregation.{default_aggregation}
use near_sffl.Blsagg.Stake.{none_status, full_stake_threshold_met}
use near_sffl.Blsagg.Response.{Response}
use near_sffl.Aggregator.Requests.{
  World, checkpoint_tasks, process_signed_state_root_update_message,
  process_signed_operator_set_update_message,
}
use near_sffl.Aggregator.Requests.Checks.{IsSigned, IsRefused, process_signed_message_lem}
use near_sffl.Aggregator.Quorums.{
  Effect, CheckpointTask, Tasks, next_timestamps, handle_operator_set_update_reached_quorum,
  send_aggregated_response_to_contract, contract_call,
}
use near_sffl.Aggregator.Quorums.Effects.{
  broadcasts, operator_set_update_broadcasts, next_timestamps_lem,
  send_aggregated_response_to_contract_lem,
}
use near_sffl.Aggregator.Operators.{
  Pubkeys, Registrations, Registration, pubkey_registered, socket_updated,
}
use near_sffl.Aggregator.Rollups.{Attempt, sent, update_attempt, update_operator_set}
use near_sffl.Aggregator.Rollups.Retries.{ComesFrom, update_operator_set_iff}
use near_sffl.Blsagg.Service.{delivered}
use near_sffl.Aggregator.RpcServer.{rpc_process_signed_operator_set_update_message}
use near_sffl.Aggregator.RpcServer.Validity.{IsComplete, incomplete_operator_set_update_refused}
use near_sffl.Examples.Setting.{bls, numbers, get_indices}
use near_sffl.Examples.ServiceRuns.{answering}

abbrev world : World bls
world = record {
  now = 1000;
  operator_key = λ id. if id == 1 then some 3 else none;
  chain = answering;
  get_indices = get_indices;
  get_operator_set_update_block = λ id. ok 12;
}

abbrev task_digest : CheckpointTaskResponse → Outcome Error ℕ
task_digest r = ok (r.reference_task_index + 100)

abbrev task_response : CheckpointTaskResponse
task_response = record {
  reference_task_index = 7;
  state_root_updates_root = 1;
  operator_set_updates_root = 2;
}

abbrev signed_task_response : SignedCheckpointTaskResponse bls
signed_task_response = record {
  task_response = task_response;
  bls_signature = some 321;
  operator_id = 1;
}

abbrev root_digest : StateRootUpdateMessage → Outcome Error ℕ
root_digest m = ok (m.block_height + 100)

abbrev set_digest : OperatorSetUpdateMessage bls → Outcome Error ℕ
set_digest m = ok (m.id + 100)

abbrev signed_root : SignedStateRootUpdateMessage bls
signed_root = record {
  message = record {
    rollup_id = 2;
    block_height = 7;
    timestamp = 950;
    near_da_transaction_id = 1;
    near_da_commitment = 1;
    state_root = 9;
  };
  bls_signature = some 321;
  operator_id = 1;
}

abbrev signed_set : SignedOperatorSetUpdateMessage bls
signed_set = record {
  message = record { id = 7; timestamp = 900; operators = [] };
  bls_signature = some 321;
  operator_id = 1;
}

process_signed_message_lem_example :
    let (s', d) = process_signed_state_root_update_message bls root_digest world signed_root [] in
    let (s_operators', d_operators) =
      process_signed_operator_set_update_message bls set_digest world signed_set [] in
    (((1000 ≤ 950 + 60) × IsSigned bls world (ok 107) (some 321) 1) ⊎ ((s' ≡ []) × IsRefused bls d))
    × (((1000 ≤ 900 + 60) × IsSigned bls world (ok 107) (some 321) 1)
        ⊎ ((s_operators' ≡ []) × IsRefused bls d_operators))
process_signed_message_lem_example =
    process_signed_message_lem bls root_digest set_digest world signed_root [] signed_set []

abbrev finished_response : Response bls numbers
finished_response = record {
  aggregation = default_aggregation bls 107 12;
  message_key = 7;
  message = some 7;
  status = full_stake_threshold_met;
  finished = true;
  error = none;
}

operator_set_update_broadcasts_example :
    let result =
      handle_operator_set_update_reached_quorum bls numbers none
        (some (external 1))
        finished_response in
    (((e : Error) × (finished_response.error ≡ some e)) × (result ≡ ok []))
    ⊎ ((finished_response.error ≡ none) × (finished_response.message ≡ none) × (result ≡ abort))
    ⊎ ((m : ℕ) × (effects : List (Effect bls numbers)) × (finished_response.error ≡ none)
        × (finished_response.message ≡ some m)
        × (result ≡ ok effects)
        × (broadcasts bls numbers effects ≡ (m, finished_response.aggregation) ∷ []))
operator_set_update_broadcasts_example =
    operator_set_update_broadcasts bls numbers none (some (external 1)) finished_response

next_timestamps_lem_example :
    ((next_timestamps 2000 1500 300).0 ≡ 1500 + 1)
    × ((next_timestamps 2000 1500 300).1 + 90 ≡ 2000)
    × (((next_timestamps 2000 1500 300).0 ≤ (next_timestamps 2000 1500 300).1) ↔ (1500 + 90 < 2000))
next_timestamps_lem_example =
    next_timestamps_lem 2000 1500 300 (omega arith) (omega arith) (omega arith) (omega arith)

abbrev task : CheckpointTask
task = record {
  task_created_block = 12;
  from_timestamp = 1;
  to_timestamp = 2;
  quorum_numbers = 0 ∷ [];
}

abbrev task_answer : Response bls (checkpoint_tasks task_digest)
task_answer = record {
  aggregation = default_aggregation bls 107 12;
  message_key = Responses.key task_response;
  message = some task_response;
  status = none_status;
  finished = true;
  error = some (external 1);
}

abbrev tasks : Tasks
tasks = (7, task) ∷ (8, task) ∷ []

send_aggregated_response_to_contract_lem_example :
    lookup 8 ((8, task) ∷ []) ≡ (if 7 == 8 then none else lookup 8 tasks)
unfolding send_aggregated_response_to_contract contract_call delete Responses.key
send_aggregated_response_to_contract_lem_example =
    send_aggregated_response_to_contract_lem bls task_digest task (ok 13) task_answer task_response
      tasks ((8, task) ∷ []) none 8 (omega arith) refl refl

abbrev keys_of : ℕ → Pubkeys bls
keys_of n = record { g1_pubkey = n; g2_pubkey = n }

abbrev at_start : Registrations bls
at_start = record {
  id_to_addr = (3, 40) ∷ [];
  addr_to_id = (40, 3) ∷ [];
  pubkeys_by_id = (3, keys_of 3) ∷ [];
  socket_by_id = (3, 0) ∷ [];
}

-- The operator with the key 3 comes back with the key 5 and a socket.
abbrev registrations : List (Registration bls (λ g. g))
registrations = pubkey_registered 40 (keys_of 5) ∷ socket_updated 5 99 ∷ []

-- The first attempt fails to send, the others do not.
abbrev attempts : ℕ → Attempt
attempts i = record {
  get_no_send_tx_opts = ok tt;
  next_operator_update_id = ok 6;
  assemble = ok tt;
  send = if i == 0 then err (external 1) else ok tt;
}

update_operator_set_iff_example :
    (update_operator_set 6 attempts (λ i. false) ≡ ok (sent 6))
    ↔ ComesFrom (λ i. update_attempt 6 (attempts i)) (λ i. false) 0 5 (sent 6)
update_operator_set_iff_example = update_operator_set_iff 6 attempts (λ i. false) (sent 6)

-- An operator has no weight.
abbrev incomplete : Option (SignedOperatorSetUpdateMessage bls)
incomplete = some (record signed_set {
  message = record {
    id = 7;
    timestamp = 900;
    operators = record { pubkey = some 3; weight = none } ∷ [];
  };
})

incomplete_operator_set_update_refused_example :
    IsComplete bls incomplete
    ⊎ ((e : Error) × (rpc_process_signed_operator_set_update_message bls set_digest world incomplete
            []
          ≡ ([], delivered (some e))))
incomplete_operator_set_update_refused_example =
    incomplete_operator_set_update_refused bls set_digest world incomplete []
