-- ===== src/Examples/ServiceRuns.antt =====
-- The service of aggregator/blsagg/message_blsagg.go.
use near_sffl.Prelude.{◌≡◌, refl, List, [], ◌∷◌, none, some, ok, err}
use near_sffl.Dict.{lookup}
use near_sffl.Errors.{message_not_found, incorrect_signature, external}
use near_sffl.Blsagg.Stake.{validate_quorum_threshold_percentages}
use near_sffl.Blsagg.Digest.{SignedMessage, handle_signed_message_digest, verify_signature}
use near_sffl.Blsagg.Collector.{signed, reply, step}
use near_sffl.Blsagg.Collector.Refusal.{refused_changes_nothing, replies-step_refused}
use near_sffl.Blsagg.Service.{
  Chain, Service, read_by, delivered, blocked, fetch_validation_info, block_to_ask,
  initialize_message_if_not_exists, process_new_signature, expire,
}
use near_sffl.Blsagg.Service.Lifecycle.{
  Call, calls, process, time_out, failed_fetch_wedges_message, expired_message_is_gone,
}
use near_sffl.Examples.Setting.{bls, numbers, operator_one, operator_two, get_indices, collector}

abbrev failing : Chain bls
failing = record {
  block_number = ok 12;
  get_operators_avs_state = λ quorums block. err (external 1);
  get_quorums_avs_state = λ quorums block. err (external 1);
}

abbrev pub answering : Chain bls
answering = record {
  block_number = ok 12;
  get_operators_avs_state = λ quorums block. ok ((1, operator_one) ∷ (2, operator_two) ∷ []);
  get_quorums_avs_state =
      λ quorums block. ok ((0, record { total_stake = 100; agg_pubkey_g1 = some 8 }) ∷ []);
}

abbrev some_calls : List (Call bls numbers)
some_calls = process get_indices 7 321 1 ∷ time_out get_indices 7 ∷ []

failed_fetch_wedges_message_example :
    let (s', result) =
      initialize_message_if_not_exists bls numbers failing 7 (0 ∷ []) (66 ∷ []) 0 [] in
    let end = calls bls numbers some_calls s' in
    (result ≡ err (external 1))
    × ((process_new_signature bls numbers get_indices none 7 321 1 end).1 ≡ blocked)
    × (initialize_message_if_not_exists bls numbers answering 7 (0 ∷ []) (66 ∷ []) 0 end
        ≡ (end, ok tt))
unfolding lookup validate_quorum_threshold_percentages fetch_validation_info block_to_ask
failed_fetch_wedges_message_example =
    failed_fetch_wedges_message bls numbers failing answering 7 (0 ∷ []) (66 ∷ []) (0 ∷ [])
      (66 ∷ []) 0 0 107 (external 1) [] some_calls get_indices 321 1 refl refl refl refl refl

abbrev running : Service bls numbers
running = (7, read_by collector) ∷ []

-- Operator 1 signs another digest.
abbrev forged : SignedMessage bls numbers
forged = record { message = 7; message_digest = 107; bls_signature = 322; operator_id = 1 }

refused : handle_signed_message_digest bls numbers forged collector.info ≡ err incorrect_signature
unfolding lookup handle_signed_message_digest verify_signature
refused = refl

refused_changes_nothing_example :
    step bls numbers collector (signed forged get_indices)
    ≡ reply bls numbers collector (some incorrect_signature)
refused_changes_nothing_example =
    refused_changes_nothing bls numbers collector forged get_indices incorrect_signature (
      replies-step_refused bls numbers collector forged get_indices incorrect_signature refl
        refused)

expired_message_is_gone_example :
    let s' = expire bls numbers get_indices 7 running in
    (lookup 7 s' ≡ none)
    × (process_new_signature bls numbers get_indices none 7 321 1 s'
        ≡ (s', delivered (some (message_not_found 7))))
unfolding lookup
expired_message_is_gone_example =
    expired_message_is_gone bls numbers get_indices get_indices none 7 321 1 collector running refl
      refl
