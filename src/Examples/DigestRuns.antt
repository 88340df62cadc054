-- ===== src/Examples/DigestRuns.antt =====
-- Signatures on one message (aggregator/blsagg/message_blsagg.go).
use near_sffl.Prelude.{◌+◌, ℕ, ◌≡◌, ◌≢◌, ◌≤◌, ◌⊎◌, refl, [], ◌∷◌, none, false, arith, All, ok}
use near_sffl.Dict.{lookup, has}
use near_sffl.Blsagg.Stake.{
  none_status, threshold_reached, check_if_full_stake_threshold_met, check_if_stake_thresholds_met,
}
use near_sffl.Blsagg.Digest.{
  SignedMessage, ValidationInfo, add_signer, get_message_bls_aggregation_status,
  handle_signed_message_digest,
}
use near_sffl.Blsagg.Digest.Growth.{DigestMeets, handle_signed_message_digest-DigestMeets}
use near_sffl.Blsagg.Digest.Stakes.{signed_stake}
use near_sffl.Blsagg.Digest.Equivocation.{other_digest_inherits_stake}
use near_sffl.Blsagg.Digest.Sums.{stakes_of, sign_all, signed_stake_is_sum}
use near_sffl.Blsagg.Digest.Replay.{resend, replay_reaches_any_stake}
use near_sffl.Blsagg.Response.{
  sort_ids, non_signers, Response, full_response, response_with_status,
  get_message_bls_aggregation_response,
}
use near_sffl.Blsagg.Response.Answer.{StatusMeans, response_means}
use near_sffl.Blsagg.Collector.{signed, single_message_aggregator}
use near_sffl.Blsagg.Collector.Quorum.{IsJustified, responses_reach_quorum}
use near_sffl.Examples.Setting.{
  bls, numbers, operator_one, operator_two, by_one, by_two, signed_by_one, entry_of_one, indices,
  get_indices, collector,
}

signed_by_one-DigestMeets : DigestMeets bls signed_by_one 107
unfolding lookup
signed_by_one-DigestMeets = (_, refl, ((70, 100, refl, refl, omega arith), tt))

abbrev signed_by_both : ValidationInfo bls
signed_by_both = add_signer bls numbers by_two 107 operator_two 5 signed_by_one

handle_signed_message_digest-DigestMeets_example : DigestMeets bls signed_by_both 107
unfolding handle_signed_message_digest lookup
handle_signed_message_digest-DigestMeets_example =
    handle_signed_message_digest-DigestMeets bls numbers by_two 107 signed_by_one signed_by_both
      refl signed_by_one-DigestMeets

replay_reaches_any_stake_example :
    (n : ℕ) × (info : ValidationInfo bls) × (resend bls numbers n by_one signed_by_one ≡ ok info)
    × (1000000 ≤ signed_stake bls info 107 0)
unfolding lookup has
replay_reaches_any_stake_example =
    replay_reaches_any_stake bls numbers by_one 107 refl signed_by_one 0 1000000
      (_, operator_one, 3, refl, refl, refl, refl, (refl, tt), refl) (omega arith)

abbrev answer : Response bls numbers
answer =
    full_response bls numbers 7 107 signed_by_one false entry_of_one (2 ∷ []) threshold_reached
      indices

response_means_example :
    ((answer.error ≡ none)
      × (answer.aggregation.message_digest ≡ 107)
      × StatusMeans bls signed_by_one 107 answer.status)
    ⊎ ((answer.error ≢ none) × (answer.status ≡ none_status))
unfolding lookup has get_message_bls_aggregation_response get_message_bls_aggregation_status
    response_with_status check_if_full_stake_threshold_met check_if_stake_thresholds_met sort_ids
    non_signers
response_means_example =
    response_means bls numbers get_indices 7 107 signed_by_one false answer refl

responses_reach_quorum_example :
    let end =
      single_message_aggregator bls numbers collector
        (signed by_one get_indices ∷ signed by_two get_indices ∷ []) in
    All (IsJustified bls numbers end.info) end.responses
responses_reach_quorum_example =
    responses_reach_quorum bls numbers collector
      (signed by_one get_indices ∷ signed by_two get_indices ∷ []) refl refl (refl, (refl, tt))

-- Operator 1 signs the digest of the message 8 too, under the same record of signatures.
abbrev other_by_one : SignedMessage bls numbers
other_by_one = record { message = 8; message_digest = 108; bls_signature = 324; operator_id = 1 }

abbrev signed_twice : ValidationInfo bls
signed_twice = add_signer bls numbers other_by_one 108 operator_one 3 signed_by_one

other_digest_inherits_stake_example :
    signed_stake bls signed_twice 108 0 ≡ signed_stake bls signed_by_one 107 0
unfolding lookup handle_signed_message_digest
other_digest_inherits_stake_example =
    other_digest_inherits_stake bls numbers other_by_one 107 108 0 signed_by_one signed_twice
      entry_of_one refl refl refl refl refl

signed_stake_is_sum_example :
    signed_stake bls signed_by_both 107 0
    ≡ signed_stake bls signed_by_one 107 0 + stakes_of bls numbers signed_by_one (by_two ∷ []) 0
unfolding lookup has sign_all handle_signed_message_digest
signed_stake_is_sum_example =
    signed_stake_is_sum bls numbers (by_two ∷ []) 107 1 0 signed_by_one signed_by_both
      (entry_of_one, operator_one, refl, refl, refl)
      ((refl, (λ e. omega (arith, e)), (refl, tt)), tt) refl
