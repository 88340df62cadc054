-- ===== src/Blsagg/Response.antt =====
-- `getMessageBlsAggregationResponse` of aggregator/blsagg/message_blsagg.go. The chain's answer to
-- `GetCheckSignaturesIndices` is an argument, since it may differ from call to call.
pub mod Answer
use near_sffl.Prelude.{
  ℕ, ◌%◌, ◌^◌, List, [], ◌∷◌, map, Bool, true, false, Option, none, some, if◌then◌else◌, ltb, ◌||◌,
  Outcome, ok, err, abort,
}
use near_sffl.Dict.{Dict, lookup, has}
use near_sffl.Errors.{Error, message_not_found}
use near_sffl.Interface.{Bls, MessageType}
use near_sffl.Messages.Aggregation.{MessageBlsAggregation, default_aggregation}
use near_sffl.Blsagg.Stake.{Status, none_status, full_stake_threshold_met}
use near_sffl.Blsagg.Digest.{
  OperatorAvsState, AggregatedOperators, ValidationInfo, get_message_bls_aggregation_status,
}

-- MessageBlsAggregationServiceResponse
pub record Response (b : Bls) (t : MessageType) : Type 0 where
  pub aggregation : MessageBlsAggregation b
  pub message_key : ℕ
  pub message : Option t.Message
  pub status : Status
  pub finished : Bool
  pub error : Option Error

-- The result of `GetCheckSignaturesIndices`.
pub record CheckSignaturesIndices : Type 0 where
  pub non_signer_quorum_bitmap_indices : List ℕ
  pub quorum_apk_indices : List ℕ
  pub total_stake_indices : List ℕ
  pub non_signer_stake_indices : List (List ℕ)

-- By block, quorum numbers and the operators that did not sign.
abbrev pub GetIndices : Type 0
GetIndices = ℕ → List ℕ → List ℕ → Outcome Error CheckSignaturesIndices

-- The operators that are not in the set, in the order in which the map is visited.
unfoldable pub non_signers {ℓ} : {V : Type ℓ} → Dict V → Dict Bool → List ℕ
non_signers [] signers = []
non_signers ((id, s) ∷ ops) signers =
    let rest = non_signers ops signers in if has id signers then rest else id ∷ rest

unfoldable pub insert_sorted : ℕ → List ℕ → List ℕ
insert_sorted a [] = a ∷ []
insert_sorted a (x ∷ xs) = if ltb x a then x ∷ insert_sorted a xs else a ∷ x ∷ xs

-- `sort.SliceStable` by the number that an id's bytes stand for.
unfoldable pub sort_ids : List ℕ → List ℕ
unfolding insert_sorted
sort_ids [] = []
sort_ids (x ∷ xs) = insert_sorted x (sort_ids xs)

module _ (b : Bls) (t : MessageType) where
  unfoldable pub error_response : t.Message → ℕ → ValidationInfo b → Bool → Error → Response b t
  error_response m digest info force_finished e = record {
    aggregation = default_aggregation b digest info.eth_block_number;
    message_key = t.key m;
    message = some m;
    status = none_status;
    finished = force_finished;
    error = some e;
  }

  abbrev pub g1_pubkey_of : Dict (OperatorAvsState b) → ℕ → Option b.G1
  g1_pubkey_of ops id = elim (lookup id ops) [ none ↦ none | some s ↦ s.g1_pubkey ]

  abbrev pub is_full : Status → Bool
  is_full full_stake_threshold_met = true
  is_full _ = false

  -- The key and the signature are the values that the entry's pointers have now.
  unfoldable pub full_response :
      t.Message
      → ℕ
      → ValidationInfo b
      → Bool
      → AggregatedOperators b
      → List ℕ
      → Status
      → CheckSignaturesIndices
      → Response b t
  full_response m digest info force_finished entry ids status indices = record {
    aggregation = record {
      eth_block_number = info.eth_block_number;
      message_digest = digest;
      non_signers_pubkeys_g1 = map (g1_pubkey_of info.operators_avs_state) ids;
      quorum_apks_g1 = info.quorum_apks_g1;
      signers_apk_g2 = some entry.signers_apk_g2;
      signers_agg_sig_g1 = some entry.signers_agg_sig_g1;
      non_signer_quorum_bitmap_indices = indices.non_signer_quorum_bitmap_indices;
      quorum_apk_indices = indices.quorum_apk_indices;
      total_stake_indices = indices.total_stake_indices;
      non_signer_stake_indices = indices.non_signer_stake_indices;
    };
    message_key = t.key m;
    message = some m;
    status = status;
    finished = is_full status || force_finished;
    error = none;
  }

  -- The part behind the status: the non-signers and the indices that the chain gives for them.
  unfoldable pub response_with_status :
      GetIndices
      → t.Message
      → ℕ
      → ValidationInfo b
      → Bool
      → AggregatedOperators b
      → Status
      → Outcome Error (Response b t)
  unfolding error_response full_response
  response_with_status get_indices m digest info force_finished entry status =
      let ids = sort_ids (non_signers info.operators_avs_state entry.signers_operator_ids_set) in
      elim (get_indices (info.eth_block_number % 2 ^ 32) info.quorum_numbers ids) [
        | ok indices ↦ ok (full_response m digest info force_finished entry ids status indices)
        | err e ↦ ok (error_response m digest info force_finished e)
        | abort ↦ abort
      ]

  unfoldable pub get_message_bls_aggregation_response :
      GetIndices → t.Message → ℕ → ValidationInfo b → Bool → Outcome Error (Response b t)
  unfolding response_with_status
  get_message_bls_aggregation_response get_indices m digest info force_finished =
      elim (lookup digest info.aggregated_operators) [
        | none ↦ ok (error_response m digest info force_finished (message_not_found digest))
        | some entry ↦ elim (get_message_bls_aggregation_status b digest info) [
          | ok status ↦ response_with_status get_indices m digest info force_finished entry status
          | err e ↦ ok (error_response m digest info force_finished e)
          | abort ↦ abort
        ]
      ]
