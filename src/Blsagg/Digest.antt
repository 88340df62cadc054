-- ===== src/Blsagg/Digest.antt =====
-- The aggregation of one message's signatures by digest, in aggregator/blsagg/message_blsagg.go.
--
-- Aliasing: the map `signersTotalStakePerQuorum` of a new entry is not a copy. It is the
-- `StakePerQuorum` map of the first signer, and later signatures add to it in place. So an entry
-- names the operator that owns its map, and the map itself stands in `operators_avs_state`.
pub mod Growth
pub mod Stakes
pub mod Replay
pub mod Equivocation
pub mod Sums
use near_sffl.Prelude.{
  ℕ, ◌+◌, List, [], ◌∷◌, Bool, true, Option, none, some, if◌then◌else◌, Outcome, ok, err, abort,
  or_err, or_abort, ◌>>=◌, ◌>>◌,
}
use near_sffl.Dict.{Dict, lookup, insert}
use near_sffl.Errors.{
  Error, message_not_found, operator_not_part, signature_verification, incorrect_signature,
}
use near_sffl.Interface.{Bls, MessageType}
use near_sffl.Blsagg.Stake.{
  Status, full_stake_threshold_met, threshold_not_reached, threshold_reached,
  check_if_stake_thresholds_met, check_if_full_stake_threshold_met,
}

-- eigentypes.OperatorAvsState, the fields that the service reads. A pointer is an option.
pub record OperatorAvsState (b : Bls) : Type 0 where
  pub g1_pubkey : Option b.G1
  pub g2_pubkey : Option b.G2
  pub stake_per_quorum : Dict ℕ

pub record AggregatedOperators (b : Bls) : Type 0 where
  pub signers_apk_g2 : b.G2
  pub signers_agg_sig_g1 : b.Signature
  -- The owner of the map `signersTotalStakePerQuorum`.
  pub signers_stake_owner : ℕ
  pub signers_operator_ids_set : Dict Bool

pub record SignedMessage (b : Bls) (t : MessageType) : Type 0 where
  pub message : t.Message
  pub message_digest : ℕ
  pub bls_signature : b.Signature
  pub operator_id : ℕ

-- signedMessageDigestValidationInfo
pub record ValidationInfo (b : Bls) : Type 0 where
  pub operators_avs_state : Dict (OperatorAvsState b)
  pub total_stake_per_quorum : Dict ℕ
  pub quorum_apks_g1 : List (Option b.G1)
  pub aggregated_operators : Dict (AggregatedOperators b)
  pub quorum_threshold_percentages : Dict ℕ
  pub quorum_numbers : List ℕ
  pub eth_block_number : ℕ

abbrev pub or_zero : Option ℕ → ℕ
or_zero none = 0
or_zero (some n) = n

-- The loop that adds an operator's stakes to the map of the entry. Where the operator owns that
-- map, both arguments are the same map: each key is visited once, and its value is read then.
unfoldable pub add_stakes : Dict ℕ → Dict ℕ → Dict ℕ
add_stakes m [] = m
add_stakes m ((q, stake) ∷ rest) = add_stakes (insert q (or_zero (lookup q m) + stake) m) rest

module _ (b : Bls) where
  -- The map `signersTotalStakePerQuorum` of an entry, as the operators' states hold it.
  abbrev pub stake_map : Dict (OperatorAvsState b) → ℕ → Dict ℕ
  stake_map ops owner = elim (lookup owner ops) [ none ↦ [] | some s ↦ s.stake_per_quorum ]

  -- Writes through the reference to the owner's map.
  abbrev pub set_stake_map : Dict (OperatorAvsState b) → ℕ → Dict ℕ → Dict (OperatorAvsState b)
  set_stake_map ops owner m = elim (lookup owner ops) [
    | none ↦ ops
    | some s ↦ insert owner (record s { stake_per_quorum = m }) ops
  ]

  unfoldable pub get_message_bls_aggregation_status : ℕ → ValidationInfo b → Outcome Error Status
  get_message_bls_aggregation_status digest info = do
    entry ← or_err (lookup digest info.aggregated_operators) (message_not_found digest)
    let signed = stake_map info.operators_avs_state entry.signers_stake_owner
    let total = info.total_stake_per_quorum
    full ← check_if_full_stake_threshold_met signed total
    let thresholds =
        check_if_stake_thresholds_met signed total info.quorum_threshold_percentages >>= λ met.
        ok (if met then threshold_reached else threshold_not_reached)
    if full then ok full_stake_threshold_met else thresholds

module _ (b : Bls) (t : MessageType) where
  unfoldable pub verify_signature :
      SignedMessage b t → Dict (OperatorAvsState b) → Outcome Error (Unit {0})
  verify_signature m ops = do
    state ← or_err (lookup m.operator_id ops) (operator_not_part m.operator_id m.message_digest)
    pubkey ← or_abort state.g2_pubkey
    elim (b.verify m.bls_signature pubkey m.message_digest) [
      | ok verified ↦ if verified then ok tt else err incorrect_signature
      | err _ ↦ err signature_verification
      | abort ↦ abort
    ]

  unfoldable pub first_signer : SignedMessage b t → b.G2 → AggregatedOperators b
  first_signer m pubkey = record {
    signers_apk_g2 = b.add_g2 b.zero_g2 pubkey;
    signers_agg_sig_g1 = m.bls_signature;
    signers_stake_owner = m.operator_id;
    signers_operator_ids_set = (m.operator_id, true) ∷ [];
  }

  unfoldable pub next_signer :
      SignedMessage b t → b.G2 → AggregatedOperators b → AggregatedOperators b
  next_signer m pubkey entry = record entry {
    signers_apk_g2 = b.add_g2 entry.signers_apk_g2 pubkey;
    signers_agg_sig_g1 = b.add_signature entry.signers_agg_sig_g1 m.bls_signature;
    signers_operator_ids_set = insert m.operator_id true entry.signers_operator_ids_set;
  }

  -- The part of `handleSignedMessageDigest` behind the signature check.
  unfoldable pub add_signer :
      SignedMessage b t → ℕ → OperatorAvsState b → b.G2 → ValidationInfo b → ValidationInfo b
  unfolding first_signer next_signer
  add_signer m digest state pubkey info = elim (lookup digest info.aggregated_operators) [
    | none ↦ record info {
      aggregated_operators = insert digest (first_signer m pubkey) info.aggregated_operators;
    }
    | some entry ↦ record info {
      operators_avs_state = set_stake_map b info.operators_avs_state entry.signers_stake_owner (
          add_stakes (stake_map b info.operators_avs_state entry.signers_stake_owner)
            state.stake_per_quorum);
      aggregated_operators = insert digest (next_signer m pubkey entry) info.aggregated_operators;
    }
  ]

  unfoldable pub handle_signed_message_digest :
      SignedMessage b t → ValidationInfo b → Outcome Error (ValidationInfo b)
  unfolding verify_signature add_signer
  handle_signed_message_digest m info = do
    verify_signature m info.operators_avs_state
    digest ← t.digest m.message
    state ← or_abort (lookup m.operator_id info.operators_avs_state)
    pubkey ← or_abort state.g2_pubkey
    ok (add_signer m digest state pubkey info)
