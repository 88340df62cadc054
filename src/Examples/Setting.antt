-- ===== src/Examples/Setting.antt =====
-- A toy BLS library and a quorum of two operators, for the examples. A signature of a digest is
-- the product of the digest and the key.
use near_sffl.Prelude.{ℕ, ◌+◌, ◌*◌, [], ◌∷◌, true, some, ◌==◌, ok}
use near_sffl.Interface.{Bls, MessageType, Eth}
use near_sffl.Blsagg.Digest.{OperatorAvsState, AggregatedOperators, SignedMessage, ValidationInfo}
use near_sffl.Blsagg.Response.{GetIndices, CheckSignaturesIndices}
use near_sffl.Blsagg.Collector.{Collector, pre_threshold}

abbrev pub bls : Bls
bls = record {
  G1 = ℕ;
  G2 = ℕ;
  Signature = ℕ;
  zero_g2 = 0;
  add_g2 = λ x y. x + y;
  add_signature = λ x y. x + y;
  verify = λ signature key digest. ok (signature == digest * key);
}

-- A header is its number, time and root, and a block is its header.
abbrev pub eth : Eth
eth = record {
  Header = ℕ × ℕ × ℕ;
  Block = ℕ × ℕ × ℕ;
  number = λ h. h.0;
  time = λ h. h.1;
  root = λ h. h.2;
  header = λ block. block;
  new_block_with_header = λ h. h;
}

abbrev pub numbers : MessageType
numbers = record { Message = ℕ; digest = λ m. ok (m + 100); key = λ m. m }

-- Operator 1 has 70 of 100 of the stake, operator 2 has 30.
abbrev pub operator_one : OperatorAvsState bls
operator_one = record { g1_pubkey = some 3; g2_pubkey = some 3; stake_per_quorum = (0, 70) ∷ [] }

abbrev pub operator_two : OperatorAvsState bls
operator_two = record { g1_pubkey = some 5; g2_pubkey = some 5; stake_per_quorum = (0, 30) ∷ [] }

abbrev pub unsigned : ValidationInfo bls
unsigned = record {
  operators_avs_state = (1, operator_one) ∷ (2, operator_two) ∷ [];
  total_stake_per_quorum = (0, 100) ∷ [];
  quorum_apks_g1 = some 8 ∷ [];
  aggregated_operators = [];
  quorum_threshold_percentages = (0, 66) ∷ [];
  quorum_numbers = 0 ∷ [];
  eth_block_number = 12;
}

-- The signatures of both operators on the message 7.
abbrev pub by_one : SignedMessage bls numbers
by_one = record { message = 7; message_digest = 107; bls_signature = 321; operator_id = 1 }

abbrev pub by_two : SignedMessage bls numbers
by_two = record { message = 7; message_digest = 107; bls_signature = 535; operator_id = 2 }

-- What stands after operator 1 signed.
abbrev pub entry_of_one : AggregatedOperators bls
entry_of_one = record {
  signers_apk_g2 = 3;
  signers_agg_sig_g1 = 321;
  signers_stake_owner = 1;
  signers_operator_ids_set = (1, true) ∷ [];
}

abbrev pub signed_by_one : ValidationInfo bls
signed_by_one = record unsigned { aggregated_operators = (107, entry_of_one) ∷ [] }

abbrev pub indices : CheckSignaturesIndices
indices = record {
  non_signer_quorum_bitmap_indices = 4 ∷ [];
  quorum_apk_indices = 0 ∷ [];
  total_stake_indices = 0 ∷ [];
  non_signer_stake_indices = [];
}

abbrev pub get_indices : GetIndices
get_indices block quorums ids = ok indices

abbrev pub collector : Collector bls numbers
collector = record {
  message_key = 7;
  info = unsigned;
  phase = pre_threshold;
  responses = [];
  replies = [];
}
