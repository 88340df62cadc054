-- ===== src/Messages/Aggregation.antt =====
-- core/types/messages/aggregation.go: a BLS aggregation. Pointers are options.
use near_sffl.Prelude.{ℕ, List, [], Option, none}
use near_sffl.Interface.{Bls}

pub record MessageBlsAggregation (b : Bls) : Type 0 where
  pub eth_block_number : ℕ
  pub message_digest : ℕ
  pub non_signers_pubkeys_g1 : List (Option b.G1)
  pub quorum_apks_g1 : List (Option b.G1)
  pub signers_apk_g2 : Option b.G2
  pub signers_agg_sig_g1 : Option b.Signature
  pub non_signer_quorum_bitmap_indices : List ℕ
  pub quorum_apk_indices : List ℕ
  pub total_stake_indices : List ℕ
  pub non_signer_stake_indices : List (List ℕ)

-- The composite literal that sets the block and the digest alone.
abbrev pub default_aggregation : (b : Bls) → ℕ → ℕ → MessageBlsAggregation b
default_aggregation b digest block = record {
  eth_block_number = block;
  message_digest = digest;
  non_signers_pubkeys_g1 = [];
  quorum_apks_g1 = [];
  signers_apk_g2 = none;
  signers_agg_sig_g1 = none;
  non_signer_quorum_bitmap_indices = [];
  quorum_apk_indices = [];
  total_stake_indices = [];
  non_signer_stake_indices = [];
}
