-- ===== src/Interface.antt =====
-- What the program takes from elsewhere: the BLS library of eigensdk-go (crypto/bls), and the
-- interface of a message that operators sign (`MessageBlsAggregationServiceMessage` of
-- aggregator/blsagg/message_blsagg.go), whose digest rests on the ABI packer and Keccak-256.
-- A `[32]byte` (digest, key, operator id, hash) is the number whose big-endian digits it holds.
use near_sffl.Prelude.{ℕ, Bool, Outcome}
use near_sffl.Errors.{Error}

pub record Bls : Type 1 where
  pub G1 : Type 0
  pub G2 : Type 0
  pub Signature : Type 0
  pub zero_g2 : G2
  pub add_g2 : G2 → G2 → G2
  pub add_signature : Signature → Signature → Signature
  -- `signature.Verify(pubkey, digest)`
  pub verify : Signature → G2 → ℕ → Outcome Error Bool

pub record MessageType : Type 1 where
  pub Message : Type 0
  pub digest : Message → Outcome Error ℕ
  pub key : Message → ℕ

-- Headers and blocks of go-ethereum (core/types), by what the program reads of them.
pub record Eth : Type 1 where
  pub Header : Type 0
  pub Block : Type 0
  pub number : Header → ℕ
  pub time : Header → ℕ
  pub root : Header → ℕ
  pub header : Block → Header
  pub new_block_with_header : Header → Block
