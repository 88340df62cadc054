-- ===== src/Blsagg/Digest/Equivocation.antt =====
-- An operator that signs two digests of one message (aggregator/blsagg/message_blsagg.go): the map
-- that counts the first digest's stakes is the map of the operator's own stakes, with which the
-- second digest starts.
use mathlib.Core.Path.{subst}
use near_sffl.Prelude.{ℕ, ◌≡◌, refl, sym, ap, ◌∙◌, none, some, ok, ok-injective}
use near_sffl.Dict.{lookup, insert, lookup-insert_self}
use near_sffl.Interface.{Bls, MessageType}
use near_sffl.Blsagg.Digest.{
  AggregatedOperators, OperatorAvsState, SignedMessage, ValidationInfo, stake_map, add_signer,
  first_signer, handle_signed_message_digest,
}
use near_sffl.Blsagg.Digest.Stakes.{signed_stake, stake_at}
use near_sffl.Blsagg.Digest.Growth.{Accepted-of_ok}

module _ (b : Bls) (t : MessageType) where
  -- The map that counts the stakes of an entry is that of its owner.
  signed_stake_of_entry :
      (info : ValidationInfo b) (d q : ℕ) (entry : AggregatedOperators b)
      → lookup d info.aggregated_operators ≡ some entry
      → signed_stake b info d q
        ≡ stake_at (stake_map b info.operators_avs_state entry.signers_stake_owner) q
  signed_stake_of_entry info d q entry h = rw (h, signed_stake) refl

  first_signature :
      (m : SignedMessage b t) (d q : ℕ) (state : OperatorAvsState b) (pubkey : b.G2)
      (info : ValidationInfo b)
      → lookup d info.aggregated_operators ≡ none
      → signed_stake b (add_signer b t m d state pubkey info) d q
        ≡ stake_at (stake_map b info.operators_avs_state m.operator_id) q
  unfolding add_signer first_signer
  first_signature m d q state pubkey info new =
      rw (new, add_signer)
        (signed_stake_of_entry
          (record info {
            aggregated_operators = insert d (first_signer b t m pubkey) info.aggregated_operators;
          })
          d q (first_signer b t m pubkey)
          (lookup-insert_self d (first_signer b t m pubkey) info.aggregated_operators))

  -- When the operator that was the first to sign a digest signs another digest of the message,
  -- which nobody else has signed, the other digest starts, in each quorum, with the stake that
  -- counts as signed for the first, that of all its signers.
  pub other_digest_inherits_stake :
      (m : SignedMessage b t) (first d q : ℕ) (info info' : ValidationInfo b)
      (entry : AggregatedOperators b)
      → lookup first info.aggregated_operators ≡ some entry
      → entry.signers_stake_owner ≡ m.operator_id
      → lookup d info.aggregated_operators ≡ none
      → t.digest m.message ≡ ok d
      → handle_signed_message_digest b t m info ≡ ok info'
      → signed_stake b info' d q ≡ signed_stake b info first q
  other_digest_inherits_stake m first d q info info' entry h own new digest accepted =
      let (state, pubkey, d', _, _, _, k, e) = Accepted-of_ok b t m info info' accepted in
      let same : d ≡ d' = ok-injective d d' (sym digest ∙ k) in
      subst (λ i. signed_stake b i d q ≡ signed_stake b info first q) (sym e)
        (subst
          (λ x.
            signed_stake b (add_signer b t m x state pubkey info) d q ≡ signed_stake b info first q)
          same
          (first_signature m d q state pubkey info new
            ∙ (ap (λ o. stake_at (stake_map b info.operators_avs_state o) q) (sym own)
                ∙ sym (signed_stake_of_entry info first q entry h))))
