-- ===== src/Blsagg/Digest/Replay.antt =====
-- A signature that is handed over again counts again: nothing in aggregator/blsagg asks whether
-- the operator has signed the digest before.
use mathlib.Core.Path.{subst}
use native.Mathlib.Nat.{pow-suc}
use near_sffl.Prelude.{
  ℕ, zero, suc, ◌*◌, ◌^◌, ◌≤◌, ◌<◌, ◌≡◌, refl, sym, ◌∙◌, ap, true, some, arith, Outcome, ok, ◌>>=◌,
}
use near_sffl.Dict.{Dict, IsMap, lookup, insert, lookup-insert_self}
use near_sffl.Errors.{Error}
use near_sffl.Interface.{Bls, MessageType}
use near_sffl.Blsagg.Digest.{
  OperatorAvsState, AggregatedOperators, SignedMessage, ValidationInfo, add_stakes, stake_map,
  set_stake_map, add_signer, next_signer, verify_signature, handle_signed_message_digest,
}
use near_sffl.Blsagg.Digest.Stakes.{
  stake_at, stake_at-add_stakes, add_stakes-IsMap, own_stake, signed_stake,
}

lt-two_pow : (n : ℕ) → n < 2 ^ n
lt-two_pow zero = omega arith
lt-two_pow (suc n) = omega (arith, lt-two_pow n, pow-suc 2 n)

module _ (b : Bls) (t : MessageType) where
  -- The operator of the message made the entry of the digest, and its signature is valid.
  abbrev pub CanReplay : SignedMessage b t → ValidationInfo b → ℕ → Type 0
  CanReplay m info d =
      (entry : AggregatedOperators b) × (state : OperatorAvsState b) × (pubkey : b.G2) × (lookup d
          info.aggregated_operators
        ≡ some entry)
      × (entry.signers_stake_owner ≡ m.operator_id)
      × (lookup m.operator_id info.operators_avs_state ≡ some state)
      × (state.g2_pubkey ≡ some pubkey)
      × IsMap state.stake_per_quorum
      × (b.verify m.bls_signature pubkey m.message_digest ≡ ok true)

  -- The goroutine is handed the same signed message again and again.
  pub resend : ℕ → SignedMessage b t → ValidationInfo b → Outcome Error (ValidationInfo b)
  resend zero m info = ok info
  resend (suc n) m info = handle_signed_message_digest b t m info >>= resend n m

  module _ (m : SignedMessage b t) (d : ℕ) (digested : t.digest m.message ≡ ok d) where
    handle_eq :
        (info : ValidationInfo b) (state : OperatorAvsState b) (pubkey : b.G2)
        → lookup m.operator_id info.operators_avs_state ≡ some state
        → state.g2_pubkey ≡ some pubkey
        → b.verify m.bls_signature pubkey m.message_digest ≡ ok true
        → handle_signed_message_digest b t m info ≡ ok (add_signer b t m d state pubkey info)
    unfolding handle_signed_message_digest verify_signature
    handle_eq info state pubkey e k v = ground arith

    -- The state after the replay, where the owner of the map is the operator itself.
    replayed :
        (info : ValidationInfo b) (entry : AggregatedOperators b) (state : OperatorAvsState b)
        (pubkey : b.G2)
        → ValidationInfo b
    replayed info entry state pubkey = record info {
      operators_avs_state =
          insert m.operator_id
            (record state {
              stake_per_quorum = add_stakes state.stake_per_quorum state.stake_per_quorum;
            })
            info.operators_avs_state;
      aggregated_operators = insert d (next_signer b t m pubkey entry) info.aggregated_operators;
    }

    write_own :
        (info : ValidationInfo b) (state : OperatorAvsState b)
        → lookup m.operator_id info.operators_avs_state ≡ some state
        → set_stake_map b info.operators_avs_state m.operator_id
            (add_stakes (stake_map b info.operators_avs_state m.operator_id) state.stake_per_quorum)
          ≡ insert m.operator_id
              (record state {
                stake_per_quorum = add_stakes state.stake_per_quorum state.stake_per_quorum;
              })
              info.operators_avs_state
    write_own info state h = ground arith

    add_signer_eq :
        (info : ValidationInfo b) (entry : AggregatedOperators b) (state : OperatorAvsState b)
        (pubkey : b.G2)
        → lookup d info.aggregated_operators ≡ some entry
        → entry.signers_stake_owner ≡ m.operator_id
        → lookup m.operator_id info.operators_avs_state ≡ some state
        → add_signer b t m d state pubkey info ≡ replayed info entry state pubkey
    unfolding add_signer replayed
    add_signer_eq info entry state pubkey e o h =
        rw (e, add_signer)
          (ap (λ x. record info { operators_avs_state = x; aggregated_operators = agg })
            (subst
              (λ p.
                set_stake_map b ops p (add_stakes (stake_map b ops p) state.stake_per_quorum)
                ≡ insert m.operator_id
                    (record state {
                      stake_per_quorum = add_stakes state.stake_per_quorum state.stake_per_quorum;
                    })
                    ops)
              (sym o) (write_own info state h)))
      where
        ops : Dict (OperatorAvsState b)
        ops = info.operators_avs_state

        agg : Dict (AggregatedOperators b)
        agg = insert d (next_signer b t m pubkey entry) info.aggregated_operators

    replayed-CanReplay :
        (info : ValidationInfo b) (entry : AggregatedOperators b) (state : OperatorAvsState b)
        (pubkey : b.G2)
        → entry.signers_stake_owner ≡ m.operator_id
        → state.g2_pubkey ≡ some pubkey
        → IsMap state.stake_per_quorum
        → b.verify m.bls_signature pubkey m.message_digest ≡ ok true
        → CanReplay m (replayed info entry state pubkey) d
    unfolding replayed next_signer
    replayed-CanReplay info entry state pubkey o k i v = (
      _,
      _,
      pubkey,
      lookup-insert_self d _ _,
      o,
      lookup-insert_self m.operator_id _ _,
      k,
      add_stakes-IsMap _ _ i,
      v,
    )

    signed_stake_eq :
        (info : ValidationInfo b) (entry : AggregatedOperators b) (state : OperatorAvsState b)
        (q : ℕ)
        → lookup d info.aggregated_operators ≡ some entry
        → entry.signers_stake_owner ≡ m.operator_id
        → lookup m.operator_id info.operators_avs_state ≡ some state
        → signed_stake b info d q ≡ stake_at state.stake_per_quorum q
    signed_stake_eq info entry state q e o h =
        rw (e, signed_stake)
          (rw (o, own_stake, stake_map, stake_at) (rw (h, own_stake, stake_map, stake_at)))

    replay :
        (info : ValidationInfo b)
        → CanReplay m info d
        → (info' : ValidationInfo b) × (handle_signed_message_digest b t m info ≡ ok info')
          × CanReplay m info' d
          × ((q : ℕ) → signed_stake b info' d q ≡ 2 * signed_stake b info d q)
    replay info (entry, state, pubkey, e, o, h, k, i, v) = (
      replayed info entry state pubkey,
      handle_eq info state pubkey h k v ∙ ap ok (add_signer_eq info entry state pubkey e o h),
      replayed-CanReplay info entry state pubkey o k i v,
      λ q. omega (
        arith,
        signed_stake_eq info entry state q e o h,
        signed_stake_eq (replayed info entry state pubkey) (next_signer b t m pubkey entry)
            (record state {
              stake_per_quorum = add_stakes state.stake_per_quorum state.stake_per_quorum;
            })
            q (unfold replayed in lookup-insert_self d _ _) (unfold next_signer in o)
            (unfold replayed in lookup-insert_self m.operator_id _ _),
        stake_at-add_stakes state.stake_per_quorum state.stake_per_quorum q i,
      ),
    )

    -- After n replays the signed stakes are 2 ^ n times what they were.
    resend_doubles :
        (n : ℕ) (info : ValidationInfo b)
        → CanReplay m info d
        → (info' : ValidationInfo b) × (resend n m info ≡ ok info')
          × ((q : ℕ) → signed_stake b info' d q ≡ 2 ^ n * signed_stake b info d q)
    unfolding resend
    resend_doubles zero info c = (info, refl, λ q. omega arith)
    resend_doubles (suc n) info c =
        let (next, e, c', double) = replay info c in
        let (last, e', power) = resend_doubles n next c' in
        (
          last,
          rw (e, ◌>>=◌) e',
          λ q. omega (
            arith,
            power q,
            ap (λ (x : ℕ). 2 ^ n * x) (double q),
            ap (λ (x : ℕ). x * signed_stake b info d q) (pow-suc 2 n),
          ),
        )

    -- One operator alone can bring what counts as signed for its digest in a quorum to any number:
    -- where it made the digest's entry, its signature is valid and it has a stake in the quorum,
    -- some number of copies of its one signed message are all accepted and reach the number.
    pub replay_reaches_any_stake :
        (info : ValidationInfo b) (q target : ℕ)
        → CanReplay m info d
        → 0 < signed_stake b info d q
        → (n : ℕ) × (info' : ValidationInfo b) × (resend n m info ≡ ok info')
          × (target ≤ signed_stake b info' d q)
    replay_reaches_any_stake info q target c pos =
        let (info', e, power) = resend_doubles target info c in
        (target, info', e, grind (arith, power q, lt-two_pow target))
