-- ===== src/Blsagg/Digest/Growth.antt =====
-- Signed stakes only grow, and what a signature leaves alone (aggregator/blsagg).
use near_sffl.Prelude.{
  ℕ, ◌+◌, ◌≤◌, ◌≡◌, inl, inr, [], ◌∷◌, true, false, none, some, arith, All, ok, Option-cases,
  Outcome-cases, Bool-cases, ◌==◌, ==_iff, ◌⊎◌, sym, ◌∙◌, if◌then◌else◌,
}
use mathlib.Core.Path.{subst}
use near_sffl.Dict.{
  Dict, lookup, insert, lookup-insert, lookup-insert_self, lookup-insert_ne, ne_of_lookup,
  same_value,
}
use near_sffl.Interface.{Bls, MessageType}
use near_sffl.Blsagg.Stake.Thresholds.{Meets}
use near_sffl.Blsagg.Digest.{
  OperatorAvsState, AggregatedOperators, SignedMessage, ValidationInfo, or_zero, add_stakes,
  stake_map, set_stake_map, add_signer, verify_signature, handle_signed_message_digest, next_signer,
}

-- Every number of the first map has one at least as great in the second.
abbrev pub Grows : Dict ℕ → Dict ℕ → Type 0
Grows m m' = (q s : ℕ) → lookup q m ≡ some s → (s' : ℕ) × (lookup q m' ≡ some s') × (s ≤ s')

Grows-refl : (m : Dict ℕ) → Grows m m
Grows-refl m q s h = (s, h, omega arith)

Grows-trans : (a b c : Dict ℕ) → Grows a b → Grows b c → Grows a c
Grows-trans a b c f g q s h =
    let (s', h', le) = f q s h in let (u, h'', le') = g q s' h' in (u, h'', omega arith)

insert-Grows : (k stake : ℕ) (m : Dict ℕ) → Grows m (insert k (or_zero (lookup k m) + stake) m)
insert-Grows k stake m q s h = elim (Bool-cases (k == q)) [
  | inl e ↦ (
    or_zero (lookup k m) + stake,
    rw (lookup-insert k q (or_zero (lookup k m) + stake) m) (rw e),
    ground arith,
  )
  | inr e ↦ (s, rw (lookup-insert k q (or_zero (lookup k m) + stake) m) (rw e h), omega arith)
]

pub add_stakes-Grows : (m xs : Dict ℕ) → Grows m (add_stakes m xs)
unfolding add_stakes
add_stakes-Grows m [] = Grows-refl m
add_stakes-Grows m ((k, stake) ∷ xs) =
    Grows-trans m (insert k (or_zero (lookup k m) + stake) m) _ (insert-Grows k stake m)
      (add_stakes-Grows (insert k (or_zero (lookup k m) + stake) m) xs)

pub Meets-Grows :
    (m m' total : Dict ℕ) (e : ℕ × ℕ) → Grows m m' → Meets m total e → Meets m' total e
Meets-Grows m m' total (q, p) g (s, t, hs, ht, le) =
    let (s', h', le') = g q s hs in (s', t, h', ht, grind arith)

pub All-Meets-Grows :
    (m m' total thresholds : Dict ℕ)
    → Grows m m'
    → All (Meets m total) thresholds
    → All (Meets m' total) thresholds
All-Meets-Grows m m' total [] g h = tt
All-Meets-Grows m m' total (e ∷ es) g (h, hs) =
    (Meets-Grows m m' total e g h, All-Meets-Grows m m' total es g hs)

module _ (b : Bls) where
  pub stake_map-set_stake_map :
      (ops : Dict (OperatorAvsState b)) (owner other : ℕ) (m : Dict ℕ) (s : OperatorAvsState b)
      → lookup owner ops ≡ some s
      → stake_map b (set_stake_map b ops owner m) other
        ≡ (if owner == other then m else stake_map b ops other)
  stake_map-set_stake_map ops owner other m s e =
      rw (e, set_stake_map, stake_map)
        (rw (lookup-insert owner other (record s { stake_per_quorum = m }) ops, stake_map)
          (elim (Bool-cases (owner == other)) [
            | inl h ↦ rw (h, if◌then◌else◌)
            | inr h ↦ rw (h, if◌then◌else◌)
          ]))

  set_stake_map-none :
      (ops : Dict (OperatorAvsState b)) (owner : ℕ) (m : Dict ℕ)
      → lookup owner ops ≡ none
      → set_stake_map b ops owner m ≡ ops
  set_stake_map-none ops owner m e = rw (e, set_stake_map)

  pub set_stake_map-Grows :
      (ops : Dict (OperatorAvsState b)) (owner other : ℕ) (m : Dict ℕ)
      → Grows (stake_map b ops owner) m
      → Grows (stake_map b ops other) (stake_map b (set_stake_map b ops owner m) other)
  set_stake_map-Grows ops owner other m g = elim (Option-cases (lookup owner ops)) [
    | inl e ↦
        subst (λ o. Grows (stake_map b ops other) (stake_map b o other))
          (sym (set_stake_map-none ops owner m e)) (Grows-refl (stake_map b ops other))
    | inr (s, e) ↦
        subst (Grows (stake_map b ops other)) (sym (stake_map-set_stake_map ops owner other m s e))
          (grown (Bool-cases (owner == other)))
  ]
    where
      grown :
          ((owner == other) ≡ true) ⊎ ((owner == other) ≡ false)
          → Grows (stake_map b ops other) (if owner == other then m else stake_map b ops other)
      grown (inl h) = rw h (subst (λ o. Grows (stake_map b ops o) m) ((==_iff owner other).0 h) g)
      grown (inr h) = rw h (Grows-refl (stake_map b ops other))

  -- The signed stakes of a digest meet the thresholds.
  abbrev pub DigestMeets : ValidationInfo b → ℕ → Type 0
  DigestMeets info digest =
      (e : AggregatedOperators b) × (lookup digest info.aggregated_operators ≡ some e)
      × All
          (Meets (stake_map b info.operators_avs_state e.signers_stake_owner)
            info.total_stake_per_quorum)
          info.quorum_threshold_percentages

module _ (b : Bls) (t : MessageType) where
  -- A further signature, on whichever digest, never takes a digest below its thresholds again.
  pub add_signer-DigestMeets :
      (m : SignedMessage b t) (d other : ℕ) (s : OperatorAvsState b) (pubkey : b.G2)
      (info : ValidationInfo b)
      → DigestMeets b info other
      → DigestMeets b (add_signer b t m d s pubkey info) other
  unfolding add_signer
  add_signer-DigestMeets m d other s pubkey info (e, he, meets) =
      elim (Option-cases (lookup d info.aggregated_operators)) [
        | inl h ↦
            rw (h, add_signer)
              (
                e,
                lookup-insert_ne d other _ info.aggregated_operators
                      (ne_of_lookup d other info.aggregated_operators h he)
                    ∙ he,
                meets,
              )
        | inr (x, h) ↦ rw (h, add_signer) (grown x h (Bool-cases (d == other)))
      ]
    where
      stakes : AggregatedOperators b → Dict ℕ
      stakes x =
          add_stakes (stake_map b info.operators_avs_state x.signers_stake_owner) s.stake_per_quorum

      -- The entry that is written, and the stakes of any entry afterwards.
      meets_of :
          (x y : AggregatedOperators b)
          → All
              (Meets
                (stake_map b info.operators_avs_state y.signers_stake_owner)
                info.total_stake_per_quorum)
              info.quorum_threshold_percentages
          → All
              (Meets
                (stake_map b
                  (set_stake_map b info.operators_avs_state x.signers_stake_owner (stakes x))
                  y.signers_stake_owner)
                info.total_stake_per_quorum)
              info.quorum_threshold_percentages
      meets_of x y =
          All-Meets-Grows _ _ info.total_stake_per_quorum info.quorum_threshold_percentages (
            set_stake_map-Grows b info.operators_avs_state x.signers_stake_owner
              y.signers_stake_owner (stakes x) (add_stakes-Grows _ s.stake_per_quorum))

      grown :
          (x : AggregatedOperators b)
          → lookup d info.aggregated_operators ≡ some x
          → ((d == other) ≡ true) ⊎ ((d == other) ≡ false)
          → DigestMeets b
              (record info {
                operators_avs_state =
                    set_stake_map b info.operators_avs_state x.signers_stake_owner (stakes x);
                aggregated_operators =
                    insert d (next_signer b t m pubkey x) info.aggregated_operators;
              })
              other
      grown x h (inl same) = (
        next_signer b t m pubkey x,
        subst
            (λ o.
              lookup o (insert d (next_signer b t m pubkey x) info.aggregated_operators)
              ≡ some (next_signer b t m pubkey x))
            ((==_iff d other).0 same) (lookup-insert_self d _ info.aggregated_operators),
        meets_of x x (
            subst
              (λ y.
                All
                  (Meets (stake_map b info.operators_avs_state y.signers_stake_owner)
                    info.total_stake_per_quorum)
                  info.quorum_threshold_percentages)
              (sym (same_value d other info.aggregated_operators ((==_iff d other).0 same) h he))
              meets),
      )
      grown x h (inr differ) = (
        e,
        lookup-insert_ne d other _ info.aggregated_operators (λ q. cc ((==_iff d other).1 q)) ∙ he,
        meets_of x e meets,
      )

  -- What an accepted signature went through.
  abbrev pub Accepted : SignedMessage b t → ValidationInfo b → ValidationInfo b → Type 0
  Accepted m info info' =
      (state : OperatorAvsState b) × (pubkey : b.G2) × (digest : ℕ) × (lookup m.operator_id
          info.operators_avs_state
        ≡ some state)
      × (state.g2_pubkey ≡ some pubkey)
      × (b.verify m.bls_signature pubkey m.message_digest ≡ ok true)
      × (t.digest m.message ≡ ok digest)
      × (info' ≡ add_signer b t m digest state pubkey info)

  pub Accepted-of_ok :
      (m : SignedMessage b t) (info info' : ValidationInfo b)
      → handle_signed_message_digest b t m info ≡ ok info'
      → Accepted m info info'
  unfolding handle_signed_message_digest verify_signature
  Accepted-of_ok m info info' h =
      elim (Option-cases (lookup m.operator_id info.operators_avs_state)) [
        | inl e ↦ absurd (ground arith)
        | inr (state, e) ↦ elim (Option-cases state.g2_pubkey) [
          | inl k ↦ absurd (ground arith)
          | inr (pubkey, k) ↦ elim (Outcome-cases (t.digest m.message)) [
            | inl (digest, d) ↦ (state, pubkey, digest, e, k, ground arith, d, ground arith)
            | inr (inl (x, d)) ↦ absurd (ground arith)
            | inr (inr d) ↦ absurd (ground arith)
          ]
        ]
      ]

  -- A signature that is accepted never takes a digest below its thresholds again.
  pub handle_signed_message_digest-DigestMeets :
      (m : SignedMessage b t) (other : ℕ) (info info' : ValidationInfo b)
      → handle_signed_message_digest b t m info ≡ ok info'
      → DigestMeets b info other
      → DigestMeets b info' other
  handle_signed_message_digest-DigestMeets m other info info' h d =
      let (state, pubkey, digest, _, _, _, _, e) = Accepted-of_ok m info info' h in
      subst (λ i. DigestMeets b i other) (sym e)
        (add_signer-DigestMeets m digest other state pubkey info d)
