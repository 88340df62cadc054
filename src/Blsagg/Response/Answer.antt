-- ===== src/Blsagg/Response/Answer.antt =====
-- What the status and the error of a response tell (aggregator/blsagg/message_blsagg.go).
use near_sffl.Prelude.{
  sym, ◌∙◌, ◌%◌, ◌^◌, ℕ, ◌≡◌, ◌≢◌, inl, inr, ◌⊎◌, Bool, true, none, some, arith, All, ok,
  Option-cases, Outcome-cases,
}
use mathlib.Core.Path.{subst}
use near_sffl.Dict.{lookup}
use near_sffl.Interface.{Bls, MessageType}
use near_sffl.Blsagg.Stake.{
  Status, none_status, full_stake_threshold_met, threshold_not_reached, threshold_reached,
  check_if_full_stake_threshold_met,
}
use near_sffl.Blsagg.Stake.Thresholds.{
  check_if_stake_thresholds_met_iff, check_if_full_stake_threshold_met_iff,
}
use near_sffl.Blsagg.Digest.{
  AggregatedOperators, ValidationInfo, stake_map, get_message_bls_aggregation_status,
}
use near_sffl.Blsagg.Digest.Growth.{DigestMeets}
use near_sffl.Blsagg.Response.{
  Response, GetIndices, sort_ids, non_signers, get_message_bls_aggregation_response,
}

module _ (b : Bls) where
  -- Each stake in the map of the digest's signers is the total stake of its quorum. A quorum that
  -- is not in that map is not asked about.
  abbrev pub DigestFull : ValidationInfo b → ℕ → Type 0
  DigestFull info digest =
      (e : AggregatedOperators b) × (lookup digest info.aggregated_operators ≡ some e)
      × All (λ q. lookup q.0 info.total_stake_per_quorum ≡ some q.1)
          (stake_map b info.operators_avs_state e.signers_stake_owner)

  -- What each status says of the digest. Full stakes are asked about first.
  abbrev pub StatusMeans : ValidationInfo b → ℕ → Status → Type 0
  StatusMeans info digest none_status = ⊥
  StatusMeans info digest full_stake_threshold_met = DigestFull info digest
  StatusMeans info digest threshold_reached = DigestMeets b info digest × ¬ DigestFull info digest
  StatusMeans info digest threshold_not_reached =
      ¬ DigestMeets b info digest × ¬ DigestFull info digest

  met_of_full :
      (info : ValidationInfo b) (d : ℕ) (w : DigestFull info d)
      → check_if_full_stake_threshold_met
          (stake_map b info.operators_avs_state w.0.signers_stake_owner)
          info.total_stake_per_quorum
        ≡ ok true
  met_of_full info d w =
      (check_if_full_stake_threshold_met_iff
          (stake_map b info.operators_avs_state w.0.signers_stake_owner)
          info.total_stake_per_quorum).1
        w.2

  StatusMeans-at :
      (info : ValidationInfo b) (d : ℕ) (x : AggregatedOperators b) (s : Status)
      → lookup d info.aggregated_operators ≡ some x
      → get_message_bls_aggregation_status b d info ≡ ok s
      → StatusMeans info d s
  unfolding get_message_bls_aggregation_status
  StatusMeans-at info d x none_status e h = absurd (ground arith)
  StatusMeans-at info d x full_stake_threshold_met e h = (
    x,
    e,
    (check_if_full_stake_threshold_met_iff
          (stake_map b info.operators_avs_state x.signers_stake_owner)
          info.total_stake_per_quorum).0
        (ground arith),
  )
  StatusMeans-at info d x threshold_reached e h = (
    (
      x,
      e,
      (check_if_stake_thresholds_met_iff
            (stake_map b info.operators_avs_state x.signers_stake_owner) info.total_stake_per_quorum
            info.quorum_threshold_percentages).0
          (ground arith),
    ),
    λ w. ground (arith, w.1, met_of_full info d w),
  )
  StatusMeans-at info d x threshold_not_reached e h = (
    λ w. ground (
      arith,
      w.1,
      (check_if_stake_thresholds_met_iff
            (stake_map b info.operators_avs_state w.0.signers_stake_owner)
            info.total_stake_per_quorum info.quorum_threshold_percentages).1
          w.2,
    ),
    λ w. ground (arith, w.1, met_of_full info d w),
  )

  status_means :
      (info : ValidationInfo b) (d : ℕ) (s : Status)
      → get_message_bls_aggregation_status b d info ≡ ok s
      → StatusMeans info d s
  unfolding get_message_bls_aggregation_status
  status_means info d s h = elim (Option-cases (lookup d info.aggregated_operators)) [
    | inl e ↦ absurd (ground arith)
    | inr (x, e) ↦ StatusMeans-at info d x s e h
  ]

  -- A response either carries no error, the digest asked for and a status, or an error and no
  -- status. The status is that of full stake exactly where each stake in the map of the digest's
  -- signers, which leaves out the quorums in which none of them counted, is the total stake of its
  -- quorum; else it tells whether the signed stakes meet every threshold.
  pub response_means :
      (t : MessageType) (get_indices : GetIndices) (m : t.Message) (d : ℕ) (info : ValidationInfo b)
      (forced : Bool) (r : Response b t)
      → get_message_bls_aggregation_response b t get_indices m d info forced ≡ ok r
      → ((r.error ≡ none) × (r.aggregation.message_digest ≡ d) × StatusMeans info d r.status)
        ⊎ ((r.error ≢ none) × (r.status ≡ none_status))
  unfolding get_message_bls_aggregation_response
  response_means t get_indices m d info forced r h =
      elim (Option-cases (lookup d info.aggregated_operators)) [
        | inl e ↦ inr (ground arith, ground arith)
        | inr (x, e) ↦ elim (Outcome-cases (get_message_bls_aggregation_status b d info)) [
          | inl (s, k) ↦
              elim (Outcome-cases (
                get_indices (info.eth_block_number % 2 ^ 32) info.quorum_numbers
                  (sort_ids (non_signers info.operators_avs_state x.signers_operator_ids_set)))) [
                    | inl (i, q) ↦ inl (
                      ground arith,
                      ground arith,
                      status_means info d r.status
                          (let z : s ≡ r.status = ground arith in rw (← z) k),
                    )
                    | inr (inl (er, q)) ↦ inr (ground arith, ground arith)
                    | inr (inr q) ↦ absurd (ground arith)
                  ]
          | inr (inl (er, k)) ↦ inr (ground arith, ground arith)
          | inr (inr k) ↦ absurd (ground arith)
        ]
      ]

  module _ (t : MessageType) (get_indices : GetIndices) (m : t.Message) (d : ℕ)
      (info : ValidationInfo b) (forced : Bool) (r : Response b t)
      (answered : get_message_bls_aggregation_response b t get_indices m d info forced ≡ ok r) where
    pub digest_of_no_error : r.error ≡ none → r.aggregation.message_digest ≡ d
    digest_of_no_error e = elim (response_means t get_indices m d info forced r answered) [
      | inl h ↦ h.1
      | inr h ↦ absurd (h.0 e)
    ]

    pub meaning : (s : Status) → r.status ≡ s → s ≢ none_status → StatusMeans info d s
    meaning s e n = elim (response_means t get_indices m d info forced r answered) [
      | inl h ↦ subst (StatusMeans info d) e h.2
      | inr h ↦ absurd (n (sym e ∙ h.1))
    ]

    pub error_of_none_status : r.status ≡ none_status → r.error ≢ none
    error_of_none_status e = elim (response_means t get_indices m d info forced r answered) [
      | inl h ↦ absurd (subst (StatusMeans info d) e h.2)
      | inr h ↦ h.0
    ]
