-- ===== src/Blsagg/Stake/Thresholds.antt =====
-- What the quorum tests of aggregator/blsagg/message_blsagg.go decide.
use near_sffl.Prelude.{
  ℕ, ◌*◌, ◌≤◌, ◌≡◌, refl, ◌↔◌, inl, inr, List, [], ◌∷◌, true, some, none, arith, All, ok,
  Option-cases,
}
use near_sffl.Dict.{Dict, lookup}
use near_sffl.Blsagg.Stake.{
  check_if_stake_thresholds_met, check_if_full_stake_threshold_met,
  validate_quorum_threshold_percentages,
}

-- The quorum has reached its percentage of the total stake.
abbrev pub Meets : Dict ℕ → Dict ℕ → ℕ × ℕ → Type 0
Meets signed total (q, percentage) =
    (s : ℕ) × (t : ℕ) × (lookup q signed ≡ some s)
    × (lookup q total ≡ some t)
    × (t * percentage ≤ s * 100)

met_of_ok :
    (signed total thresholds : Dict ℕ)
    → check_if_stake_thresholds_met signed total thresholds ≡ ok true
    → All (Meets signed total) thresholds
unfolding check_if_stake_thresholds_met
met_of_ok signed total [] h = tt
met_of_ok signed total ((q, p) ∷ rest) h = elim (Option-cases (lookup q signed)) [
  | inl e ↦ absurd (ground arith)
  | inr (s, es) ↦ elim (Option-cases (lookup q total)) [
    | inl e ↦ absurd (ground arith)
    | inr (t, et) ↦ ((s, t, es, et, ground arith), met_of_ok signed total rest (ground arith))
  ]
]

ok_of_met :
    (signed total thresholds : Dict ℕ)
    → All (Meets signed total) thresholds
    → check_if_stake_thresholds_met signed total thresholds ≡ ok true
unfolding check_if_stake_thresholds_met
ok_of_met signed total [] h = refl
ok_of_met signed total ((q, p) ∷ rest) ((s, t, es, et, le), h) =
    rw (es, et) (ground (arith, ok_of_met signed total rest h))

-- The thresholds count as met exactly when each quorum that has a threshold has a signed and a
-- total stake, and the signed stake is at least the threshold's percentage of the total.
pub check_if_stake_thresholds_met_iff :
    (signed total thresholds : Dict ℕ)
    → (check_if_stake_thresholds_met signed total thresholds ≡ ok true)
      ↔ All (Meets signed total) thresholds
check_if_stake_thresholds_met_iff signed total thresholds =
    (met_of_ok signed total thresholds, ok_of_met signed total thresholds)

full_of_ok :
    (signed total : Dict ℕ)
    → check_if_full_stake_threshold_met signed total ≡ ok true
    → All (λ e. lookup e.0 total ≡ some e.1) signed
unfolding check_if_full_stake_threshold_met
full_of_ok [] total h = tt
full_of_ok ((q, s) ∷ rest) total h = elim (Option-cases (lookup q total)) [
  | inl e ↦ absurd (ground arith)
  | inr (t, et) ↦ (ground arith, full_of_ok rest total (ground arith))
]

ok_of_full :
    (signed total : Dict ℕ)
    → All (λ e. lookup e.0 total ≡ some e.1) signed
    → check_if_full_stake_threshold_met signed total ≡ ok true
unfolding check_if_full_stake_threshold_met
ok_of_full [] total h = refl
ok_of_full ((q, s) ∷ rest) total (e, h) = rw e (ground (arith, ok_of_full rest total h))

-- The full stake counts as signed exactly when each quorum with a signed stake has that very
-- number as its total stake.
pub check_if_full_stake_threshold_met_iff :
    (signed total : Dict ℕ)
    → (check_if_full_stake_threshold_met signed total ≡ ok true)
      ↔ All (λ e. lookup e.0 total ≡ some e.1) signed
check_if_full_stake_threshold_met_iff signed total =
    (full_of_ok signed total, ok_of_full signed total)

valid_of_none :
    (ps : List ℕ)
    → validate_quorum_threshold_percentages ps ≡ none
    → All (λ p. (51 ≤ p) × (p ≤ 100)) ps
unfolding validate_quorum_threshold_percentages
valid_of_none [] h = tt
valid_of_none (p ∷ ps) h = ((ground arith, ground arith), valid_of_none ps (ground arith))

none_of_valid :
    (ps : List ℕ)
    → All (λ p. (51 ≤ p) × (p ≤ 100)) ps
    → validate_quorum_threshold_percentages ps ≡ none
unfolding validate_quorum_threshold_percentages
none_of_valid [] h = refl
none_of_valid (p ∷ ps) (h, hs) = ground (arith, none_of_valid ps hs)

-- A list of threshold percentages is accepted exactly when each of them lies from 51 to 100.
validate_quorum_threshold_percentages_iff :
    (ps : List ℕ)
    → (validate_quorum_threshold_percentages ps ≡ none) ↔ All (λ p. (51 ≤ p) × (p ≤ 100)) ps
validate_quorum_threshold_percentages_iff ps = (valid_of_none ps, none_of_valid ps)
