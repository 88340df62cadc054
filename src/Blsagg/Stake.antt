-- ===== src/Blsagg/Stake.antt =====
-- The quorum tests of aggregator/blsagg/message_blsagg.go. Stakes are `big.Int`s that are never
-- negative, so natural numbers; a map entry that is missing reads as a nil `*big.Int`, whose use
-- panics.
pub mod Thresholds
use near_sffl.Prelude.{
  ℕ, ◌*◌, List, [], ◌∷◌, Bool, true, false, Option, none, some, ltb, ◌==◌, if◌then◌else◌, not,
  Outcome, ok, or_abort, ◌>>=◌,
}
use near_sffl.Dict.{Dict, lookup}
use near_sffl.Errors.{Error, quorum_threshold_out_of_bounds, quorum_threshold_less_than_51}

pub data Status : Type 0 where
  none_status full_stake_threshold_met threshold_not_reached threshold_reached : Status

-- The loop over `quorumThresholdPercentagesMap`.
unfoldable pub check_if_stake_thresholds_met : Dict ℕ → Dict ℕ → Dict ℕ → Outcome Error Bool
check_if_stake_thresholds_met signed total [] = ok true
check_if_stake_thresholds_met signed total ((q, percentage) ∷ rest) = do
  s ← or_abort (lookup q signed)
  t ← or_abort (lookup q total)
  let others = check_if_stake_thresholds_met signed total rest
  if ltb (s * 100) (t * percentage) then ok false else others

-- The loop over `signedStakePerQuorum`.
unfoldable pub check_if_full_stake_threshold_met : Dict ℕ → Dict ℕ → Outcome Error Bool
check_if_full_stake_threshold_met [] total = ok true
check_if_full_stake_threshold_met ((q, s) ∷ rest) total = do
  t ← or_abort (lookup q total)
  let others = check_if_full_stake_threshold_met rest total
  if not (s == t) then ok false else others

unfoldable pub validate_quorum_threshold_percentages : List ℕ → Option Error
validate_quorum_threshold_percentages [] = none
validate_quorum_threshold_percentages (p ∷ ps) =
    let rest = validate_quorum_threshold_percentages ps in
    if ltb 100 p
    then some quorum_threshold_out_of_bounds
    else if ltb p 51
    then some quorum_threshold_less_than_51
    else rest
