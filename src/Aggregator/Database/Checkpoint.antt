-- ===== src/Aggregator/Database/Checkpoint.antt =====
-- The range queries of aggregator/database/database.go.
use mathlib.Core.List.{Perm, filter_map}
use mathlib.Core.List.Perm
use near_sffl.Prelude.{ℕ, ◌≡◌, List, [], ◌∷◌, map, Option, none, some, leb, ◌&&◌, if◌then◌else◌}
use near_sffl.Dict.{Dict}
use near_sffl.Interface.{Bls}
use near_sffl.Messages.Aggregation.{MessageBlsAggregation}
use near_sffl.Messages.StateRootUpdate.{StateRootUpdateMessage}
use near_sffl.Messages.OperatorSetUpdate.{OperatorSetUpdateMessage}
use near_sffl.Messages.CheckpointMessages.{CheckpointMessages}
use near_sffl.Aggregator.Database.{
  AggregationModel, aggregation_to_message, StateRootUpdateModel, state_root_update_to_message,
  OperatorSetUpdateModel, operator_set_update_to_message, checkpoint_of,
}
use near_sffl.Aggregator.Database.Orm.{Gorm}

module _ (b : Bls) where
  -- A message with its aggregation, if there is one, before others.
  abbrev and_pair :
      {Message : Type 0}
      → Message
      → Option (AggregationModel b)
      → List (Message × MessageBlsAggregation b)
      → List (Message × MessageBlsAggregation b)
  and_pair m none pairs = pairs
  and_pair m (some a) pairs = (m, aggregation_to_message b a) ∷ pairs

  abbrev pub split :
      {Message : Type 0}
      → List (Message × MessageBlsAggregation b)
      → List Message × List (MessageBlsAggregation b)
  split pairs = (map (λ p. p.0) pairs, map (λ p. p.1) pairs)

  -- The messages of the rows of a range of time that have an aggregation, each with its own.
  module _ {Row Message : Type 0} (timestamp : Row → ℕ) (to_message : Row → Message)
      (aggregation : Row → Option (AggregationModel b)) where
    unfoldable pub pairs_within : ℕ → ℕ → Dict Row → List (Message × MessageBlsAggregation b)
    pairs_within from to [] = []
    pairs_within from to ((id, row) ∷ rows) =
        let rest = pairs_within from to rows in
        if leb from (timestamp row) && leb (timestamp row) to
        then and_pair (to_message row) (aggregation row) rest
        else rest

    abbrev with_aggregation :
        Message → Option (AggregationModel b) → Option (Message × MessageBlsAggregation b)
    with_aggregation m none = none
    with_aggregation m (some a) = some (m, aggregation_to_message b a)

    -- The same of a list of rows.
    abbrev pairs_of : List Row → List (Message × MessageBlsAggregation b)
    pairs_of rows = filter_map (λ row. with_aggregation (to_message row) (aggregation row)) rows

  abbrev pub state_root_pairs :
      ℕ
      → ℕ
      → Dict (StateRootUpdateModel b)
      → List (StateRootUpdateMessage × MessageBlsAggregation b)
  state_root_pairs =
      pairs_within (λ r. r.timestamp) (state_root_update_to_message b) (λ r. r.aggregation)

  abbrev pub operator_set_pairs :
      ℕ
      → ℕ
      → Dict (OperatorSetUpdateModel b)
      → List (OperatorSetUpdateMessage b × MessageBlsAggregation b)
  operator_set_pairs =
      pairs_within (λ r. r.timestamp) (operator_set_update_to_message b) (λ r. r.aggregation)

  -- An answer to a range of time: the pairs of both kinds, in some order, each pair at one place of
  -- its two lists.
  abbrev pub IsAnswerFor :
      (g : Gorm (StateRootUpdateModel b)) (h : Gorm (OperatorSetUpdateModel b))
      → ℕ
      → ℕ
      → g.Table
      → h.Table
      → CheckpointMessages b
      → Type 0
  IsAnswerFor g h from to t u r =
      (state_roots : List (StateRootUpdateMessage × MessageBlsAggregation b))
      × (operator_sets : List (OperatorSetUpdateMessage b × MessageBlsAggregation b)) × Perm
          state_roots (state_root_pairs from to (g.rows t))
      × Perm operator_sets (operator_set_pairs from to (h.rows u))
      × (r ≡ checkpoint_of b (split state_roots) (split operator_sets))
