-- ===== src/Aggregator/Database.antt =====
-- aggregator/database/database.go and aggregator/database/models: what the aggregator keeps of the
-- messages that reached a quorum. Each call on the database is the calls on its tables, in order.
pub mod Orm
pub mod Rows
pub mod Checkpoint
pub mod Kinds
pub mod Reads
pub mod Refinement
use near_sffl.Prelude.{
  ℕ, ◌^◌, List, [], ◌∷◌, Bool, ◌&&◌, ◌||◌, Option, none, some, ltb, leb, ◌-◌, ◌==◌, if◌then◌else◌,
  Outcome, ok, err, abort, ◌>>=◌, or_err,
}
use near_sffl.Errors.{
  Error, timestamp_not_int64, to_timestamp_less_than_from, aggregation_not_found,
}
use near_sffl.Interface.{Bls}
use near_sffl.Messages.Aggregation.{MessageBlsAggregation}
use near_sffl.Messages.StateRootUpdate.{StateRootUpdateMessage}
use near_sffl.Messages.OperatorSetUpdate.{RollupOperator, OperatorSetUpdateMessage}
use near_sffl.Messages.CheckpointMessages.{CheckpointMessages}
use near_sffl.Aggregator.Database.Orm.{Gorm}

-- The range of time of a query.
abbrev pub is_within : ℕ → ℕ → ℕ → Bool
is_within from to timestamp = leb from timestamp && leb timestamp to

module _ (b : Bls) where
  -- models.MessageBlsAggregation
  pub record AggregationModel : Type 0 where
    pub eth_block_number : ℕ
    pub message_digest : ℕ
    pub non_signers_pubkeys_g1 : List (Option b.G1)
    pub quorum_apks_g1 : List (Option b.G1)
    pub signers_apk_g2 : Option b.G2
    pub signers_agg_sig_g1 : Option b.Signature
    pub non_signer_quorum_bitmap_indices : List ℕ
    pub quorum_apk_indices : List ℕ
    pub total_stake_indices : List ℕ
    pub non_signer_stake_indices : List (List ℕ)

  unfoldable pub new_aggregation_model : MessageBlsAggregation b → AggregationModel
  new_aggregation_model msg = record {
    eth_block_number = msg.eth_block_number;
    message_digest = msg.message_digest;
    non_signers_pubkeys_g1 = msg.non_signers_pubkeys_g1;
    quorum_apks_g1 = msg.quorum_apks_g1;
    signers_apk_g2 = msg.signers_apk_g2;
    signers_agg_sig_g1 = msg.signers_agg_sig_g1;
    non_signer_quorum_bitmap_indices = msg.non_signer_quorum_bitmap_indices;
    quorum_apk_indices = msg.quorum_apk_indices;
    total_stake_indices = msg.total_stake_indices;
    non_signer_stake_indices = msg.non_signer_stake_indices;
  }

  unfoldable pub aggregation_to_message : AggregationModel → MessageBlsAggregation b
  aggregation_to_message model = record {
    eth_block_number = model.eth_block_number;
    message_digest = model.message_digest;
    non_signers_pubkeys_g1 = model.non_signers_pubkeys_g1;
    quorum_apks_g1 = model.quorum_apks_g1;
    signers_apk_g2 = model.signers_apk_g2;
    signers_agg_sig_g1 = model.signers_agg_sig_g1;
    non_signer_quorum_bitmap_indices = model.non_signer_quorum_bitmap_indices;
    quorum_apk_indices = model.quorum_apk_indices;
    total_stake_indices = model.total_stake_indices;
    non_signer_stake_indices = model.non_signer_stake_indices;
  }

  -- models.StateRootUpdateMessage; the foreign key is the aggregation that it refers to.
  pub record StateRootUpdateModel : Type 0 where
    pub rollup_id : ℕ
    pub block_height : ℕ
    pub timestamp : ℕ
    pub near_da_transaction_id : ℕ
    pub near_da_commitment : ℕ
    pub state_root : ℕ
    pub aggregation : Option AggregationModel

  -- The literal in StoreStateRootUpdate, which is that of NewStateRootUpdateMessageModel.
  unfoldable pub new_state_root_update_model : StateRootUpdateMessage → StateRootUpdateModel
  new_state_root_update_model msg = record {
    rollup_id = msg.rollup_id;
    block_height = msg.block_height;
    timestamp = msg.timestamp;
    near_da_transaction_id = msg.near_da_transaction_id;
    near_da_commitment = msg.near_da_commitment;
    state_root = msg.state_root;
    aggregation = none;
  }

  unfoldable pub state_root_update_to_message : StateRootUpdateModel → StateRootUpdateMessage
  state_root_update_to_message model = record {
    rollup_id = model.rollup_id;
    block_height = model.block_height;
    timestamp = model.timestamp;
    near_da_transaction_id = model.near_da_transaction_id;
    near_da_commitment = model.near_da_commitment;
    state_root = model.state_root;
  }

  -- models.OperatorSetUpdateMessage
  pub record OperatorSetUpdateModel : Type 0 where
    pub update_id : ℕ
    pub timestamp : ℕ
    pub operators : List (RollupOperator b)
    pub aggregation : Option AggregationModel

  unfoldable pub new_operator_set_update_model : OperatorSetUpdateMessage b → OperatorSetUpdateModel
  new_operator_set_update_model msg = record {
    update_id = msg.id;
    timestamp = msg.timestamp;
    operators = msg.operators;
    aggregation = none;
  }

  unfoldable pub operator_set_update_to_message :
      OperatorSetUpdateModel → OperatorSetUpdateMessage b
  operator_set_update_to_message model = record {
    id = model.update_id;
    timestamp = model.timestamp;
    operators = model.operators;
  }

  -- The `Where` conditions.
  unfoldable pub is_at : ℕ → ℕ → StateRootUpdateModel → Bool
  is_at rollup_id block_height model =
      model.rollup_id == rollup_id && model.block_height == block_height

  unfoldable pub has_update_id : ℕ → OperatorSetUpdateModel → Bool
  has_update_id id model = model.update_id == id

  -- The tables for the two kinds of messages.
  module _ (g : Gorm StateRootUpdateModel) where
    unfoldable pub store_state_root_update :
        StateRootUpdateMessage → g.Table → Outcome Error ((ℕ × StateRootUpdateModel) × g.Table)
    unfolding new_state_root_update_model is_at
    store_state_root_update msg =
        g.first_or_create (is_at msg.rollup_id msg.block_height) (new_state_root_update_model msg)

    unfoldable pub fetch_state_root_update : ℕ → ℕ → g.Table → Outcome Error StateRootUpdateMessage
    unfolding state_root_update_to_message is_at
    fetch_state_root_update rollup_id block_height t = do
      model ← g.first (is_at rollup_id block_height) t
      ok (state_root_update_to_message model)

    -- The model is one that a store returned, with its primary key.
    unfoldable pub store_state_root_update_aggregation :
        ℕ × StateRootUpdateModel → MessageBlsAggregation b → g.Table → Outcome Error g.Table
    unfolding new_aggregation_model
    store_state_root_update_aggregation (id, model) aggregation =
        g.replace id (record model { aggregation = some (new_aggregation_model aggregation) })

    unfoldable pub fetch_state_root_update_aggregation :
        ℕ → ℕ → g.Table → Outcome Error (MessageBlsAggregation b)
    unfolding aggregation_to_message is_at
    fetch_state_root_update_aggregation rollup_id block_height t = do
      model ← g.first (is_at rollup_id block_height) t
      aggregation ← or_err model.aggregation aggregation_not_found
      ok (aggregation_to_message aggregation)

  module _ (g : Gorm OperatorSetUpdateModel) where
    unfoldable pub store_operator_set_update :
        OperatorSetUpdateMessage b
        → g.Table
        → Outcome Error ((ℕ × OperatorSetUpdateModel) × g.Table)
    unfolding new_operator_set_update_model has_update_id
    store_operator_set_update msg =
        g.first_or_create (has_update_id msg.id) (new_operator_set_update_model msg)

    unfoldable pub fetch_operator_set_update :
        ℕ → g.Table → Outcome Error (OperatorSetUpdateMessage b)
    unfolding operator_set_update_to_message has_update_id
    fetch_operator_set_update id t = do
      model ← g.first (has_update_id id) t
      ok (operator_set_update_to_message model)

    unfoldable pub store_operator_set_update_aggregation :
        ℕ × OperatorSetUpdateModel → MessageBlsAggregation b → g.Table → Outcome Error g.Table
    unfolding new_aggregation_model
    store_operator_set_update_aggregation (id, model) aggregation =
        g.replace id (record model { aggregation = some (new_aggregation_model aggregation) })

    unfoldable pub fetch_operator_set_update_aggregation :
        ℕ → g.Table → Outcome Error (MessageBlsAggregation b)
    unfolding aggregation_to_message has_update_id
    fetch_operator_set_update_aggregation id t = do
      model ← g.first (has_update_id id) t
      aggregation ← or_err model.aggregation aggregation_not_found
      ok (aggregation_to_message aggregation)

  -- A round of the loops of FetchCheckpointMessages, which leave out a row with no aggregation.
  unfoldable pub add_aggregated :
      {Message : Type 0}
      → Message
      → Option AggregationModel
      → List Message × List (MessageBlsAggregation b)
      → List Message × List (MessageBlsAggregation b)
  unfolding aggregation_to_message
  add_aggregated message none added = added
  add_aggregated message (some agg) added =
      (message ∷ added.0, aggregation_to_message agg ∷ added.1)

  unfoldable pub aggregated_state_root_updates :
      List StateRootUpdateModel → List StateRootUpdateMessage × List (MessageBlsAggregation b)
  unfolding state_root_update_to_message add_aggregated
  aggregated_state_root_updates [] = ([], [])
  aggregated_state_root_updates (model ∷ models) =
      add_aggregated (state_root_update_to_message model) model.aggregation
        (aggregated_state_root_updates models)

  unfoldable pub aggregated_operator_set_updates :
      List OperatorSetUpdateModel
      → List (OperatorSetUpdateMessage b) × List (MessageBlsAggregation b)
  unfolding operator_set_update_to_message add_aggregated
  aggregated_operator_set_updates [] = ([], [])
  aggregated_operator_set_updates (model ∷ models) =
      add_aggregated (operator_set_update_to_message model) model.aggregation
        (aggregated_operator_set_updates models)

  -- The result, from what the two loops gathered.
  abbrev pub checkpoint_of :
      List StateRootUpdateMessage × List (MessageBlsAggregation b)
      → List (OperatorSetUpdateMessage b) × List (MessageBlsAggregation b)
      → CheckpointMessages b
  checkpoint_of state_roots operator_sets = record {
    state_root_update_messages = state_roots.0;
    state_root_update_message_aggregations = state_roots.1;
    operator_set_update_messages = operator_sets.0;
    operator_set_update_message_aggregations = operator_sets.1;
  }

  module _ (g : Gorm StateRootUpdateModel) (h : Gorm OperatorSetUpdateModel) where
    -- FetchCheckpointMessages past its checks.
    unfoldable pub find_checkpoint_messages :
        ℕ → ℕ → g.Table → h.Table → Outcome Error (CheckpointMessages b)
    unfolding aggregated_state_root_updates aggregated_operator_set_updates
    find_checkpoint_messages from to t u = do
      state_root_updates ← g.find (λ model. is_within from to model.timestamp) t
      operator_set_updates ← h.find (λ model. is_within from to model.timestamp) u
      ok (
          checkpoint_of (aggregated_state_root_updates state_root_updates)
            (aggregated_operator_set_updates operator_set_updates))

    unfoldable pub fetch_checkpoint_messages :
        ℕ → ℕ → g.Table → h.Table → Outcome Error (CheckpointMessages b)
    unfolding find_checkpoint_messages
    fetch_checkpoint_messages from to t u =
        if ltb (2 ^ 63 - 1) from || ltb (2 ^ 63 - 1) to
        then err timestamp_not_int64
        else if ltb to from
        then err to_timestamp_less_than_from
        else find_checkpoint_messages from to t u
