-- ===== src/Aggregator/RestServer.antt =====
-- aggregator/rest_server/server.go, and what aggregator/aggregator.go answers to it. `ParseUint` of
-- strconv is a parameter; a reply is its status, with its body where it has one.
pub mod Answers
use near_sffl.Prelude.{ℕ, Option, none, some, Outcome, ok, err, abort, ◌>>=◌}
use near_sffl.Errors.{
  Error, state_root_update_not_found, state_root_agg_not_found, operator_set_not_found,
  operator_agg_not_found, checkpoint_not_found,
}
use near_sffl.Interface.{Bls}
use near_sffl.Messages.Aggregation.{MessageBlsAggregation}
use near_sffl.Messages.StateRootUpdate.{StateRootUpdateMessage}
use near_sffl.Messages.OperatorSetUpdate.{OperatorSetUpdateMessage}
use near_sffl.Messages.CheckpointMessages.{CheckpointMessages}
use near_sffl.Aggregator.Database.{
  StateRootUpdateModel, OperatorSetUpdateModel, fetch_state_root_update,
  fetch_state_root_update_aggregation, fetch_operator_set_update,
  fetch_operator_set_update_aggregation, fetch_checkpoint_messages,
}
use near_sffl.Aggregator.Database.Orm.{Gorm}

-- The caller's own error in place of the one that came.
abbrev pub replace_error {ℓ} : {A : Type ℓ} → Outcome Error A → Error → Outcome Error A
replace_error (ok a) e = ok a
replace_error (err _) e = err e
replace_error abort e = abort

module _ (b : Bls) where
  unfoldable pub get_state_root_update_aggregation :
      (g : Gorm (StateRootUpdateModel b))
      → ℕ
      → ℕ
      → g.Table
      → Outcome Error (StateRootUpdateMessage × MessageBlsAggregation b)
  get_state_root_update_aggregation g rollup_id block_height t = do
    message ←
        replace_error (fetch_state_root_update b g rollup_id block_height t)
          state_root_update_not_found
    aggregation ←
        replace_error (fetch_state_root_update_aggregation b g rollup_id block_height t)
          state_root_agg_not_found
    ok (message, aggregation)

  unfoldable pub get_operator_set_update_aggregation :
      (g : Gorm (OperatorSetUpdateModel b))
      → ℕ
      → g.Table
      → Outcome Error (OperatorSetUpdateMessage b × MessageBlsAggregation b)
  get_operator_set_update_aggregation g id t = do
    message ← replace_error (fetch_operator_set_update b g id t) operator_set_not_found
    aggregation ←
        replace_error (fetch_operator_set_update_aggregation b g id t) operator_agg_not_found
    ok (message, aggregation)

  unfoldable pub get_checkpoint_messages :
      (g : Gorm (StateRootUpdateModel b)) (h : Gorm (OperatorSetUpdateModel b))
      → ℕ
      → ℕ
      → g.Table
      → h.Table
      → Outcome Error (CheckpointMessages b)
  get_checkpoint_messages g h from to t u =
      replace_error (fetch_checkpoint_messages b g h from to t u) checkpoint_not_found

-- errorToCode, and the errors that it does not hold.
unfoldable pub map_error_to_code : Error → ℕ
map_error_to_code state_root_update_not_found = 404
map_error_to_code state_root_agg_not_found = 404
map_error_to_code operator_set_not_found = 404
map_error_to_code operator_agg_not_found = 404
map_error_to_code e = 500

pub record Reply {ℓ} (A : Type ℓ) : Type ℓ where
  pub status : ℕ
  pub body : Option A

-- The end of each handler; `net/http` answers nothing where a handler panics.
unfoldable pub reply {ℓ} : {A : Type ℓ} → Outcome Error A → Option (Reply A)
unfolding map_error_to_code
reply (ok a) = some (record { status = 200; body = some a })
reply (err e) = some (record { status = map_error_to_code e; body = none })
reply abort = none

abbrev pub bad_request {ℓ} : {A : Type ℓ} → Option (Reply A)
bad_request = some (record { status = 400; body = none })

-- A handler goes on with a number that was read, and refuses the request otherwise.
abbrev pub on_number {ℓ} :
    {A : Type ℓ} → Outcome Error ℕ → (ℕ → Option (Reply A)) → Option (Reply A)
on_number (ok n) handle = handle n
on_number (err e) handle = bad_request
on_number abort handle = bad_request

-- `strconv.ParseUint(text, 10, bits)`
pub record Strconv : Type 1 where
  pub Text : Type 0
  pub parse_uint : ℕ → Text → Outcome Error ℕ

module _ (b : Bls) (c : Strconv) where
  -- A parameter of the query, in so many bits.
  abbrev pub with_uint {ℓ} : {A : Type ℓ} → ℕ → c.Text → (ℕ → Option (Reply A)) → Option (Reply A)
  with_uint bits text handle = on_number (c.parse_uint bits text) handle

  unfoldable pub handle_get_state_root_update_aggregation :
      (g : Gorm (StateRootUpdateModel b))
      → c.Text
      → c.Text
      → g.Table
      → Option (Reply (StateRootUpdateMessage × MessageBlsAggregation b))
  unfolding reply get_state_root_update_aggregation
  handle_get_state_root_update_aggregation g rollup_id_text block_height_text t =
      with_uint 32 rollup_id_text λ rollup_id.
        with_uint 64 block_height_text
          λ block_height. reply (get_state_root_update_aggregation b g rollup_id block_height t)

  unfoldable pub handle_get_operator_set_update_aggregation :
      (g : Gorm (OperatorSetUpdateModel b))
      → c.Text
      → g.Table
      → Option (Reply (OperatorSetUpdateMessage b × MessageBlsAggregation b))
  unfolding reply get_operator_set_update_aggregation
  handle_get_operator_set_update_aggregation g id_text t =
      with_uint 64 id_text λ id. reply (get_operator_set_update_aggregation b g id t)

  unfoldable pub handle_get_checkpoint_messages :
      (g : Gorm (StateRootUpdateModel b)) (h : Gorm (OperatorSetUpdateModel b))
      → c.Text
      → c.Text
      → g.Table
      → h.Table
      → Option (Reply (CheckpointMessages b))
  unfolding reply get_checkpoint_messages
  handle_get_checkpoint_messages g h from_text to_text t u =
      with_uint 64 from_text
        λ from. with_uint 64 to_text λ to. reply (get_checkpoint_messages b g h from to t u)
