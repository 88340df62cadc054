-- ===== src/Errors.antt =====
-- The `error` values of the Go code: the package variables (aggregator/blsagg/message_blsagg.go,
-- aggregator/aggregator.go) and the errors made in place by `errors.New`, one constructor each.
-- `external` is an error that a library or a remote call made, told apart by a number.
use near_sffl.Prelude.{ℕ, ℕ_discrete}

pub data Error : Type 0 where
  -- aggregator/blsagg
  message_not_found : ℕ → Error
  operator_not_part : ℕ → ℕ → Error
  message_expired signature_verification incorrect_signature message_digest_not_found : Error
  quorum_threshold_out_of_bounds quorum_threshold_less_than_51 : Error
  -- aggregator
  digest_error task_response_digest_error get_operator_set_update_block_error : Error
  operator_not_found invalid_signature unsupported_message_type message_timeout : Error
  state_root_update_not_found state_root_agg_not_found operator_set_not_found : Error
  operator_agg_not_found checkpoint_not_found : Error
  failed_to_initialize_operator_set failed_to_update_operator_set : Error
  failed_to_fetch_operator_set_early failed_to_fetch_operator_set : Error
  -- aggregator/database
  timestamp_not_int64 to_timestamp_less_than_from aggregation_not_found : Error
  -- aggregator/rpc_server
  message_digest_not_found_500 task_response_digest_not_found_500 : Error
  operator_set_update_block_not_found_500 invalid_signature_400 operator_not_found_400 : Error
  message_expired_500 : Error
  args_nil from_greater_than_to range_exceeds_2_hours : Error
  -- core/types/messages
  message_nil signature_point_nil operator_pubkey_nil operator_weight_nil : Error
  -- operator
  rpc_client_nil mismatching_registry_coordinator unknown_rollup_id queue_exists : Error
  already_closed operator_not_registered : Error
  -- relayer
  unknown_submission_error failed_to_submit_blocks : Error
  -- the standard library's
  context_canceled rpc_shutdown : Error
  external : ℕ → Error

pub Error-discrete : Discrete Error
Error-discrete = hlevel ℕ_discrete
