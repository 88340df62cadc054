-- ===== src/Aggregator/RpcServer/Validity.antt =====
-- What the checks of aggregator/rpc_server/server.go and of core/types/messages let through.
use near_sffl.Prelude.{
  ℕ, ◌+◌, ◌≡◌, ◌≤◌, refl, inl, inr, ◌⊎◌, ◌↔◌, List, [], ◌∷◌, Option, none, some, arith, All,
  Outcome, Option-cases,
}
use near_sffl.Errors.{Error}
use near_sffl.Interface.{Bls}
use near_sffl.Messages.OperatorSetUpdate.{
  RollupOperator, OperatorSetUpdateMessage, SignedOperatorSetUpdateMessage, operators_valid,
  is_valid,
}
use near_sffl.Blsagg.Service.{Service, delivered}
use near_sffl.Aggregator.Requests.{World, operator_set_updates}
use near_sffl.Aggregator.RpcServer.{
  serve, rpc_process_signed_operator_set_update_message, CheckpointArgs, args_is_valid,
}

-- The arguments for checkpoint messages are valid exactly when the range does not end before it
-- starts and is at most two hours long.
args_is_valid_iff :
    (args : CheckpointArgs)
    → (args_is_valid (some args) ≡ none) ↔ (
        (args.from_timestamp ≤ args.to_timestamp)
        × (args.to_timestamp ≤ args.from_timestamp + 7200))
unfolding args_is_valid
args_is_valid_iff args = ground arith

module _ (b : Bls) where
  -- The operator has its key and its weight.
  abbrev pub IsGiven : RollupOperator b → Type 0
  IsGiven o = ((p : b.G1) × (o.pubkey ≡ some p)) × ((w : ℕ) × (o.weight ≡ some w))

  operators_valid-IsGiven :
      (os : List (RollupOperator b)) → operators_valid b os ≡ none → All IsGiven os
  unfolding operators_valid
  operators_valid-IsGiven [] h = tt
  operators_valid-IsGiven (o ∷ os) h = elim (Option-cases o.pubkey) [
    | inl e ↦ absurd (ground arith)
    | inr (p, e) ↦ elim (Option-cases o.weight) [
      | inl f ↦ absurd (ground arith)
      | inr (w, f) ↦ (((p, e), (w, f)), operators_valid-IsGiven os (ground arith))
    ]
  ]

  -- The request is there, with its signature and all its operators' keys and weights.
  abbrev pub IsComplete : Option (SignedOperatorSetUpdateMessage b) → Type 0
  IsComplete request =
      (r : SignedOperatorSetUpdateMessage b) × (p : b.Signature) × (request ≡ some r)
      × (r.bls_signature ≡ some p)
      × All IsGiven r.message.operators

  is_valid-IsComplete :
      (request : Option (SignedOperatorSetUpdateMessage b))
      → is_valid b request ≡ none
      → IsComplete request
  unfolding is_valid
  is_valid-IsComplete none h = absurd (ground arith)
  is_valid-IsComplete (some r) h = elim (Option-cases r.bls_signature) [
    | inl e ↦ absurd (ground arith)
    | inr (p, e) ↦ (r, p, refl, e, operators_valid-IsGiven r.message.operators (ground arith))
  ]

  -- An operator set update that comes without a message, a signature, or the key or weight of one of
  -- its operators is answered with an error and changes nothing.
  pub incomplete_operator_set_update_refused :
      (digest : OperatorSetUpdateMessage b → Outcome Error ℕ) (w : World b)
      (request : Option (SignedOperatorSetUpdateMessage b))
      (s : Service b (operator_set_updates b digest))
      → IsComplete request
        ⊎ ((e : Error) × (rpc_process_signed_operator_set_update_message b digest w request s
              ≡ (s, delivered (some e))))
  unfolding rpc_process_signed_operator_set_update_message serve
  incomplete_operator_set_update_refused digest w request s =
      elim (Option-cases (is_valid b request)) [
        | inl h ↦ inl (is_valid-IsComplete request h)
        | inr (e, h) ↦ inr (e, rw (h, serve) refl)
      ]
