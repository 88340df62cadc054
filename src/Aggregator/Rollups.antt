-- ===== src/Aggregator/Rollups.antt =====
-- aggregator/rollup_writer.go and aggregator/rollup_broadcaster.go: what is sent to the registry of
-- each rollup, with its retries. What an attempt meets is an argument; waiting is left out.
pub mod Retries
use near_sffl.Prelude.{
  ℕ, zero, suc, ◌+◌, ◌-◌, ◌%◌, ◌^◌, List, [], ◌∷◌, ◌++◌, map, Bool, true, false, Option, none, some,
  ◌==◌, if◌then◌else◌, Outcome, ok, err, abort, ◌>>=◌,
}
use near_sffl.Errors.{
  Error, context_canceled, failed_to_initialize_operator_set, failed_to_update_operator_set,
  failed_to_fetch_operator_set_early, failed_to_fetch_operator_set,
}

-- INITIALIZE_OPERATOR_SET_RETRIES, UPDATE_OPERATOR_SET_RETRIES, GET_OPERATOR_SET_RETRIES
abbrev pub retries : ℕ
retries = 5

-- The loop that the three functions share: the i-th attempt, whether the context ends while it
-- waits after it, and the errors that end the loop: `early` when the context ended, `late` when no
-- attempt is left.
unfoldable pub retry {ℓ} :
    {A : Type ℓ} → (ℕ → Outcome Error A) → (ℕ → Bool) → Error → Error → ℕ → ℕ → Outcome Error A
retry attempt done early late zero i = err late
retry attempt done early late (suc n) i =
    let rest = retry attempt done early late n (suc i) in
    elim (attempt i) [ ok a ↦ ok a | abort ↦ abort | err e ↦ if done i then err early else rest ]

-- What an attempt meets: the answers of the transaction manager and of the registry's contract.
pub record Attempt : Type 0 where
  pub get_no_send_tx_opts : Outcome Error (Unit {0})
  pub next_operator_update_id : Outcome Error ℕ
  pub assemble : Outcome Error (Unit {0})
  pub send : Outcome Error (Unit {0})

-- What an attempt comes to: a transaction was sent, with the id that it gives the contract, or none
-- was needed.
pub data Written : Type 0 where
  sent : ℕ → Written
  not_needed : Written

-- The contract is given the id after that of the update, in uint64.
unfoldable pub initialize_attempt : ℕ → Attempt → Outcome Error Written
initialize_attempt id a = do
  opts ← a.get_no_send_tx_opts
  tx ← a.assemble
  receipt ← a.send
  ok (sent ((id + 1) % 2 ^ 64))

-- Another id than the next one is no error.
unfoldable pub update_attempt : ℕ → Attempt → Outcome Error Written
update_attempt id a = do
  opts ← a.get_no_send_tx_opts
  next ← a.next_operator_update_id
  if id == next then (a.assemble >>= λ tx. a.send >>= λ receipt. ok (sent id)) else ok not_needed

-- InitializeOperatorSet
unfoldable pub initialize_operator_set : ℕ → (ℕ → Attempt) → (ℕ → Bool) → Outcome Error Written
unfolding retry initialize_attempt
initialize_operator_set id attempts done =
    retry (λ i. initialize_attempt id (attempts i)) done context_canceled
      failed_to_initialize_operator_set retries 0

-- UpdateOperatorSet
unfoldable pub update_operator_set : ℕ → (ℕ → Attempt) → (ℕ → Bool) → Outcome Error Written
unfolding retry update_attempt
update_operator_set id attempts done =
    retry (λ i. update_attempt id (attempts i)) done context_canceled failed_to_update_operator_set
      retries 0

-- tryGetOperatorSetById
unfoldable pub try_get_operator_set_by_id {ℓ} :
    {A : Type ℓ} → (ℕ → Outcome Error A) → (ℕ → Bool) → Outcome Error A
unfolding retry
try_get_operator_set_by_id fetch done =
    retry fetch done failed_to_fetch_operator_set_early failed_to_fetch_operator_set retries 0

-- tryInitializeRollupOperatorSet: the operators and the id that go to `InitializeOperatorSet`, if
-- it comes to that. The ids are uint64.
unfoldable pub rollup_to_initialize {ℓ} :
    {A : Type ℓ}
    → Outcome Error ℕ
    → ℕ
    → (ℕ → ℕ → Outcome Error A)
    → (ℕ → Bool)
    → Outcome Error (Option (A × ℕ))
unfolding try_get_operator_set_by_id
rollup_to_initialize rollup_next_id mainnet_next_id fetch done = elim rollup_next_id [
  | err e ↦ err e
  | abort ↦ abort
  | ok next ↦
      let id = (mainnet_next_id + 2 ^ 64 - 1) % 2 ^ 64 in
      if next == 0
      then elim (try_get_operator_set_by_id (fetch id) done) [
        | ok operators ↦ ok (some (operators, id))
        | err e ↦ err e
        | abort ↦ abort
      ]
      else ok none
]
