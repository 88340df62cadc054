-- ===== src/Examples/AttestorRuns.antt =====
-- The theorems about the attestor and the data availability queues (operator/attestor,
-- operator/consumer) at small inputs.
use near_sffl.Prelude.{
  ℕ, ◌≡◌, ◌+◌, refl, inl, List, [], ◌∷◌, Outcome, ok, err, some, ◌==◌, if◌then◌else◌, All,
}
use near_sffl.Dict.{lookup, insert, delete}
use near_sffl.Errors.{Error, external}
use near_sffl.Messages.StateRootUpdate.{StateRootUpdateMessage, SignedStateRootUpdateMessage}
use near_sffl.Operator.Attestor.{
  Signer, BlockData, predicate, Event, header, mq_block, mq_timeout, mq_found, run,
}
use near_sffl.Operator.Attestor.Faithful.{IsFaithful, signed_roots-IsFaithful}
use near_sffl.Operator.Consumer.{PublishPayload, Codec, Arrival, delivered, closed, listen}
use near_sffl.Operator.Consumer.Origin.{HasOrigin}
use near_sffl.Operator.Consumer.Attested.{Delivered, PassedOn, signed_roots_from_queues}
use near_sffl.Operator.Notifier.{notify}
use near_sffl.Examples.Setting.{bls, eth}

abbrev signer : Signer bls
signer = record { digest = λ m. ok (m.state_root + 1); sign_message = λ d. d + 3; operator_id = 8 }

-- A message is a number, zero the one that is broken; its one blob holds the block of height 5.
abbrev payload_of : ℕ → Outcome Error (PublishPayload ℕ)
payload_of n =
    if n == 0 then err (external 1) else ok (record { transaction_id = n; contents = n + 1 })

abbrev pub codec : Codec eth
codec = record {
  Bytes = ℕ;
  publish_payload = payload_of;
  submit_request = λ n. ok (record { commitment = 77; contents = n } ∷ []);
  decode_blocks = λ n. ok ((5, 1000, 42) ∷ []);
}

abbrev found_block : BlockData eth
found_block = record { rollup_id = 2; commitment = 77; transaction_id = 9; block = (5, 1000, 42) }

abbrev events : List (Event eth bls signer)
events =
    header 2 (5, 1000, 42)
    ∷ header 2 (6, 1002, 43)
    ∷ mq_block found_block
    ∷ mq_found 0
    ∷ mq_timeout 1
    ∷ []

abbrev first_message : StateRootUpdateMessage
first_message = record {
  rollup_id = 2;
  block_height = 5;
  timestamp = 1000;
  near_da_transaction_id = 9;
  near_da_commitment = 77;
  state_root = 42;
}

abbrev second_message : StateRootUpdateMessage
second_message = record {
  rollup_id = 2;
  block_height = 6;
  timestamp = 1002;
  near_da_transaction_id = 0;
  near_da_commitment = 0;
  state_root = 43;
}

abbrev signed : List (SignedStateRootUpdateMessage bls)
signed =
    record { message = first_message; bls_signature = some 46; operator_id = 8 }
    ∷ record { message = second_message; bls_signature = some 47; operator_id = 8 }
    ∷ []

abbrev Heard : ℕ → ℕ × ℕ × ℕ → Type 0
Heard rollup_id h = rollup_id ≡ 2

signed_roots-IsFaithful_example :
    All (IsFaithful eth bls signer Heard (λ d. d.commitment ≡ 77)) signed
unfolding run predicate notify lookup insert delete
signed_roots-IsFaithful_example =
    signed_roots-IsFaithful eth bls signer Heard (λ d. d.commitment ≡ 77) events
      (refl, (refl, (refl, (tt, (tt, tt)))))

abbrev arrivals : ℕ → List (Arrival eth codec)
arrivals rollup_id = delivered 0 ∷ delivered 9 ∷ closed ∷ []

passed_on : PassedOn eth codec arrivals found_block
unfolding listen delete
passed_on = (2, inl refl)

signed_roots_from_queues_example :
    All
      (IsFaithful eth bls signer Heard (HasOrigin eth codec (Delivered eth codec arrivals)))
      signed
unfolding run predicate notify lookup insert delete
signed_roots_from_queues_example =
    signed_roots_from_queues eth codec bls signer Heard arrivals events
      (refl, (refl, (passed_on, (tt, (tt, tt)))))
