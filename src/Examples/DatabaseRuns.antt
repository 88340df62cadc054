-- ===== src/Examples/DatabaseRuns.antt =====
-- The theorems about the aggregator's database and its REST server (aggregator/database,
-- aggregator/rest_server) at small inputs.
use near_sffl.Prelude.{ℕ, ◌≡◌, ◌↔◌, ◌⊎◌, refl, List, [], ◌∷◌, Option, none, some, ok}
use near_sffl.Dict.{Dict, insert}
use near_sffl.Messages.Aggregation.{MessageBlsAggregation, default_aggregation}
use near_sffl.Messages.StateRootUpdate.{StateRootUpdateMessage}
use near_sffl.Messages.CheckpointMessages.{CheckpointMessages}
use near_sffl.Aggregator.Database.{
  StateRootUpdateModel, new_aggregation_model, fetch_state_root_update,
  fetch_state_root_update_aggregation,
}
use near_sffl.Aggregator.Database.Orm.{first_match}
use near_sffl.Aggregator.Database.Reads.{first_message, last_aggregation}
use near_sffl.Aggregator.Database.Refinement.{record_state_roots, state_root_updates_refine}
use near_sffl.Aggregator.RestServer.{Strconv, handle_get_state_root_update_aggregation}
use near_sffl.Aggregator.RestServer.Answers.{Page, state_root_update_page}
use near_sffl.Examples.Setting.{bls}
use near_sffl.Examples.Tables.{memory}

-- Two messages about one block, with different state roots, and one about another.
abbrev about : ℕ → ℕ → StateRootUpdateMessage
about block_height root = record {
  rollup_id = 2;
  block_height = block_height;
  timestamp = 1000;
  near_da_transaction_id = 0;
  near_da_commitment = 0;
  state_root = root;
}

abbrev signed_for : ℕ → MessageBlsAggregation bls
signed_for digest = default_aggregation bls digest 12

abbrev stores : List (StateRootUpdateMessage × MessageBlsAggregation bls)
stores =
    (about 5 42, signed_for 142) ∷ (about 6 50, signed_for 150) ∷ (about 5 43, signed_for 143) ∷ []

abbrev row : ℕ → ℕ → ℕ → ℕ × StateRootUpdateModel bls
row id height root = (
  id,
  record {
    rollup_id = 2;
    block_height = height;
    timestamp = 1000;
    near_da_transaction_id = 0;
    near_da_commitment = 0;
    state_root = root;
    aggregation = none;
  },
)

abbrev tables : Dict (StateRootUpdateModel bls)
unfolding new_aggregation_model
tables =
    (1, record (row 1 5 42).1 { aggregation = some (new_aggregation_model bls (signed_for 143)) })
    ∷ (2, record (row 2 6 50).1 { aggregation = some (new_aggregation_model bls (signed_for 150)) })
    ∷ []

stored : record_state_roots bls (memory (StateRootUpdateModel bls)) stores [] ≡ ok tables
unfolding tables record_state_roots first_match insert
stored = refl

-- The aggregation that is read with the first message is that of the last one.
state_root_updates_refine_example :
    ((m : StateRootUpdateMessage)
      → (fetch_state_root_update bls (memory (StateRootUpdateModel bls)) 2 5 tables ≡ ok m)
        ↔ (◌≡◌ {A = Option StateRootUpdateMessage} (some (about 5 42)) (some m)))
    × ((a : MessageBlsAggregation bls)
        → (fetch_state_root_update_aggregation bls (memory (StateRootUpdateModel bls)) 2 5 tables
            ≡ ok a)
          ↔ (◌≡◌ {A = Option (MessageBlsAggregation bls)} (some (signed_for 143)) (some a)))
unfolding first_message last_aggregation
state_root_updates_refine_example =
    state_root_updates_refine bls (memory (StateRootUpdateModel bls)) stores [] tables 2 5 refl
      stored refl

-- Texts are numbers, and 0 is one that cannot be read.
abbrev strconv : Strconv
strconv = record { Text = ℕ; parse_uint = λ bits text. ok text }

state_root_update_page_example :
    let page : Page bls strconv (memory (StateRootUpdateModel bls)) =
      handle_get_state_root_update_aggregation bls strconv
        (memory (StateRootUpdateModel bls))
        2
        5
        tables in
    ((m : StateRootUpdateMessage) × (a : MessageBlsAggregation bls) × (◌≡◌
        {A = Option StateRootUpdateMessage}
        (some (about 5 42))
        (some m))
      × (◌≡◌ {A = Option (MessageBlsAggregation bls)} (some (signed_for 143)) (some a))
      × (page ≡ some (record { status = 200; body = some (m, a) })))
    ⊎ ((◌≡◌ {A = Option StateRootUpdateMessage} (some (about 5 42)) none)
        × (page ≡ some (record { status = 404; body = none })))
unfolding first_message last_aggregation
state_root_update_page_example =
    state_root_update_page bls strconv (memory (StateRootUpdateModel bls)) stores [] tables 2 5 2 5
      refl stored refl refl refl
