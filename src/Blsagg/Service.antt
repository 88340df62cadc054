-- ===== src/Blsagg/Service.antt =====
-- The service of aggregator/blsagg/message_blsagg.go: its map of message channels, and the
-- goroutine that reads each. The lock makes each access to the map one step.
pub mod Lifecycle
use near_sffl.Prelude.{
  ℕ, ◌%◌, ◌^◌, List, [], ◌∷◌, ◌++◌, map, Bool, true, false, Option, none, some, if◌then◌else◌, ◌==◌,
  Outcome, ok, err, abort, ◌>>=◌,
}
use near_sffl.Dict.{Dict, lookup, insert, delete}
use near_sffl.Errors.{Error, message_not_found, message_digest_not_found}
use near_sffl.Interface.{Bls, MessageType}
use near_sffl.Blsagg.Stake.{validate_quorum_threshold_percentages}
use near_sffl.Blsagg.Digest.{OperatorAvsState, ValidationInfo, SignedMessage}
use near_sffl.Blsagg.Response.{GetIndices}
use near_sffl.Blsagg.Collector.{
  Collector, Phase, pre_threshold, waits_for_full_stake, returned, aborted, Event, signed, timer,
  step,
}

-- eigentypes.QuorumAvsState, the fields that the service reads.
pub record QuorumAvsState (b : Bls) : Type 0 where
  pub total_stake : ℕ
  pub agg_pubkey_g1 : Option b.G1

-- The answers of the chain while a message is initialized: `ethClient.BlockNumber`, and
-- `GetOperatorsAvsStateAtBlock` and `GetQuorumsAvsStateAtBlock` by quorum numbers and block.
pub record Chain (b : Bls) : Type 0 where
  pub block_number : Outcome Error ℕ
  pub get_operators_avs_state : List ℕ → ℕ → Outcome Error (Dict (OperatorAvsState b))
  pub get_quorums_avs_state : List ℕ → ℕ → Outcome Error (Dict (QuorumAvsState b))

-- What stands behind a channel of `signedMessageCs`: nobody yet or no more, or a goroutine.
pub data Reader (b : Bls) (t : MessageType) : Type 0 where
  unread : Reader b t
  read_by : Collector b t → Reader b t

abbrev pub Service : Bls → MessageType → Type 0
Service b t = Dict (Reader b t)

-- What the caller of `ProcessNewSignature` gets: a result, or a send that nobody receives.
pub data Delivery : Type 0 where
  delivered : Option Error → Delivery
  blocked process_ended : Delivery

-- `quorumThresholdPercentagesMap`: an index out of range panics.
unfoldable pub threshold_map : List ℕ → List ℕ → Dict ℕ → Outcome Error (Dict ℕ)
threshold_map [] ps m = ok m
threshold_map (q ∷ qs) [] m = abort
threshold_map (q ∷ qs) (p ∷ ps) m = threshold_map qs ps (insert q p m)

abbrev or_fatal : Outcome Error ℕ → Outcome Error ℕ
or_fatal (ok n) = ok n
or_fatal (err e) = abort
or_fatal abort = abort

module _ (b : Bls) where
  abbrev pub apk_of : Dict (QuorumAvsState b) → ℕ → Option b.G1
  apk_of qs q = elim (lookup q qs) [ none ↦ none | some s ↦ s.agg_pubkey_g1 ]

  -- The block to ask about; no answer is `logger.Fatal`.
  unfoldable pub block_to_ask : Chain b → ℕ → Outcome Error ℕ
  block_to_ask chain block = if block == 0 then or_fatal chain.block_number else ok block

  unfoldable pub fetch_validation_info :
      Chain b → List ℕ → List ℕ → ℕ → Outcome Error (ValidationInfo b)
  unfolding block_to_ask
  fetch_validation_info chain quorum_numbers percentages eth_block_number = do
    block ← block_to_ask chain eth_block_number
    operators ← chain.get_operators_avs_state quorum_numbers (block % 2 ^ 32)
    quorums ← chain.get_quorums_avs_state quorum_numbers (block % 2 ^ 32)
    thresholds ← threshold_map quorum_numbers percentages []
    ok (record {
      operators_avs_state = operators;
      total_stake_per_quorum = map (λ e. (e.0, e.1.total_stake)) quorums;
      quorum_apks_g1 = map (apk_of quorums) quorum_numbers;
      aggregated_operators = [];
      quorum_threshold_percentages = thresholds;
      quorum_numbers = quorum_numbers;
      eth_block_number = block;
    })

abbrev not_received : Option Error → Delivery
not_received none = blocked
not_received (some e) = delivered (some e)

module _ (b : Bls) (t : MessageType) where
  abbrev pub start_collector : ℕ → ValidationInfo b → Collector b t
  start_collector key info = record {
    message_key = key;
    info = info;
    phase = pre_threshold;
    responses = [];
    replies = [];
  }

  -- `InitializeMessageIfNotExists` behind the check of the percentages: the channel goes into the
  -- map before the chain is asked, and stays there when that fails.
  unfoldable pub initialize_channel :
      Chain b → ℕ → List ℕ → List ℕ → ℕ → Service b t → Service b t × Outcome Error (Unit {0})
  initialize_channel chain key quorum_numbers percentages block s = elim (lookup key s) [
    | some r ↦ (s, ok tt)
    | none ↦ elim (fetch_validation_info b chain quorum_numbers percentages block) [
      | ok info ↦ (insert key (read_by (start_collector key info)) s, ok tt)
      | err e ↦ (insert key unread s, err e)
      | abort ↦ (insert key unread s, abort)
    ]
  ]

  unfoldable pub initialize_message_if_not_exists :
      Chain b → ℕ → List ℕ → List ℕ → ℕ → Service b t → Service b t × Outcome Error (Unit {0})
  unfolding initialize_channel
  initialize_message_if_not_exists chain key quorum_numbers percentages block s =
      elim (validate_quorum_threshold_percentages percentages) [
        | some e ↦ (s, err e)
        | none ↦ initialize_channel chain key quorum_numbers percentages block s
      ]

  -- `closeMessageGoroutine`, when the goroutine returns.
  unfoldable pub settle : ℕ → Phase t → Collector b t → Service b t → Service b t
  settle key returned c s = delete key s
  settle key _ c s = insert key (read_by c) s

  abbrev pub last_reply : List (Option Error) → Delivery
  last_reply [] = process_ended
  last_reply (e ∷ []) = delivered e
  last_reply (e ∷ f ∷ es) = last_reply (f ∷ es)

  abbrev pub delivery : Phase t → List (Option Error) → Delivery
  delivery aborted replies = process_ended
  delivery _ replies = last_reply replies

  -- A goroutine takes an event.
  unfoldable pub advance : ℕ → Collector b t → Event b t → Service b t → Service b t × Delivery
  unfolding settle
  advance key c e s =
      let c' = step b t c e in (settle key c'.phase c' s, delivery c'.phase c'.replies)

  -- The `select` of `ProcessNewSignature`.
  unfoldable pub receive :
      GetIndices
      → Option Error
      → t.Message
      → ℕ
      → b.Signature
      → ℕ
      → Service b t
      → Reader b t
      → Service b t × Delivery
  unfolding advance
  receive get_indices ctx m digest signature operator s unread = (s, not_received ctx)
  receive get_indices ctx m digest signature operator s (read_by c) =
      advance (t.key m) c
        (signed
          (record {
            message = m;
            message_digest = digest;
            bls_signature = signature;
            operator_id = operator;
          })
          get_indices)
        s

  -- `ctx` is what `ctx.Err()` gives when the caller's context ends before anybody reads.
  unfoldable pub process_new_signature :
      GetIndices → Option Error → t.Message → b.Signature → ℕ → Service b t → Service b t × Delivery
  unfolding receive
  process_new_signature get_indices ctx m signature operator s = elim (lookup (t.key m) s) [
    | none ↦ (s, delivered (some (message_not_found (t.key m))))
    | some r ↦ elim (t.digest m) [
      | err e ↦ (s, delivered (some message_digest_not_found))
      | abort ↦ (s, process_ended)
      | ok digest ↦ receive get_indices ctx m digest signature operator s r
    ]
  ]

  -- The timer of the goroutine of a key.
  unfoldable pub expire : GetIndices → ℕ → Service b t → Service b t
  unfolding advance
  expire get_indices key s = elim (lookup key s) [
    | none ↦ s
    | some r ↦ elim r [ unread ↦ s | read_by c ↦ (advance key c (timer get_indices) s).0 ]
  ]
