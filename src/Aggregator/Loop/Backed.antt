-- ===== src/Aggregator/Loop/Backed.antt =====
-- Answers of the goroutines of aggregator/blsagg/message_blsagg.go, and what the handlers of
-- aggregator/aggregator.go make of them.
use near_sffl.Prelude.{
  ◌≡◌, refl, inl, inr, ◌⊎◌, List, [], ◌∷◌, Option, none, some, All, All-append, Among, among-All,
  Outcome, ok, err, abort, Option-cases, Bool-cases,
}
use near_sffl.Errors.{Error}
use near_sffl.Interface.{Bls, MessageType}
use near_sffl.Messages.Aggregation.{MessageBlsAggregation}
use near_sffl.Blsagg.Digest.Growth.{DigestMeets}
use near_sffl.Blsagg.Response.{Response}
use near_sffl.Blsagg.Response.Answer.{DigestFull}
use near_sffl.Blsagg.Collector.{Collector, pre_threshold, single_message_aggregator}
use near_sffl.Blsagg.Collector as Collectors
use near_sffl.Blsagg.Collector.Quorum.{IsDigested, responses_reach_quorum}
use near_sffl.Aggregator.Quorums.{
  CheckpointTask, Tasks, stored, stored_aggregation, broadcast, store_message, contract_call,
  send_aggregated_response_to_contract, handle_state_root_update_reached_quorum,
  handle_operator_set_update_reached_quorum,
}
use near_sffl.Aggregator.Quorums as Quorums

-- A goroutine of a BLS service: what it starts from, and what it meets.
pub record Goroutine (b : Bls) (t : MessageType) : Type 0 where
  pub initial : Collector b t
  pub events : List (Collectors.Event b t)

module _ (b : Bls) (t : MessageType) where
  abbrev pub finish : Goroutine b t → Collector b t
  finish g = single_message_aggregator b t g.initial g.events

  abbrev pub IsNew : Goroutine b t → Type 0
  IsNew g =
      (g.initial.phase ≡ pre_threshold) × (g.initial.responses ≡ []) × All (IsDigested b t) g.events

  -- One of the goroutines answered it.
  abbrev pub IsAnswer : List (Goroutine b t) → Response b t → Type 0
  IsAnswer gs r = (g : Goroutine b t) × Among g gs × Among r (finish g).responses

  -- One of the goroutines answered that message with that aggregation, without an error; and the
  -- signed stakes that it counted for the digest, as they stand in the end, meet every threshold
  -- or are each the total stake of their quorum.
  abbrev pub IsBacked : List (Goroutine b t) → t.Message → MessageBlsAggregation b → Type 0
  IsBacked gs m a =
      (g : Goroutine b t) × (r : Response b t) × Among g gs
      × Among r (finish g).responses
      × (r.error ≡ none)
      × (r.message ≡ some m)
      × (r.aggregation ≡ a)
      × (DigestMeets b (finish g).info a.message_digest
          ⊎ DigestFull b (finish g).info a.message_digest)

  pub IsAnswer-IsBacked :
      (gs : List (Goroutine b t)) (r : Response b t) (m : t.Message)
      → All IsNew gs
      → IsAnswer gs r
      → r.error ≡ none
      → r.message ≡ some m
      → IsBacked gs m r.aggregation
  IsAnswer-IsBacked gs r m new (g, p, q) e h =
      let (phase, responses, digested) = among-All IsNew g gs new p in
      elim (among-All _ r (finish g).responses
        (responses_reach_quorum b t g.initial g.events phase responses digested) q) [
          | inl x ↦ absurd (x e)
          | inr x ↦ (g, r, p, q, e, h, refl, x)
        ]

  -- The effect shows a backed message, or a backed aggregation.
  abbrev pub Shows : List (Goroutine b t) → Quorums.Effect b t → Type 0
  Shows gs (stored m) = (a : MessageBlsAggregation b) × IsBacked gs m a
  Shows gs (stored_aggregation a) = (m : t.Message) × IsBacked gs m a
  Shows gs (broadcast m a) = IsBacked gs m a

  stores-Show :
      (gs : List (Goroutine b t)) (store store_aggregation : Option Error) (m : t.Message)
      (a : MessageBlsAggregation b)
      → IsBacked gs m a
      → All (Shows gs) (store_message b t store store_aggregation m a)
  unfolding store_message
  stores-Show gs none none m a k = ((a, k), ((m, k), tt))
  stores-Show gs none (some e) m a k = ((a, k), tt)
  stores-Show gs (some e) store_aggregation m a k = tt

  -- Both handlers of a quorum: an error, no message, or effects that are backed.
  abbrev pub AllShow : List (Goroutine b t) → Outcome Error (List (Quorums.Effect b t)) → Type 0
  AllShow gs (ok es) = All (Shows gs) es
  AllShow gs (err e) = Unit {0}
  AllShow gs abort = Unit {0}

  module _ (gs : List (Goroutine b t)) (new : All IsNew gs) (store store_aggregation : Option Error)
      (r : Response b t) (answer : IsAnswer gs r) where
    pub state_roots-AllShow :
        AllShow gs (handle_state_root_update_reached_quorum b t store store_aggregation r)
    unfolding handle_state_root_update_reached_quorum
    state_roots-AllShow = elim (Option-cases r.error) [
      | inr (e, h) ↦ rw (h, handle_state_root_update_reached_quorum) tt
      | inl h ↦ elim (Option-cases r.message) [
        | inl g ↦ rw (h, g, handle_state_root_update_reached_quorum) tt
        | inr (m, g) ↦
            rw (h, g, handle_state_root_update_reached_quorum)
              (stores-Show gs store store_aggregation m r.aggregation
                (IsAnswer-IsBacked gs r m new answer h g))
      ]
    ]

    pub operator_sets-AllShow :
        AllShow gs (handle_operator_set_update_reached_quorum b t store store_aggregation r)
    unfolding handle_operator_set_update_reached_quorum
    operator_sets-AllShow = elim (Option-cases r.error) [
      | inr (e, h) ↦ rw (h, handle_operator_set_update_reached_quorum) tt
      | inl h ↦ elim (Option-cases r.message) [
        | inl g ↦ rw (h, g, handle_operator_set_update_reached_quorum) tt
        | inr (m, g) ↦
            let k = IsAnswer-IsBacked gs r m new answer h g in
            let shown = stores-Show gs store store_aggregation m r.aggregation k in
            elim (Bool-cases r.finished) [
              | inr f ↦ rw (h, g, f, handle_operator_set_update_reached_quorum) shown
              | inl f ↦
                  rw (h, g, f, handle_operator_set_update_reached_quorum)
                    (All-append (Shows gs)
                      (store_message b t store store_aggregation m r.aggregation)
                      (broadcast m r.aggregation ∷ []) shown (k, tt))
            ]
      ]
    ]
