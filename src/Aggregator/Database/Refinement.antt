-- ===== src/Aggregator/Database/Refinement.antt =====
-- What is read back from aggregator/database/database.go after any stores.
use mathlib.Core.Path.{subst, fun_ext}
use near_sffl.Prelude.{
  ℕ, ◌≡◌, refl, sym, ap, ◌∙◌, ◌↔◌, List, [], ◌∷◌, Bool, true, Option, none, some, arith, ◌==◌, ◌&&◌,
  Outcome, ok, ◌>>=◌, or_err,
}
use near_sffl.Errors.{Error, aggregation_not_found}
use near_sffl.Interface.{Bls}
use near_sffl.Messages.Aggregation.{MessageBlsAggregation}
use near_sffl.Messages.StateRootUpdate.{StateRootUpdateMessage}
use near_sffl.Aggregator.Database.{
  AggregationModel, StateRootUpdateModel, new_aggregation_model, aggregation_to_message,
  new_state_root_update_model, state_root_update_to_message, is_at, store_state_root_update,
  fetch_state_root_update, store_state_root_update_aggregation, fetch_state_root_update_aggregation,
}
use near_sffl.Aggregator.Database.Orm.{Gorm}
use near_sffl.Aggregator.Database.Kinds.{Kind, keep, keep_all}
use near_sffl.Aggregator.Database.Reads.{first_message, last_aggregation, reads_refine}

module _ (b : Bls) where
  -- The two stores of a message that reached its quorum.
  unfoldable pub record_state_root :
      (g : Gorm (StateRootUpdateModel b))
      → StateRootUpdateMessage × MessageBlsAggregation b
      → g.Table
      → Outcome Error g.Table
  unfolding store_state_root_update store_state_root_update_aggregation
  record_state_root g (m, a) t = do
    stored ← store_state_root_update b g m t
    store_state_root_update_aggregation b g stored.0 a stored.1

  unfoldable pub record_state_roots :
      (g : Gorm (StateRootUpdateModel b))
      → List (StateRootUpdateMessage × MessageBlsAggregation b)
      → g.Table
      → Outcome Error g.Table
  unfolding record_state_root
  record_state_roots g [] t = ok t
  record_state_roots g (op ∷ ops) t = do t' ← record_state_root g op t; record_state_roots g ops t'

  -- The aggregation of a row, as a message.
  abbrev pub aggregation_of : Option (AggregationModel b) → Option (MessageBlsAggregation b)
  aggregation_of none = none
  aggregation_of (some a) = some (aggregation_to_message b a)

  abbrev pub at_key : ℕ × ℕ → StateRootUpdateMessage → Bool
  at_key q m = m.rollup_id == q.0 && m.block_height == q.1

  pub at_key_iff :
      (q : ℕ × ℕ) (m : StateRootUpdateMessage)
      → (at_key q m ≡ true) ↔ (q ≡ (m.rollup_id, m.block_height))
  at_key_iff (rollup_id, block_height) m = ground arith

  pub is_at_lem :
      (q : ℕ × ℕ) (r : StateRootUpdateModel b)
      → is_at b q.0 q.1 r ≡ at_key q (state_root_update_to_message b r)
  unfolding is_at state_root_update_to_message
  is_at_lem q r = refl

  abbrev pub with_aggregation :
      MessageBlsAggregation b → StateRootUpdateModel b → StateRootUpdateModel b
  with_aggregation a r = record r { aggregation = some (new_aggregation_model b a) }

  pub to_message-new_model :
      (m : StateRootUpdateMessage)
      → state_root_update_to_message b (new_state_root_update_model b m) ≡ m
  unfolding new_state_root_update_model state_root_update_to_message
  to_message-new_model m = refl

  pub aggregation-new_model :
      (m : StateRootUpdateMessage)
      → aggregation_of (new_state_root_update_model b m).aggregation ≡ none
  unfolding new_state_root_update_model
  aggregation-new_model m = refl

  pub to_message-with_aggregation :
      (a : MessageBlsAggregation b) (r : StateRootUpdateModel b)
      → state_root_update_to_message b (with_aggregation a r) ≡ state_root_update_to_message b r
  unfolding state_root_update_to_message
  to_message-with_aggregation a r = refl

  pub aggregation-with_aggregation :
      (a : MessageBlsAggregation b) (r : StateRootUpdateModel b)
      → aggregation_of (with_aggregation a r).aggregation ≡ some a
  unfolding new_aggregation_model aggregation_to_message
  aggregation-with_aggregation a r = refl

  abbrev pub state_roots : Kind
  state_roots = record {
    Message = StateRootUpdateMessage;
    Aggregation = MessageBlsAggregation b;
    Row = StateRootUpdateModel b;
    Key = ℕ × ℕ;
    key = λ m. (m.rollup_id, m.block_height);
    has_key = at_key;
    condition = λ q. is_at b q.0 q.1;
    new_row = new_state_root_update_model b;
    to_message = state_root_update_to_message b;
    aggregation = λ r. aggregation_of r.aggregation;
    with_aggregation = with_aggregation;
    has_key_iff = at_key_iff;
    condition_lem = is_at_lem;
    to_message-new_row = to_message-new_model;
    aggregation-new_row = aggregation-new_model;
    to_message-with = to_message-with_aggregation;
    aggregation-with = aggregation-with_aggregation;
  }

  record_state_root-keep :
      (g : Gorm (StateRootUpdateModel b)) (op : StateRootUpdateMessage × MessageBlsAggregation b)
      (t : g.Table)
      → record_state_root g op t ≡ keep state_roots g op t
  unfolding record_state_root keep new_state_root_update_model is_at
  record_state_root-keep g (m, a) t = refl

  record_state_roots-keep_all :
      (g : Gorm (StateRootUpdateModel b))
      (ops : List (StateRootUpdateMessage × MessageBlsAggregation b)) (t : g.Table)
      → record_state_roots g ops t ≡ keep_all state_roots g ops t
  unfolding record_state_roots keep_all
  record_state_roots-keep_all g [] t = refl
  record_state_roots-keep_all g (op ∷ ops) t =
      ap (λ first. first >>= record_state_roots g ops) (record_state_root-keep g op t)
      ∙ ap (λ rest. keep state_roots g op t >>= rest)
          (fun_ext (λ t'. record_state_roots-keep_all g ops t'))

  -- The two ways to turn a row's aggregation into a message.
  aggregation_read :
      (o : Option (AggregationModel b))
      → (or_err o aggregation_not_found >>= λ a. ok (aggregation_to_message b a))
        ≡ or_err (aggregation_of o) aggregation_not_found
  aggregation_read none = refl
  aggregation_read (some a) = refl

  -- The database does for state root updates what a map from rollups and heights would: from an
  -- empty table, after stores that all succeed, and while it answers, the message that is fetched
  -- is the first one that was stored for the rollup and height, and the aggregation that is fetched
  -- is the last one that was stored for it, each exactly where there is one.
  pub state_root_updates_refine :
      (g : Gorm (StateRootUpdateModel b))
      (ops : List (StateRootUpdateMessage × MessageBlsAggregation b)) (t t' : g.Table)
      (rollup_id block_height : ℕ)
      → g.rows t ≡ []
      → record_state_roots g ops t ≡ ok t'
      → g.is_up t' ≡ true
      → ((m : StateRootUpdateMessage)
          → (fetch_state_root_update b g rollup_id block_height t' ≡ ok m)
            ↔ (first_message state_roots (rollup_id, block_height) ops ≡ some m))
        × ((a : MessageBlsAggregation b)
            → (fetch_state_root_update_aggregation b g rollup_id block_height t' ≡ ok a)
              ↔ (last_aggregation state_roots (rollup_id, block_height) ops ≡ some a))
  unfolding fetch_state_root_update fetch_state_root_update_aggregation
  state_root_updates_refine g ops t t' rollup_id block_height empty stored up =
      let (messages, aggregations) =
        reads_refine state_roots g ops t t' (rollup_id, block_height) empty
          (sym (record_state_roots-keep_all g ops t) ∙ stored) up in
      (
        messages,
        λ a.
            subst
              (λ read.
                ((g.first (is_at b rollup_id block_height) t' >>= read) ≡ ok a)
                ↔ (last_aggregation state_roots (rollup_id, block_height) ops ≡ some a))
              (sym (fun_ext (λ row. aggregation_read row.aggregation))) (aggregations a),
      )
