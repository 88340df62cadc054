-- ===== src/Aggregator/RestServer/Answers.antt =====
-- What aggregator/rest_server/server.go answers about state root updates.
use near_sffl.Prelude.{
  ℕ, ◌≡◌, refl, sym, ap, ◌∙◌, ◌⊎◌, inl, inr, List, [], true, Option, none, some, arith,
  Option-cases, ok, err, ◌>>=◌,
}
use near_sffl.Errors.{Error, state_root_update_not_found}
use near_sffl.Interface.{Bls}
use near_sffl.Messages.Aggregation.{MessageBlsAggregation}
use near_sffl.Messages.StateRootUpdate.{StateRootUpdateMessage}
use near_sffl.Aggregator.Database.{
  StateRootUpdateModel, is_at, state_root_update_to_message, fetch_state_root_update,
}
use near_sffl.Aggregator.Database.Orm.{Gorm, first_match}
use near_sffl.Aggregator.Database.Reads.{first_message, last_aggregation, last_of_first}
use near_sffl.Aggregator.Database.Refinement.{
  record_state_roots, state_roots, state_root_updates_refine,
}
use near_sffl.Aggregator.RestServer.{
  get_state_root_update_aggregation, Reply, reply, Strconv,
  handle_get_state_root_update_aggregation,
}

module _ (b : Bls) (c : Strconv) (g : Gorm (StateRootUpdateModel b)) where
  -- A fetch that finds nothing ends in an error.
  fetch_err :
      (rollup_id block_height : ℕ) (t : g.Table)
      → g.is_up t ≡ true
      → ((m : StateRootUpdateMessage)
          → ¬ (fetch_state_root_update b g rollup_id block_height t ≡ ok m))
      → (e : Error) × (fetch_state_root_update b g rollup_id block_height t ≡ err e)
  unfolding fetch_state_root_update
  fetch_err rollup_id block_height t up h =
      elim (Option-cases (first_match (is_at b rollup_id block_height) (g.rows t))) [
        | inl n ↦
            let (e, f) = g.first_err (is_at b rollup_id block_height) t n in (e, rw (f, ◌>>=◌) refl)
        | inr ((id, row), f) ↦ absurd (
            h (state_root_update_to_message b row)
              (rw (g.first_up (is_at b rollup_id block_height) t id row up f, ◌>>=◌) refl))
      ]

  abbrev pub Page : Type 0
  Page = Option (Reply (StateRootUpdateMessage × MessageBlsAggregation b))

  -- After stores that all succeeded, from an empty table, and while the database answers, a request
  -- for a rollup and a height is answered with the first message that was stored for them and the
  -- last aggregation, or with the code 404 if none was.
  pub state_root_update_page :
      (ops : List (StateRootUpdateMessage × MessageBlsAggregation b)) (t t' : g.Table)
      (rollup_id_text block_height_text : c.Text) (rollup_id block_height : ℕ)
      → g.rows t ≡ []
      → record_state_roots b g ops t ≡ ok t'
      → g.is_up t' ≡ true
      → c.parse_uint 32 rollup_id_text ≡ ok rollup_id
      → c.parse_uint 64 block_height_text ≡ ok block_height
      → let page : Page =
          handle_get_state_root_update_aggregation b c g rollup_id_text block_height_text t' in
        ((m : StateRootUpdateMessage) × (a : MessageBlsAggregation b) × (first_message
              (state_roots b)
              (rollup_id, block_height)
              ops
            ≡ some m)
          × (last_aggregation (state_roots b) (rollup_id, block_height) ops ≡ some a)
          × (page ≡ some (record { status = 200; body = some (m, a) })))
        ⊎ ((first_message (state_roots b) (rollup_id, block_height) ops ≡ none)
            × (page ≡ some (record { status = 404; body = none })))
  unfolding handle_get_state_root_update_aggregation get_state_root_update_aggregation reply
  state_root_update_page ops t t' rollup_id_text block_height_text rollup_id block_height empty
        stored up p q =
      let (messages, aggregations) =
        state_root_updates_refine b g ops t t' rollup_id block_height empty stored up in
      let parsed : handle_get_state_root_update_aggregation b c g rollup_id_text block_height_text
            t'
          ≡ reply (get_state_root_update_aggregation b g rollup_id block_height t') =
        rw (p, handle_get_state_root_update_aggregation)
          (rw (q, handle_get_state_root_update_aggregation) refl) in
      let key : ℕ × ℕ = (rollup_id, block_height) in
      elim (Option-cases (first_message (state_roots b) key ops)) [
        | inr (m, f) ↦
            let (a, l) = last_of_first (state_roots b) key ops m f in
            let got : get_state_root_update_aggregation b g rollup_id block_height t' ≡ ok (m, a) =
              rw ((messages m).1 f, (aggregations a).1 l, get_state_root_update_aggregation) refl in
            inl (m, a, f, l, parsed ∙ ap reply got)
        | inl n ↦
            let (e, h) =
              fetch_err rollup_id block_height t' up (λ m h.
                let w : none ≡ some m = sym n ∙ (messages m).0 h in absurd (ground arith)) in
            let got : get_state_root_update_aggregation b g rollup_id block_height t'
                ≡ err state_root_update_not_found =
              rw (h, get_state_root_update_aggregation) refl in
            inr (n, parsed ∙ ap reply got)
      ]
