-- ===== src/Blsagg/Collector/Refusal.antt =====
-- Signatures that the goroutine of aggregator/blsagg/message_blsagg.go answers with an error.
use mathlib.Core.Option.{none-ne-some}
use mathlib.Core.List.{append-nil, append_cancel_left, head-eq_of_cons-eq}
use near_sffl.Prelude.{
  ℕ, ◌≡◌, refl, sym, ap, ◌∙◌, inl, inr, List, [], ◌∷◌, ◌++◌, length, Option, none, some, arith,
  ◌==◌, false, Bool-cases, Outcome, ok, err, abort, Outcome-cases,
}
use near_sffl.Errors.{Error}
use near_sffl.Interface.{Bls, MessageType}
use near_sffl.Blsagg.Stake.{
  Status, none_status, full_stake_threshold_met, threshold_not_reached, threshold_reached,
}
use near_sffl.Blsagg.Digest.{SignedMessage, handle_signed_message_digest}
use near_sffl.Blsagg.Response.{Response, GetIndices, get_message_bls_aggregation_response}
use near_sffl.Blsagg.Collector.{
  Collector, Phase, pre_threshold, waits_for_full_stake, returned, aborted, signed, reply, respond,
  enter_threshold_reached, after_pre_threshold, answer_pre_threshold, after_threshold_reached,
  answer_threshold_reached, handle_signed_message_pre_threshold,
  handle_signed_message_threshold_reached, dispatch, step,
}

module _ (b : Bls) (t : MessageType) where
  -- The new replies of two descriptions of a list agree.
  new_replies :
      (old new other rs : List (Option Error)) → rs ≡ old ++ new → rs ≡ old ++ other → new ≡ other
  new_replies old new other rs h k = append_cancel_left old new other (sym h ∙ k)

  replies-enter :
      (c : Collector b t) (m : t.Message) → (enter_threshold_reached b t c m).replies ≡ c.replies
  unfolding enter_threshold_reached
  replies-enter c m = elim (Outcome-cases (t.digest m)) [
    | inl (digest, h) ↦ rw (h, enter_threshold_reached) refl
    | inr (inl (x, h)) ↦ rw (h, enter_threshold_reached) refl
    | inr (inr h) ↦ rw (h, enter_threshold_reached) refl
  ]

  replies-after_pre_threshold :
      (c : Collector b t) (m : t.Message) (r : Response b t) (s : Status)
      → (after_pre_threshold b t c m r s).replies ≡ c.replies
  unfolding after_pre_threshold
  replies-after_pre_threshold c m r threshold_not_reached = refl
  replies-after_pre_threshold c m r threshold_reached = replies-enter (respond b t c r) m
  replies-after_pre_threshold c m r full_stake_threshold_met = refl
  replies-after_pre_threshold c m r none_status = refl

  replies-answer_pre_threshold :
      (c : Collector b t) (m : t.Message) (o : Outcome Error (Response b t))
      → (answer_pre_threshold b t c m o).replies ≡ c.replies
  unfolding answer_pre_threshold
  replies-answer_pre_threshold c m (ok r) = replies-after_pre_threshold c m r r.status
  replies-answer_pre_threshold c m (err x) = refl
  replies-answer_pre_threshold c m abort = refl

  replies-answer_threshold_reached :
      (c : Collector b t) (o : Outcome Error (Response b t))
      → (answer_threshold_reached b t c o).replies ≡ c.replies
  unfolding answer_threshold_reached after_threshold_reached
  replies-answer_threshold_reached c (ok r) = at_status r.status
    where
      at_status : (s : Status) → (after_threshold_reached b t c r s).replies ≡ c.replies
      at_status full_stake_threshold_met = refl
      at_status threshold_reached = refl
      at_status threshold_not_reached = refl
      at_status none_status = refl
  replies-answer_threshold_reached c (err x) = refl
  replies-answer_threshold_reached c abort = refl

  -- A reply of no error, or none, is not one of an error.
  module _ (c : Collector b t) (e : Error) where
    abbrev IsRefusal : Collector b t → Type 0
    IsRefusal next = next.replies ≡ c.replies ++ some e ∷ [] → next ≡ reply b t c (some e)

    of_error : (x : Error) → IsRefusal (reply b t c (some x))
    of_error x h =
        ap (reply b t c)
          (head-eq_of_cons-eq (append_cancel_left c.replies (some x ∷ []) (some e ∷ []) h))

    of_none : (next : Collector b t) → next.replies ≡ c.replies ++ none ∷ [] → IsRefusal next
    of_none next k h = absurd (
        none-ne-some e
          (head-eq_of_cons-eq (new_replies c.replies (none ∷ []) (some e ∷ []) next.replies k h)))

    of_silence : (next : Collector b t) → next.replies ≡ c.replies → IsRefusal next
    of_silence next k h =
        let w : ◌≡◌ {A = List (Option Error)} [] (some e ∷ []) =
          new_replies c.replies [] (some e ∷ []) next.replies (k ∙ sym (append-nil c.replies)) h in
        absurd (ground (arith, ap length w))

    pre_threshold-IsRefusal :
        (m : SignedMessage b t) (g : GetIndices)
        → IsRefusal (handle_signed_message_pre_threshold b t c (signed m g))
    unfolding handle_signed_message_pre_threshold
    pre_threshold-IsRefusal m g = elim (Outcome-cases (handle_signed_message_digest b t m c.info)) [
      | inl (info, h) ↦
          rw (h, handle_signed_message_pre_threshold)
            (of_none _ (
              replies-answer_pre_threshold (reply b t (record c { info = info }) none) m.message
                (get_message_bls_aggregation_response b t g m.message m.message_digest info false)))
      | inr (inl (x, h)) ↦ rw (h, handle_signed_message_pre_threshold) (of_error x)
      | inr (inr h) ↦ rw (h, handle_signed_message_pre_threshold) (of_silence _ refl)
    ]

    threshold_reached-IsRefusal :
        (message : t.Message) (digest : ℕ) (m : SignedMessage b t) (g : GetIndices)
        → IsRefusal (handle_signed_message_threshold_reached b t message digest c (signed m g))
    unfolding handle_signed_message_threshold_reached
    threshold_reached-IsRefusal message digest m g =
        elim (Bool-cases (m.message_digest == digest)) [
          | inr d ↦ rw (d, handle_signed_message_threshold_reached) (of_none _ refl)
          | inl d ↦ elim (Outcome-cases (handle_signed_message_digest b t m c.info)) [
            | inl (info, h) ↦
                rw (d, h, handle_signed_message_threshold_reached)
                  (of_none _ (
                    replies-answer_threshold_reached (reply b t (record c { info = info }) none) (
                      get_message_bls_aggregation_response b t g m.message m.message_digest info
                        false)))
            | inr (inl (x, h)) ↦ rw (d, h, handle_signed_message_threshold_reached) (of_error x)
            | inr (inr h) ↦ rw (d, h, handle_signed_message_threshold_reached) (of_silence _ refl)
          ]
        ]

    dispatch-IsRefusal :
        (p : Phase t) (m : SignedMessage b t) (g : GetIndices)
        → IsRefusal (dispatch b t p c (signed m g))
    unfolding dispatch
    dispatch-IsRefusal pre_threshold m g = pre_threshold-IsRefusal m g
    dispatch-IsRefusal (waits_for_full_stake message digest) m g =
        threshold_reached-IsRefusal message digest m g
    dispatch-IsRefusal returned m g = of_silence c refl
    dispatch-IsRefusal aborted m g = of_silence c refl

  -- The answer to a signature that is refused before the threshold.
  pub replies-step_refused :
      (c : Collector b t) (m : SignedMessage b t) (g : GetIndices) (e : Error)
      → c.phase ≡ pre_threshold
      → handle_signed_message_digest b t m c.info ≡ err e
      → (step b t c (signed m g)).replies ≡ c.replies ++ some e ∷ []
  unfolding step handle_signed_message_pre_threshold
  replies-step_refused c m g e p k =
      rw (p, dispatch) (rw (k, handle_signed_message_pre_threshold) refl)

  -- Before the threshold and after it: a signature that the goroutine answers with an error changes
  -- nothing but that answer. The stakes, keys and signatures that were added up, the responses and
  -- the phase stay as they are.
  pub refused_changes_nothing :
      (c : Collector b t) (m : SignedMessage b t) (g : GetIndices) (e : Error)
      → (step b t c (signed m g)).replies ≡ c.replies ++ some e ∷ []
      → step b t c (signed m g) ≡ reply b t c (some e)
  unfolding step
  refused_changes_nothing c m g e h = dispatch-IsRefusal c e c.phase m g h
