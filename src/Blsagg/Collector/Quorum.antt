-- ===== src/Blsagg/Collector/Quorum.antt =====
-- Nothing but a quorum makes the goroutine of aggregator/blsagg/message_blsagg.go answer without an
-- error.
use mathlib.Core.Path.{subst}
use mathlib.Core.Option.{none-ne-some}
use near_sffl.Prelude.{
  Outcome, Option-cases, ◌≢◌, ◌∙◌, ℕ, ◌≡◌, refl, sym, inl, inr, ◌⊎◌, List, [], ◌∷◌, ◌++◌, true,
  false, none, All, All-append, ok, err, abort, Outcome-cases, Bool-cases, ◌==◌, ==_iff,
}
use near_sffl.Interface.{Bls, MessageType}
use near_sffl.Errors.{Error}
use near_sffl.Blsagg.Stake.{
  Status, none_status, full_stake_threshold_met, threshold_not_reached, threshold_reached,
}
use near_sffl.Blsagg.Digest.{ValidationInfo, SignedMessage, handle_signed_message_digest}
use near_sffl.Blsagg.Digest.Growth.{DigestMeets, handle_signed_message_digest-DigestMeets}
use near_sffl.Blsagg.Response.{Response, GetIndices, get_message_bls_aggregation_response}
use near_sffl.Blsagg.Response.Answer.{DigestFull, meaning, digest_of_no_error, error_of_none_status}
use near_sffl.Blsagg.Collector.{
  Collector, Phase, pre_threshold, waits_for_full_stake, returned, aborted, Event, signed, timer,
  answer_pre_threshold, answer_threshold_reached, reply, after_pre_threshold,
  after_threshold_reached, enter_threshold_reached, respond, handle_signed_message_pre_threshold,
  handle_signed_message_threshold_reached, dispatch, step, single_message_aggregator,
}

module _ (b : Bls) (t : MessageType) where
  -- An answer without an error names a digest that meets the thresholds.
  abbrev Meeting : ValidationInfo b → Response b t → Type 0
  Meeting info r = r.error ≡ none → DigestMeets b info r.aggregation.message_digest

  -- The same, or one whose signed stakes are the total stakes.
  abbrev Reached : ValidationInfo b → Response b t → Type 0
  Reached info r =
      r.error ≡ none
      → DigestMeets b info r.aggregation.message_digest
        ⊎ DigestFull b info r.aggregation.message_digest

  abbrev Inv : Phase t → ValidationInfo b → List (Response b t) → Type 0
  Inv pre_threshold info rs = All (Meeting info) rs
  Inv (waits_for_full_stake m d) info rs = All (Meeting info) rs × DigestMeets b info d
  Inv returned info rs = All (Reached info) rs
  Inv aborted info rs = All (Meeting info) rs

  -- The digest that a signed message carries is the digest of its message.
  abbrev pub IsDigested : Event b t → Type 0
  IsDigested (timer g) = Unit
  IsDigested (signed m g) = t.digest m.message ≡ ok m.message_digest

  Reached-of_Meeting :
      (info : ValidationInfo b) (rs : List (Response b t))
      → All (Meeting info) rs
      → All (Reached info) rs
  Reached-of_Meeting info [] h = tt
  Reached-of_Meeting info (r ∷ rs) (h, hs) = (λ e. inl (h e), Reached-of_Meeting info rs hs)

  Meeting-later :
      (m : SignedMessage b t) (info info' : ValidationInfo b) (rs : List (Response b t))
      → handle_signed_message_digest b t m info ≡ ok info'
      → All (Meeting info) rs
      → All (Meeting info') rs
  Meeting-later m info info' [] k h = tt
  Meeting-later m info info' (r ∷ rs) k (h, hs) = (
    λ e. handle_signed_message_digest-DigestMeets b t m _ info info' k (h e),
    Meeting-later m info info' rs k hs,
  )

  -- The digest of the message handed over, in either form.
  digest_eq :
      (m : SignedMessage b t) (d : ℕ)
      → t.digest m.message ≡ ok m.message_digest
      → t.digest m.message ≡ ok d
      → m.message_digest ≡ d
  digest_eq m d h k = cc

  abbrev InvOf : Collector b t → Type 0
  InvOf c = Inv c.phase c.info c.responses

  abbrev AllMeeting : Collector b t → Type 0
  AllMeeting c = All (Meeting c.info) c.responses

  -- The head of the second loop, where the digest meets the thresholds.
  enter-Inv :
      (c : Collector b t) (m : SignedMessage b t)
      → AllMeeting c
      → DigestMeets b c.info m.message_digest
      → t.digest m.message ≡ ok m.message_digest
      → InvOf (enter_threshold_reached b t c m.message)
  unfolding enter_threshold_reached
  enter-Inv c m h meets d = rw (d, enter_threshold_reached) (h, meets)

  after_pre_threshold-Inv :
      (c : Collector b t) (m : SignedMessage b t) (g : GetIndices) (r : Response b t) (s : Status)
      → c.phase ≡ pre_threshold
      → All (Meeting c.info) c.responses
      → t.digest m.message ≡ ok m.message_digest
      → get_message_bls_aggregation_response b t g m.message m.message_digest c.info false ≡ ok r
      → r.status ≡ s
      → InvOf (after_pre_threshold b t c m.message r s)
  unfolding after_pre_threshold
  after_pre_threshold-Inv c m g r threshold_not_reached p h d k e = rw p h
  after_pre_threshold-Inv c m g r threshold_reached p h d k e =
      let meets : DigestMeets b c.info m.message_digest =
        (meaning b t g m.message m.message_digest c.info false r k threshold_reached e
          (λ x. cc)).0 in
      enter-Inv (respond b t c r) m
        (All-append (Meeting c.info) c.responses (r ∷ []) h (
          (λ q.
              subst (DigestMeets b c.info)
                (sym (digest_of_no_error b t g m.message m.message_digest c.info false r k q))
                meets),
          tt,
        ))
        meets d
  after_pre_threshold-Inv c m g r full_stake_threshold_met p h d k e =
      All-append (Reached c.info) c.responses (r ∷ []) (Reached-of_Meeting c.info c.responses h) (
        (λ q. inr (
            subst (DigestFull b c.info)
              (sym (digest_of_no_error b t g m.message m.message_digest c.info false r k q))
              (meaning b t g m.message m.message_digest c.info false r k full_stake_threshold_met e
                (λ x. cc)))),
        tt,
      )
  after_pre_threshold-Inv c m g r none_status p h d k e = rw p (
      All-append (Meeting c.info) c.responses (r ∷ []) h (
        (λ q. absurd (error_of_none_status b t g m.message m.message_digest c.info false r k e q)),
        tt,
      ))

  module _ (c : Collector b t) (m : SignedMessage b t) (g : GetIndices) where
    abbrev Answer : Outcome Error (Response b t) → Type 0
    Answer o =
        get_message_bls_aggregation_response b t g m.message m.message_digest c.info false ≡ o

    answer_pre_threshold-Inv :
        (o : Outcome Error (Response b t))
        → Answer o
        → c.phase ≡ pre_threshold
        → AllMeeting c
        → t.digest m.message ≡ ok m.message_digest
        → InvOf (answer_pre_threshold b t c m.message o)
    unfolding answer_pre_threshold
    answer_pre_threshold-Inv (ok r) k p h d = after_pre_threshold-Inv c m g r r.status p h d k refl
    answer_pre_threshold-Inv (err x) k p h d = h
    answer_pre_threshold-Inv abort k p h d = h

    Meeting-Answer :
        (r : Response b t)
        → Answer (ok r)
        → DigestMeets b c.info m.message_digest
        → Meeting c.info r
    Meeting-Answer r k meets q =
        subst (DigestMeets b c.info)
          (sym (digest_of_no_error b t g m.message m.message_digest c.info false r k q)) meets

    after_threshold_reached-Inv :
        (first : t.Message) (r : Response b t) (s : Status)
        → c.phase ≡ waits_for_full_stake first m.message_digest
        → All (Meeting c.info) (c.responses ++ r ∷ [])
        → DigestMeets b c.info m.message_digest
        → InvOf (after_threshold_reached b t c r s)
    unfolding after_threshold_reached
    after_threshold_reached-Inv first r full_stake_threshold_met p h meets =
        Reached-of_Meeting c.info (c.responses ++ r ∷ []) h
    after_threshold_reached-Inv first r _ p h meets = rw p (h, meets)

    answer_threshold_reached-Inv :
        (first : t.Message) (o : Outcome Error (Response b t))
        → Answer o
        → c.phase ≡ waits_for_full_stake first m.message_digest
        → AllMeeting c
        → DigestMeets b c.info m.message_digest
        → InvOf (answer_threshold_reached b t c o)
    unfolding answer_threshold_reached
    answer_threshold_reached-Inv first (ok r) k p h meets =
        after_threshold_reached-Inv first r r.status p
          (All-append (Meeting c.info) c.responses (r ∷ []) h (Meeting-Answer r k meets, tt)) meets
    answer_threshold_reached-Inv first (err x) k p h meets = h
    answer_threshold_reached-Inv first abort k p h meets = h

  pre_threshold-Inv :
      (c : Collector b t) (e : Event b t)
      → c.phase ≡ pre_threshold
      → AllMeeting c
      → IsDigested e
      → InvOf (handle_signed_message_pre_threshold b t c e)
  unfolding handle_signed_message_pre_threshold
  pre_threshold-Inv c (timer g) p h d =
      All-append (Reached c.info) c.responses _ (Reached-of_Meeting c.info c.responses h)
        ((λ q. absurd (cc)), tt)
  pre_threshold-Inv c (signed m g) p h d =
      elim (Outcome-cases (handle_signed_message_digest b t m c.info)) [
        | inr (inl (x, k)) ↦ rw (k, handle_signed_message_pre_threshold) (rw p h)
        | inr (inr k) ↦ rw (k, handle_signed_message_pre_threshold) h
        | inl (info, k) ↦
            rw (k, handle_signed_message_pre_threshold)
              (answer_pre_threshold-Inv (reply b t (record c { info = info }) none) m g _ refl p
                (Meeting-later m c.info info c.responses k h) d)
      ]

  threshold_reached-Inv :
      (c : Collector b t) (first : t.Message) (d : ℕ) (e : Event b t)
      → c.phase ≡ waits_for_full_stake first d
      → AllMeeting c
      → DigestMeets b c.info d
      → InvOf (handle_signed_message_threshold_reached b t first d c e)
  unfolding handle_signed_message_threshold_reached
  threshold_reached-Inv c first d (timer g) p h meets =
      elim (Outcome-cases (get_message_bls_aggregation_response b t g first d c.info true)) [
        | inl (r, k) ↦
            rw (k, handle_signed_message_threshold_reached)
              (Reached-of_Meeting c.info (c.responses ++ r ∷ []) (
                All-append (Meeting c.info) c.responses (r ∷ []) h (
                  (λ q.
                      subst (DigestMeets b c.info)
                        (sym (digest_of_no_error b t g first d c.info true r k q)) meets),
                  tt,
                )))
        | inr (inl (x, k)) ↦ rw (k, handle_signed_message_threshold_reached) h
        | inr (inr k) ↦ rw (k, handle_signed_message_threshold_reached) h
      ]
  threshold_reached-Inv c first d (signed m g) p h meets =
      elim (Bool-cases (m.message_digest == d)) [
        | inr other ↦ rw (other, handle_signed_message_threshold_reached) (rw p (h, meets))
        | inl same ↦
            let e : d ≡ m.message_digest = sym ((==_iff m.message_digest d).0 same) in
            let p' : c.phase ≡ waits_for_full_stake first m.message_digest =
              subst (λ x. c.phase ≡ waits_for_full_stake first x) e p in
            let meets' : DigestMeets b c.info m.message_digest =
              subst (DigestMeets b c.info) e meets in
            rw (same, handle_signed_message_threshold_reached)
              (elim (Outcome-cases (handle_signed_message_digest b t m c.info)) [
                | inr (inl (x, k)) ↦
                    rw (k, handle_signed_message_threshold_reached) (rw p (h, meets))
                | inr (inr k) ↦ rw (k, handle_signed_message_threshold_reached) h
                | inl (info, k) ↦
                    rw (k, handle_signed_message_threshold_reached)
                      (answer_threshold_reached-Inv (reply b t (record c { info = info }) none) m g
                        first _ refl p' (Meeting-later m c.info info c.responses k h)
                        (handle_signed_message_digest-DigestMeets b t m m.message_digest c.info info
                          k meets'))
              ])
      ]

  dispatch-Inv :
      (p : Phase t) (c : Collector b t) (e : Event b t)
      → c.phase ≡ p
      → Inv p c.info c.responses
      → IsDigested e
      → InvOf (dispatch b t p c e)
  unfolding dispatch
  dispatch-Inv pre_threshold c e p h d = pre_threshold-Inv c e p h d
  dispatch-Inv (waits_for_full_stake m x) c e p h d = threshold_reached-Inv c m x e p h.0 h.1
  dispatch-Inv returned c e p h d = rw p h
  dispatch-Inv aborted c e p h d = rw p h

  step-Inv : (c : Collector b t) (e : Event b t) → InvOf c → IsDigested e → InvOf (step b t c e)
  unfolding step
  step-Inv c e h d = dispatch-Inv c.phase c e refl h d

  run-Inv :
      (c : Collector b t) (es : List (Event b t))
      → InvOf c
      → All IsDigested es
      → InvOf (single_message_aggregator b t c es)
  unfolding single_message_aggregator
  run-Inv c [] h d = h
  run-Inv c (e ∷ es) h (d, ds) = run-Inv (step b t c e) es (step-Inv c e h d) ds

  Reached-of_Inv :
      (p : Phase t) (info : ValidationInfo b) (rs : List (Response b t))
      → Inv p info rs
      → All (Reached info) rs
  Reached-of_Inv pre_threshold info rs h = Reached-of_Meeting info rs h
  Reached-of_Inv (waits_for_full_stake m d) info rs h = Reached-of_Meeting info rs h.0
  Reached-of_Inv returned info rs h = h
  Reached-of_Inv aborted info rs h = Reached-of_Meeting info rs h

  -- A response that carries an error, or names a digest whose signed stakes meet the thresholds or
  -- are each the total stake of their quorum.
  abbrev pub IsJustified : ValidationInfo b → Response b t → Type 0
  IsJustified info r =
      (r.error ≢ none)
      ⊎ (DigestMeets b info r.aggregation.message_digest
          ⊎ DigestFull b info r.aggregation.message_digest)

  IsJustified-of_Reached :
      (info : ValidationInfo b) (rs : List (Response b t))
      → All (Reached info) rs
      → All (IsJustified info) rs
  IsJustified-of_Reached info [] h = tt
  IsJustified-of_Reached info (r ∷ rs) (h, hs) = (
    elim (Option-cases r.error) [
      | inl e ↦ inr (h e)
      | inr (x, e) ↦ inl (λ n. none-ne-some x (sym n ∙ e))
    ],
    IsJustified-of_Reached info rs hs,
  )

  -- Whatever is handed over and whenever the timer fires, each response that the goroutine of a
  -- new message sends without an error names a digest whose signed stakes, as they stand in the
  -- end, meet every threshold, or are each the total stake of their quorum. The signed messages
  -- carry the digests of their messages, as `ProcessNewSignature` makes them.
  pub responses_reach_quorum :
      (c : Collector b t) (es : List (Event b t))
      → c.phase ≡ pre_threshold
      → c.responses ≡ []
      → All IsDigested es
      → let end = single_message_aggregator b t c es in All (IsJustified end.info) end.responses
  responses_reach_quorum c es p r d =
      let end = single_message_aggregator b t c es in
      IsJustified-of_Reached end.info end.responses
        (Reached-of_Inv end.phase end.info end.responses (run-Inv c es (rw (p, r) tt) d))
