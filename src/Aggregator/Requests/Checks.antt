-- ===== src/Aggregator/Requests/Checks.antt =====
-- What the checks of aggregator/aggregator.go let through.
use mathlib.Core.Path.{subst}
use near_sffl.Prelude.{
  ℕ, ◌+◌, ◌≡◌, ◌≤◌, refl, inl, inr, ◌⊎◌, ◌↔◌, Bool, true, false, Option, none, some, arith, Outcome,
  ok, err, abort, ◌>>=◌, ◌>>◌, Outcome-cases,
}
use near_sffl.Errors.{Error, digest_error, task_response_digest_error}
use near_sffl.Interface.{Bls}
use near_sffl.Messages.StateRootUpdate.{StateRootUpdateMessage, SignedStateRootUpdateMessage}
use near_sffl.Messages.OperatorSetUpdate.{OperatorSetUpdateMessage, SignedOperatorSetUpdateMessage}
use near_sffl.Messages.CheckpointTask.{CheckpointTaskResponse, SignedCheckpointTaskResponse}
use near_sffl.Blsagg.Service.{Service, Delivery, delivered, process_ended}
use near_sffl.Aggregator.Requests.{
  World, validate_message_timestamp, signature_verdict, verdict, operator_key_or_error,
  verify_signature, submit, state_root_updates, operator_set_updates, checkpoint_tasks,
  process_signed_checkpoint_task_response, process_signed_state_root_update_message,
  process_signed_operator_set_update_message,
}

-- A timestamp passes exactly when it is at most a minute old.
validate_message_timestamp_iff :
    (now timestamp : ℕ)
    → (validate_message_timestamp now timestamp ≡ ok tt) ↔ (now ≤ timestamp + 60)
unfolding validate_message_timestamp
validate_message_timestamp_iff now timestamp = ground arith

module _ (b : Bls) where
  -- A registered operator signed the digest.
  abbrev pub IsSigned : World b → Outcome Error ℕ → Option b.Signature → ℕ → Type 0
  IsSigned w digest signature operator =
      (d : ℕ) × (g : b.G2) × (p : b.Signature) × (digest ≡ ok d)
      × (w.operator_key operator ≡ some g)
      × (signature ≡ some p)
      × (b.verify p g d ≡ ok true)

  signature_verdict_iff : (o : Outcome Error Bool) → (signature_verdict o ≡ ok tt) ↔ (o ≡ ok true)
  unfolding signature_verdict
  signature_verdict_iff (ok true) = (λ h. refl, λ h. refl)
  signature_verdict_iff (ok false) = (λ h. absurd (ground arith), λ h. absurd (ground arith))
  signature_verdict_iff (err e) = (λ h. absurd (ground arith), λ h. absurd (ground arith))
  signature_verdict_iff abort = (λ h. absurd (ground arith), λ h. absurd (ground arith))

  IsSigned-of_ok :
      (w : World b) (digest : Outcome Error ℕ) (e : Error) (signature : Option b.Signature)
      (operator : ℕ) (key : Option b.G2)
      → w.operator_key operator ≡ key
      → verify_signature b w digest e signature operator ≡ ok tt
      → IsSigned w digest signature operator
  unfolding verify_signature
  IsSigned-of_ok w (ok d) e (some p) operator (some g) k h = (
    d,
    g,
    p,
    refl,
    k,
    refl,
    (signature_verdict_iff (b.verify p g d)).0
        (subst (λ q. (operator_key_or_error b q >>= λ g. verdict b (some p) g d) ≡ ok tt) k h),
  )
  IsSigned-of_ok w (ok d) e none operator (some g) k h =
      let h' = subst (λ q. (operator_key_or_error b q >>= λ g. verdict b none g d) ≡ ok tt) k h in
      absurd (ground arith)
  IsSigned-of_ok w (ok d) e p operator none k h =
      let h' = subst (λ q. (operator_key_or_error b q >>= λ g. verdict b p g d) ≡ ok tt) k h in
      absurd (ground arith)
  IsSigned-of_ok w (err f) e p operator key k h = absurd (ground arith)
  IsSigned-of_ok w abort e p operator key k h = absurd (ground arith)

  -- A signature passes exactly when the message has a digest, the operator is registered, and the
  -- BLS library accepts the signature of that digest under the operator's key.
  verify_signature_iff :
      (w : World b) (digest : Outcome Error ℕ) (e : Error) (signature : Option b.Signature)
      (operator : ℕ)
      → (verify_signature b w digest e signature operator ≡ ok tt)
        ↔ IsSigned w digest signature operator
  unfolding verify_signature
  verify_signature_iff w digest e signature operator = (
    IsSigned-of_ok w digest e signature operator (w.operator_key operator) refl,
    λ (d, g, p, hd, hg, hp, hv). rw (hd, hg, hp) ((signature_verdict_iff (b.verify p g d)).1 hv),
  )

  -- The request failed: an error, or the end of the process.
  abbrev pub IsRefused : Delivery → Type 0
  IsRefused d = ((e : Error) × (d ≡ delivered (some e))) ⊎ (d ≡ process_ended)

  -- A checkpoint task response changes nothing and is refused unless a registered operator signed it.
  process_signed_checkpoint_task_response_lem :
      (digest : CheckpointTaskResponse → Outcome Error ℕ) (w : World b)
      (r : SignedCheckpointTaskResponse b) (s : Service b (checkpoint_tasks digest))
      → let (s', d) = process_signed_checkpoint_task_response b digest w r s in
        IsSigned w (digest r.task_response) r.bls_signature r.operator_id ⊎ ((s' ≡ s) × IsRefused d)
  unfolding process_signed_checkpoint_task_response submit
  process_signed_checkpoint_task_response_lem digest w r s =
      let m = r.task_response in
      elim (Outcome-cases (
        verify_signature b w (digest m) task_response_digest_error r.bls_signature r.operator_id)) [
          | inl (_, h) ↦ inl (
              (verify_signature_iff w (digest m) task_response_digest_error r.bls_signature
                  r.operator_id).0
                h)
          | inr (inl (e, h)) ↦ inr (rw h (refl, inl (e, refl)))
          | inr (inr h) ↦ inr (rw h (refl, inr refl))
        ]

  -- The two checks in a row.
  checks_cases :
      (w : World b) (timestamp : ℕ) (digest : Outcome Error ℕ) (signature : Option b.Signature)
      (operator : ℕ)
      → let checks =
          validate_message_timestamp w.now timestamp
          >> verify_signature b w digest digest_error signature operator in
        ((w.now ≤ timestamp + 60) × IsSigned w digest signature operator)
        ⊎ (((e : Error) × (checks ≡ err e)) ⊎ (checks ≡ abort))
  checks_cases w timestamp digest signature operator =
      elim (Outcome-cases (validate_message_timestamp w.now timestamp)) [
        | inl (_, h) ↦
            elim (Outcome-cases (verify_signature b w digest digest_error signature operator)) [
              | inl (_, g) ↦ inl (
                (validate_message_timestamp_iff w.now timestamp).0 h,
                (verify_signature_iff w digest digest_error signature operator).0 g,
              )
              | inr (inl (e, g)) ↦ inr (inl (e, rw h g))
              | inr (inr g) ↦ inr (inr (rw h g))
            ]
        | inr (inl (e, h)) ↦ inr (inl (e, rw h refl))
        | inr (inr h) ↦ inr (inr (rw h refl))
      ]

  -- A state root update and an operator set update change nothing and are refused, unless they are
  -- at most a minute old and a registered operator signed them.
  pub process_signed_message_lem :
      (digest : StateRootUpdateMessage → Outcome Error ℕ)
      (operators_digest : OperatorSetUpdateMessage b → Outcome Error ℕ) (w : World b)
      (r : SignedStateRootUpdateMessage b) (s : Service b (state_root_updates digest))
      (o : SignedOperatorSetUpdateMessage b)
      (s_operators : Service b (operator_set_updates b operators_digest))
      → let (s', d) = process_signed_state_root_update_message b digest w r s in
        let (s_operators', d_operators) =
          process_signed_operator_set_update_message b operators_digest w o s_operators in
        (((w.now ≤ r.message.timestamp + 60)
            × IsSigned w (digest r.message) r.bls_signature r.operator_id)
          ⊎ ((s' ≡ s) × IsRefused d))
        × (((w.now ≤ o.message.timestamp + 60)
              × IsSigned w (operators_digest o.message) o.bls_signature o.operator_id)
            ⊎ ((s_operators' ≡ s_operators) × IsRefused d_operators))
  unfolding process_signed_state_root_update_message process_signed_operator_set_update_message
      submit
  process_signed_message_lem digest operators_digest w r s o s_operators = (
    elim (checks_cases w r.message.timestamp (digest r.message) r.bls_signature r.operator_id) [
      | inl h ↦ inl h
      | inr (inl (e, h)) ↦ inr (rw h (refl, inl (e, refl)))
      | inr (inr h) ↦ inr (rw h (refl, inr refl))
    ],
    elim (checks_cases w o.message.timestamp (operators_digest o.message) o.bls_signature
        o.operator_id) [
          | inl h ↦ inl h
          | inr (inl (e, h)) ↦ inr (rw h (refl, inl (e, refl)))
          | inr (inr h) ↦ inr (rw h (refl, inr refl))
        ],
  )
