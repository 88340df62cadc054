-- ===== src/Aggregator/Rollups/Retries.antt =====
-- When the retries of aggregator/rollup_writer.go succeed.
use mathlib.Core.Path.{subst}
use near_sffl.Prelude.{
  ℕ, zero, suc, ◌+◌, ◌≡◌, ◌≤◌, ◌<◌, refl, sym, ap, ◌∙◌, ◌↔◌, inl, inr, Bool, false, arith, ◌==◌,
  ==_iff, Outcome, ok, err, Outcome-cases, Bool-cases,
}
use near_sffl.Errors.{Error, context_canceled, failed_to_update_operator_set}
use near_sffl.Aggregator.Rollups.{
  retry, Attempt, Written, sent, update_attempt, update_operator_set,
}

module _ {ℓ} {A : Type ℓ} (attempt : ℕ → Outcome Error A) (done : ℕ → Bool) where
  -- The attempt before failed, and the context went on.
  abbrev pub WentOn : ℕ → Type ℓ
  WentOn j = ((e : Error) × (attempt j ≡ err e)) × (done j ≡ false)

  -- The attempt that a result comes from.
  abbrev pub ComesFrom : ℕ → ℕ → A → Type ℓ
  ComesFrom i n a =
      (k : ℕ) × (i ≤ k) × (k < i + n) × (attempt k ≡ ok a) × ((j : ℕ) → i ≤ j → j < k → WentOn j)

  before_too :
      (i k : ℕ)
      → WentOn i
      → ((j : ℕ) → suc i ≤ j → j < k → WentOn j)
      → (j : ℕ) → i ≤ j
      → j < k
      → WentOn j
  before_too i k w before j p q = elim (Bool-cases (i == j)) [
    | inl e ↦ subst WentOn ((==_iff i j).0 e) w
    | inr e ↦ before j (ground arith) q
  ]

  retry-ComesFrom :
      (early late : Error) (n i : ℕ) (a : A)
      → retry attempt done early late n i ≡ ok a
      → ComesFrom i n a
  unfolding retry
  retry-ComesFrom early late zero i a h = absurd (ground arith)
  retry-ComesFrom early late (suc n) i a h = elim (Outcome-cases (attempt i)) [
    | inl (x, e) ↦
        (i, omega arith, omega arith, e ∙ (rw (e, retry) at h), λ j p q. absurd (omega arith))
    | inr (inr e) ↦ let g = rw (e, retry) at h in absurd (ground arith)
    | inr (inl (x, e)) ↦ elim (Bool-cases (done i)) [
      | inl d ↦ let g = rw (e, d, retry) at h in absurd (ground arith)
      | inr d ↦
          let (k, p, q, r, before) =
            retry-ComesFrom early late n (suc i) a (rw (e, d, retry) at h) in
          (k, omega arith, omega arith, r, before_too i k ((x, e), d) before)
    ]
  ]

  retry_of_ComesFrom :
      (early late : Error) (n i k : ℕ) (a : A)
      → i ≤ k
      → k < i + n
      → attempt k ≡ ok a
      → ((j : ℕ) → i ≤ j → j < k → WentOn j)
      → retry attempt done early late n i ≡ ok a
  unfolding retry
  retry_of_ComesFrom early late zero i k a le lt h before = absurd (omega arith)
  retry_of_ComesFrom early late (suc n) i k a le lt h before = elim (Bool-cases (i == k)) [
    | inl e ↦ let f = subst (λ j. attempt j ≡ ok a) (sym ((==_iff i k).0 e)) h in rw (f, retry) refl
    | inr e ↦
        let ((x, f), d) = before i (omega arith) (ground arith) in
        rw (f, d, retry)
          (retry_of_ComesFrom early late n (suc i) k a (ground arith) (ground arith) h
            (λ j p q. before j (omega arith) q))
  ]

-- The writer reports success in an attempt exactly when one of the first five attempts comes to
-- that, all before it failed, and the context did not end after any of these.
pub update_operator_set_iff :
    (id : ℕ) (attempts : ℕ → Attempt) (done : ℕ → Bool) (w : Written)
    → (update_operator_set id attempts done ≡ ok w)
      ↔ ComesFrom (λ i. update_attempt id (attempts i)) done 0 5 w
unfolding update_operator_set
update_operator_set_iff id attempts done w = (
  retry-ComesFrom (λ i. update_attempt id (attempts i)) done context_canceled
      failed_to_update_operator_set 5 0 w,
  λ (k, p, q, r, before).
      retry_of_ComesFrom (λ i. update_attempt id (attempts i)) done context_canceled
        failed_to_update_operator_set 5 0 k w p q r before,
)

sent_next :
    (id given : ℕ) (a : Attempt)
    → update_attempt id a ≡ ok (sent given)
    → (given ≡ id) × (a.next_operator_update_id ≡ ok id) × (a.send ≡ ok tt)
unfolding update_attempt
sent_next id given a h = elim (Outcome-cases a.get_no_send_tx_opts) [
  | inr (inl (x, e)) ↦ absurd (ground arith)
  | inr (inr e) ↦ absurd (ground arith)
  | inl (_, e) ↦ elim (Outcome-cases a.next_operator_update_id) [
    | inr (inl (x, f)) ↦ absurd (ground arith)
    | inr (inr f) ↦ absurd (ground arith)
    | inl (n, f) ↦ elim (Bool-cases (id == n)) [
      | inr b ↦ absurd (ground arith)
      | inl b ↦ elim (Outcome-cases a.send) [
        | inl (_, g) ↦ (ground arith, f ∙ ap ok (sym ((==_iff id n).0 b)), g)
        | inr (inl (x, g)) ↦ absurd (ground arith)
        | inr (inr g) ↦ absurd (ground arith)
      ]
    ]
  ]
]

-- An operator set update is sent to a rollup only if its id is the next one of the rollup's
-- registry, as read in the one of five attempts that sent it, and it is sent with that id.
update_operator_set_sends_next :
    (id given : ℕ) (attempts : ℕ → Attempt) (done : ℕ → Bool)
    → update_operator_set id attempts done ≡ ok (sent given)
    → (given ≡ id)
      × ((k : ℕ) × (k < 5)
          × ((attempts k).next_operator_update_id ≡ ok id)
          × ((attempts k).send ≡ ok tt))
update_operator_set_sends_next id given attempts done h =
    let (k, p, q, r, before) = (update_operator_set_iff id attempts done (sent given)).0 h in
    let (same, n, s) = sent_next id given (attempts k) r in (same, (k, omega arith, n, s))
