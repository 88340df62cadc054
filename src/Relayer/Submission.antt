-- ===== src/Relayer/Submission.antt =====
-- When relayer/relayer.go gets a batch submitted.
use mathlib.Core.Path.{subst}
use near_sffl.Prelude.{
  ℕ, zero, suc, ◌+◌, ◌≡◌, ◌<◌, ◌↔◌, ◌⊎◌, refl, sym, ap, ◌∙◌, inl, inr, true, arith, Bool-cases, ok,
  err, abort, Outcome-cases, ok-injective,
}
use near_sffl.Errors.{unknown_submission_error}
use near_sffl.Interface.{Eth}
use near_sffl.Relayer.{
  NearError, is_retried, Near, submit_loop, submit_encoded_blocks, submit_block_retries,
}

is_retried_iff :
    (x : NearError)
    → (is_retried x ≡ true) ↔ ((x.invalid_nonce ≡ true) ⊎ (x.expired ≡ true) ⊎ (x.timeout ≡ true))
unfolding is_retried
is_retried_iff x = ground arith

from_zero : (k : ℕ) → 0 + k ≡ k
from_zero k = omega arith

module _ (e : Eth) (near : Near e) (bytes : near.Bytes) where
  -- The call with that number failed, in a way that is tried again.
  abbrev pub FailedOver : ℕ → Type 0
  FailedOver i = (x : NearError) × (near.force_submit i bytes ≡ err x) × (is_retried x ≡ true)

  -- One of the calls from `i` on, `n` at most, gives that, and those before it failed over.
  abbrev pub IsReached : ℕ → ℕ → near.Bytes → Type 0
  IsReached n i out =
      (j : ℕ) × (j < n)
      × (near.force_submit (i + j) bytes ≡ ok out)
      × ((k : ℕ) → k < j → FailedOver (i + k))

  IsReached-at_once :
      (n i : ℕ) (out : near.Bytes) → near.force_submit i bytes ≡ ok out → IsReached (suc n) i out
  IsReached-at_once n i out h =
      let same : i + 0 ≡ i = omega arith in
      (0, omega arith, ap (λ x. near.force_submit x bytes) same ∙ h, λ k p. absurd (omega arith))

  shifted :
      (i j : ℕ)
      → FailedOver i
      → ((k : ℕ) → k < j → FailedOver (suc i + k))
      → (k : ℕ) → k < suc j
      → FailedOver (i + k)
  shifted i j f before zero q = let same : i ≡ i + 0 = omega arith in subst FailedOver same f
  shifted i j f before (suc k) q =
      let same : suc i + k ≡ i + suc k = omega arith in
      subst FailedOver same (before k (omega arith))

  IsReached-later :
      (n i : ℕ) (out : near.Bytes)
      → FailedOver i
      → IsReached n (suc i) out
      → IsReached (suc n) i out
  IsReached-later n i out f (j, p, h, before) =
      let same : i + suc j ≡ suc i + j = omega arith in
      (suc j, omega arith, ap (λ x. near.force_submit x bytes) same ∙ h, shifted i j f before)

  submit_loop-IsReached :
      (n i : ℕ) (out : near.Bytes) → submit_loop e near n i bytes ≡ ok out → IsReached n i out
  unfolding submit_loop
  submit_loop-IsReached zero i out h = absurd (ground arith)
  submit_loop-IsReached (suc n) i out h = elim (Outcome-cases (near.force_submit i bytes)) [
    | inl (x, p) ↦
        let same : ok x ≡ ok out = rw (p, submit_loop) at h in
        IsReached-at_once n i out (p ∙ ap ok (ok-injective x out same))
    | inr (inl (x, p)) ↦ elim (Bool-cases (is_retried x)) [
      | inl r ↦
          IsReached-later n i out (x, p, r)
            (submit_loop-IsReached n (suc i) out (rw (p, r, submit_loop) at h))
      | inr r ↦
          let w : err unknown_submission_error ≡ ok out = rw (p, r, submit_loop) at h in
          absurd (ground arith)
    ]
    | inr (inr p) ↦ let w : abort ≡ ok out = rw (p, submit_loop) at h in absurd (ground arith)
  ]

  submit_loop_of_IsReached :
      (n i j : ℕ) (out : near.Bytes)
      → j < n
      → near.force_submit (i + j) bytes ≡ ok out
      → ((k : ℕ) → k < j → FailedOver (i + k))
      → submit_loop e near n i bytes ≡ ok out
  unfolding submit_loop
  submit_loop_of_IsReached zero i j out p h before = absurd (omega arith)
  submit_loop_of_IsReached (suc n) i zero out p h before =
      let same : i ≡ i + 0 = omega arith in
      let at : near.force_submit i bytes ≡ ok out = ap (λ x. near.force_submit x bytes) same ∙ h in
      rw (at, submit_loop) refl
  submit_loop_of_IsReached (suc n) i (suc j) out p h before =
      let same : suc i + j ≡ i + suc j = omega arith in
      let start : i + 0 ≡ i = omega arith in
      let (x, f, r) = subst FailedOver start (before 0 (omega arith)) in
      rw (f, r, submit_loop)
        (submit_loop_of_IsReached n (suc i) j out (omega arith)
          (ap (λ y. near.force_submit y bytes) same ∙ h)
          (λ k q.
            let moved : i + suc k ≡ suc i + k = omega arith in
            subst FailedOver moved (before (suc k) (omega arith))))

  -- A batch counts as submitted exactly when one of the first three calls of the NEAR client
  -- succeeds and each call before it failed for its nonce, its expiry or a timeout.
  pub submit_encoded_blocks_iff :
      (out : near.Bytes)
      → (submit_encoded_blocks e near bytes ≡ ok out) ↔ (
          (j : ℕ) × (j < submit_block_retries)
          × (near.force_submit j bytes ≡ ok out)
          × ((k : ℕ)
              → k < j
              → (x : NearError) × (near.force_submit k bytes ≡ err x)
                × ((x.invalid_nonce ≡ true) ⊎ (x.expired ≡ true) ⊎ (x.timeout ≡ true))))
  unfolding submit_encoded_blocks
  submit_encoded_blocks_iff out = (
    λ h.
        let (j, p, q, before) = submit_loop-IsReached submit_block_retries 0 out h in
        (
          j,
          p,
          subst (λ x. near.force_submit x bytes ≡ ok out) (from_zero j) q,
          λ k r.
              let (x, f, t) = subst FailedOver (from_zero k) (before k r) in
              (x, f, (is_retried_iff x).0 t),
        ),
    λ (j, p, q, before).
        submit_loop_of_IsReached submit_block_retries 0 j out p
          (subst (λ x. near.force_submit x bytes ≡ ok out) (sym (from_zero j)) q)
          (λ k r.
            let (x, f, t) = before k r in
            subst FailedOver (sym (from_zero k)) (x, f, (is_retried_iff x).1 t)),
  )
