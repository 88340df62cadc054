-- ===== src/Examples/RelayerRuns.antt =====
-- The theorems about the relayer (relayer/relayer.go) at small inputs.
use near_sffl.Prelude.{
  ℕ, ◌+◌, ◌≡◌, ◌<◌, ◌↔◌, ◌⊎◌, refl, [], ◌∷◌, ◌++◌, map, true, false, Outcome, ok, err, ◌==◌,
  if◌then◌else◌,
}
use near_sffl.Relayer.{
  NearError, Near, submit_encoded_blocks, Relayer, new_relayer, header, batch_tick, fire, hand_over,
  Steps, here, next, handed, handling, collecting, waiting,
}
use near_sffl.Relayer.Submission.{submit_encoded_blocks_iff}
use near_sffl.Relayer.Batches.{all_handled, Steps-IsConserved}
use near_sffl.Relayer.Stall.{relayer_can_stall}
use near_sffl.Examples.Setting.{eth}

abbrev bad_nonce : NearError
bad_nonce = record { invalid_nonce = true; expired = false; timeout = false }

-- The first call fails for its nonce.
abbrev answers : ℕ → ℕ → Outcome NearError ℕ
answers i encoded_blocks = if i == 0 then err bad_nonce else ok (encoded_blocks + i)

abbrev near : Near eth
near = record { Bytes = ℕ; encode = λ blocks. ok 7; force_submit = answers }

submit_encoded_blocks_iff_example : (submit_encoded_blocks eth near 7 ≡ ok 8) ↔ (
    (j : ℕ) × (j < 3)
    × (answers j 7 ≡ ok 8)
    × ((k : ℕ)
        → k < j
        → (x : NearError) × (answers k 7 ≡ err x)
          × ((x.invalid_nonce ≡ true) ⊎ (x.expired ≡ true) ⊎ (x.timeout ≡ true))))
submit_encoded_blocks_iff_example = submit_encoded_blocks_iff eth near 7 8

abbrev h : ℕ × ℕ × ℕ
h = (5, 1000, 42)

-- The batch of one header is handed over.
abbrev first_batch : Relayer eth
first_batch = record (new_relayer eth) {
  listener = handed;
  submitter = handling (h ∷ []);
  received = h ∷ [];
}

to_first_batch : Steps eth (new_relayer eth) first_batch
to_first_batch =
    next (next (next (next here (header _ [] h refl)) (fire _ refl)) (batch_tick _ h [] refl refl))
      (hand_over _ (h ∷ []) refl refl)

Steps-IsConserved_example :
    map (λ (x : ℕ × ℕ × ℕ). x) (h ∷ []) ≡ all_handled eth [] ++ (h ∷ [] ++ [])
Steps-IsConserved_example = Steps-IsConserved eth to_first_batch

relayer_can_stall_example :
    (u : Relayer eth) × Steps eth (new_relayer eth) u
    × (u.received ≡ h ∷ [])
    × (u.listener ≡ collecting [])
    × (u.submitter ≡ waiting)
    × ((t : Relayer eth) → Steps eth u t → t.handled ≡ u.handled)
relayer_can_stall_example = relayer_can_stall eth near (new_relayer eth) [] h refl refl refl
