-- ===== src/SafeClient/Ranges.antt =====
-- The blocks that `resubFilterLogs` asks for (core/safeclient/client.go), chunk by chunk.
use mathlib.Core.List.{append-nil, append_assoc}
use near_sffl.Prelude.{
  ℕ, zero, suc, ◌+◌, ◌-◌, ◌^◌, ◌%◌, ◌≡◌, ◌≤◌, ◌<◌, refl, sym, ap, ◌∙◌, inl, inr, min, max, List, [],
  ◌++◌, false, some, arith, leb, Outcome, ok, Bool-cases,
}
use near_sffl.Errors.{Error}
use near_sffl.SafeClient.{Params, first_block, fetch_chunks, resub_filter_logs, ℤ, pos, int64}

module _ {ℓ} {L : Type ℓ} (logs_of : ℕ → List L) where
  -- The logs of `n` blocks from the block `from` on, where `logs_of` are those of one block.
  unfoldable pub logs_from : ℕ → ℕ → List L
  logs_from from zero = []
  logs_from from (suc n) = logs_of from ++ logs_from (suc from) n

  logs_from-add :
      (n m from : ℕ) → logs_from from (n + m) ≡ logs_from from n ++ logs_from (from + n) m
  unfolding logs_from
  logs_from-add zero m from =
      let e : 0 + m ≡ m = omega arith in let f : from + 0 ≡ from = omega arith in rw (e, f) refl
  logs_from-add (suc n) m from =
      let e : suc n + m ≡ suc (n + m) = omega arith in
      let f : from + suc n ≡ suc from + n = omega arith in
      rw (e, f)
        (ap (λ k. logs_of from ++ k) (logs_from-add n m (suc from))
          ∙ sym (append_assoc (logs_of from) (logs_from (suc from) n) (logs_from (suc from + n) m)))

  logs_from-split :
      (n m k from next : ℕ)
      → n + m ≡ k
      → from + n ≡ next
      → logs_from from n ++ logs_from next m ≡ logs_from from k
  logs_from-split n m k from next e f = rw⁻¹ (e, f) (sym (logs_from-add n m from))

  int64_below : (n : ℕ) → n < 2 ^ 63 → int64 n ≡ pos n
  unfolding int64
  int64_below n h = ground arith

  -- The client answers with all the logs of the blocks that it is asked for.
  abbrev pub AnswersAll : (ℤ → ℤ → Outcome Error (List L)) → Type ℓ
  AnswersAll filter_logs =
      (a b : ℕ) → a ≤ b → filter_logs (pos a) (pos b) ≡ ok (logs_from a (suc b - a))

  -- A chunk of `c` blocks, followed by the others.
  one_chunk :
      (c current from : ℕ)
      → 1 ≤ c
      → from ≤ current
      → logs_from from (suc (min (from + c - 1) current) - from)
          ++ logs_from (from + c) (suc current - (from + c))
        ≡ logs_from from (suc current - from)
  unfolding logs_from
  one_chunk c current from one le = elim (Bool-cases (leb (from + c) current)) [
    | inl b ↦
        logs_from-split (suc (min (from + c - 1) current) - from) (suc current - (from + c))
          (suc current - from) from (from + c) (ground arith) (ground arith)
    | inr b ↦
        let e : suc current - (from + c) ≡ 0 = ground arith in
        let f : suc (min (from + c - 1) current) - from ≡ suc current - from = ground arith in
        rw (e, f) (append-nil (logs_from from (suc current - from)))
  ]

  fetch_chunks_lem :
      (filter_logs : ℤ → ℤ → Outcome Error (List L)) (p : Params) (current fuel from : ℕ)
      (missed : List L)
      → AnswersAll filter_logs
      → 1 ≤ p.block_chunk_size
      → current < 2 ^ 63
      → current + p.block_chunk_size < 2 ^ 64
      → suc current - from < fuel
      → fetch_chunks filter_logs p current fuel from missed
        ≡ some (ok (missed ++ logs_from from (suc current - from)))
  unfolding fetch_chunks logs_from
  fetch_chunks_lem filter_logs p current zero from missed all one low bound enough =
      absurd (omega arith)
  fetch_chunks_lem filter_logs p current (suc fuel) from missed all one low bound enough =
      elim (Bool-cases (leb from current)) [
        | inl b ↦
            let c = p.block_chunk_size in
            let e : (from + c + 2 ^ 64 - 1) % 2 ^ 64 ≡ from + c - 1 = ground arith in
            let f : (from + c) % 2 ^ 64 ≡ from + c = ground arith in
            let to = min (from + c - 1) current in
            let g : int64 from ≡ pos from = int64_below from (ground arith) in
            let h : int64 to ≡ pos to = int64_below to (ground arith) in
            rw (b, e, g, h, all from to (ground arith), f)
              (fetch_chunks_lem filter_logs p current fuel (from + c)
                  (missed ++ logs_from from (suc to - from)) all one low bound (ground arith)
                ∙ (ap (λ k. some (ok k)) (append_assoc missed (logs_from from (suc to - from)) _)
                    ∙ ap (λ k. some (ok (missed ++ k)))
                        (one_chunk c current from one (ground arith))))
        | inr b ↦
            let e : suc current - from ≡ 0 = ground arith in
            rw (b, e) (ap (λ k. some (ok k)) (sym (append-nil missed)))
      ]

  -- When the client answers in full and the current block is past the last one, a resubscription
  -- fetches exactly the logs of the blocks from the first block to the current one, each once and in
  -- order. That block is the last one that was seen, or the first of the last `block_max_range`
  -- blocks if this is later. Chunks are not empty, block numbers are below 2 ^ 63 and keep a chunk's
  -- distance from 2 ^ 64, and fuel for one chunk more than there are blocks is enough.
  pub resub_filter_logs_lem :
      (filter_logs : ℤ → ℤ → Outcome Error (List L)) (p : Params) (fuel last_block current : ℕ)
      → AnswersAll filter_logs
      → 1 ≤ p.block_chunk_size
      → current < 2 ^ 63
      → current + p.block_chunk_size < 2 ^ 64
      → last_block < current
      → suc current - last_block < fuel
      → resub_filter_logs (ok current) filter_logs p fuel last_block
        ≡ some (
            ok (
              logs_from
                (max last_block (suc (current - p.block_max_range)))
                (suc current - max last_block (suc (current - p.block_max_range)))))
  unfolding resub_filter_logs first_block
  resub_filter_logs_lem filter_logs p fuel last_block current all one low bound lt enough =
      let f : first_block p last_block current
          ≡ max last_block (suc (current - p.block_max_range)) =
        ground arith in
      let b : leb current last_block ≡ false = ground arith in
      rw (b, f)
        (fetch_chunks_lem filter_logs p current fuel
          (max last_block (suc (current - p.block_max_range))) [] all one low bound (ground arith))
